-- ===== src/Roles/Editor/Names.antt =====
-- Which roles are saved, and what a simulation shows.
use go_platform_starter.Prelude.{
  ℕ, Bool, not, ◌&&◌, ◌||◌, List, [], ◌∷◌, ◌++◌, ◌≡◌, refl, arith, any, if◌then◌else◌, Text,
  Text_key, ℕ_key, is_empty, includes, includes-append, includes-unique, includes-filter,
}
use go_platform_starter.Roles.{Role}
use go_platform_starter.Roles.Editor.{set_group, granted, can_access}

-- A simulation grants a permission exactly if one of the selected roles has it.
includes-granted :
    (p : Text) (selected : List ℕ) (roles : List Role)
    → includes p (granted selected roles)
      ≡ any (λ r. includes r.id selected && includes p r.permissions) roles
includes-granted p selected [] = refl
includes-granted p selected (r ∷ roles) = ground (
  arith,
  includes-granted p selected roles,
  includes-append p r.permissions (granted selected roles),
)

-- A probe is granted in a simulation exactly if it is not empty and one of the selected roles has it.
can_access-any :
    (probe : Text) (selected : List ℕ) (roles : List Role)
    → can_access probe selected roles ≡ (
        not (is_empty probe)
        && any (λ r. includes r.id selected && includes probe r.permissions) roles)
unfolding can_access
can_access-any probe selected roles =
    ground
      (arith, includes-unique probe (granted selected roles), includes-granted probe selected roles)

-- Checking a group selects its permissions beside those that were selected; clearing it leaves those
-- that were selected and stand outside the group.
includes-set_group :
    (names selected : List Text) (checked : Bool) (p : Text)
    → includes p (set_group names checked selected) ≡ (
        if checked
        then includes p selected || includes p names
        else includes p selected && not (includes p names))
unfolding set_group
includes-set_group names selected checked p = ground (
  arith,
  includes-unique p (selected ++ names),
  includes-append p selected names,
  includes-filter (λ q. not (includes q names)) p selected,
)

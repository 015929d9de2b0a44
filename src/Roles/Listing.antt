-- ===== src/Roles/Listing.antt =====
-- apps/web-admin-roles/src/RolesPage.tsx: the list of roles: what is searched and how it is sorted, which
-- roles are open, and the arrow keys. `lower` is `toLowerCase`, and `collate s t` says that
-- `s.localeCompare(t)` is not positive.
pub mod Sorting
pub mod Opening
use go_platform_starter.Prelude.{
  ℕ, zero, suc, ◌+◌, ◌-◌, ◌%◌, Bool, true, false, not, ◌&&◌, ◌||◌, Option, none, some, List, [],
  ◌∷◌, ◌++◌, if◌then◌else◌, filter, any, leb, length, ◌==◌, Text, codes, text_same, is_empty,
  has_text, trim, sort_by,
}
use go_platform_starter.Roles.{Role}

pub data Sort : Type 0 where
  by_users by_permissions by_newest by_name : Sort

module _ (lower : Text → Text) where
  -- The filter of `items`, with the needle.
  abbrev pub is_found : Text → Role → Bool
  is_found needle role =
      is_empty needle
      || has_text needle (lower role.name)
      || has_text needle (lower role.description)
      || any (has_text needle) role.permissions

  abbrev pub found_roles : Text → List Role → List Role
  found_roles search roles = filter (is_found (lower (trim search))) roles

abbrev pub may_precede : (Text → Text → Bool) → Sort → Role → Role → Bool
may_precede collate by_users a b = leb b.user_count a.user_count
may_precede collate by_permissions a b = leb (length b.permissions) (length a.permissions)
may_precede collate by_newest a b = collate b.created_at a.created_at
may_precede collate by_name a b = collate a.name b.name

-- `items`
unfoldable pub listed : (Text → Text) → (Text → Text → Bool) → Text → Sort → List Role → List Role
unfolding has_text trim
listed lower collate search sort roles =
    sort_by (may_precede collate sort) (found_roles lower search roles)

-- `toggleOpen`
abbrev pub holds : ℕ → List ℕ → Bool
holds id ids = any (λ other. other == id) ids

unfoldable pub toggle_open : Bool → ℕ → List ℕ → List ℕ
toggle_open multi_open id current =
    if not multi_open
    then (if holds id current then [] else id ∷ [])
    else (if holds id current
        then filter (λ value. not (value == id)) current
        else current ++ id ∷ [])

pub data Arrow : Type 0 where
  arrow_left arrow_right arrow_up arrow_down : Arrow

abbrev pub is_forward : Arrow → Bool
is_forward arrow_right = true
is_forward arrow_down = true
is_forward _ = false

-- `keyboardNavigate`: the button that gets the focus, of `n` buttons, from the one at `index`.
abbrev pub next_button : ℕ → Arrow → ℕ → ℕ
next_button n arrow index = if is_forward arrow then (index + 1 + n) % n else (index + n - 1) % n

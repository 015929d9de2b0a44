-- ===== src/Roles.antt =====
-- apps/web-admin-roles/src/RolesPage.tsx: roles and their permissions. The files of this folder hold
-- the matrix, the editor of a role, and the assignment of users.
pub mod Matrix
pub mod Editor
pub mod Assignment
pub mod Listing
pub mod Portable
pub mod Markup
pub mod Sheet
mod Tests
use go_platform_starter.Prelude.{
  ℕ, ◌+◌, ◌-◌, ◌%◌, Bool, true, false, not, ◌&&◌, ◌||◌, Option, none, some, List, [], ◌∷◌, ◌++◌,
  if◌then◌else◌, get_elem?, any, filter, find, map, ◌==◌, Text, Text_key, ℕ_key, codes, is,
  is_empty, trim, has_text, split, includes, toggle, remove,
}

pub record Role : Type 0 where
  pub id : ℕ
  pub name : Text
  pub description : Text
  pub color : Text
  pub icon : Text
  pub archived : Bool
  pub permissions : List Text
  pub created_at : Text
  pub user_count : ℕ
  pub system : Bool

-- What is sent of a role.
pub record RoleBody : Type 0 where
  pub name : Text
  pub description : Text
  pub color : Text
  pub icon : Text
  pub archived : Bool
  pub permissions : List Text

-- `roleBody`
unfoldable pub role_body : Role → List Text → RoleBody
role_body role permissions = record {
  name = role.name;
  description = role.description;
  color = role.color;
  icon = role.icon;
  archived = role.archived;
  permissions = permissions;
}

-- `part || fallback`, for a part of a name that was split.
abbrev part_or : List Text → ℕ → Text → Text
part_or parts i fallback = elim (get_elem? parts i) [
  | none ↦ fallback
  | some part ↦ if is_empty part then fallback else part
]

-- `permissionDescription`
unfoldable pub permission_description : Text → Text
permission_description name =
    let parts = split b':' name in
    part_or parts 1 (codes "use")
    ++ (b' ' ∷ part_or parts 0 (codes "resource"))
    ++ codes " in "
    ++ part_or parts 2 (codes "the allowed scope")

-- `permissionRoute`
unfoldable pub permission_route : Text → Text
permission_route name =
    let resource = part_or (split b':' name) 0 [] in
    if is resource (codes "user")
    then codes "/admin/users"
    else if is resource (codes "audit")
    then codes "/admin/audit"
    else codes "/admin/roles"

-- The filter of `items`, before they are sorted; `lower` is `toLowerCase`.
unfoldable pub matching_roles : (Text → Text) → Text → List Role → List Role
matching_roles lower search =
    let needle = lower (trim search) in
    filter (λ role.
      is_empty needle
      || has_text needle (lower role.name)
      || has_text needle (lower role.description)
      || any (has_text needle) role.permissions)

-- `toggleOpen`; the flag is `multiOpen`.
unfoldable pub toggle_open : Bool → ℕ → List ℕ → List ℕ
toggle_open multi id open_ids =
    if not multi
    then if includes id open_ids then [] else id ∷ []
    else if includes id open_ids
    then remove id open_ids
    else open_ids ++ id ∷ []

-- `keyboardNavigate`: the index of the button that gets the focus, of `count` buttons; the flag is
-- whether the arrow points right or down.
unfoldable pub next_button : Bool → ℕ → ℕ → ℕ
next_button forward index count =
    if forward then (index + 1 + count) % count else (index + count - 1) % count

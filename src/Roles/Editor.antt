-- ===== src/Roles/Editor.antt =====
-- apps/web-admin-roles/src/RolesPage.tsx: the editor of a role, `RoleModal`, and the dialogs that
-- compare roles and simulate access.
pub mod Names
use go_platform_starter.Prelude.{
  ℕ, Bool, true, false, not, ◌&&◌, ◌||◌, Option, none, some, List, [], ◌∷◌, ◌++◌, map, leb, ltb,
  ◌==◌, if◌then◌else◌, length, filter, Text, Text_key, ℕ_key, codes, is, is_empty, includes, unique,
}
use go_platform_starter.Prelude.Regex.{Regex, unit, seq, plus, up_to, test}
use go_platform_starter.Roles.{Role, RoleBody}

abbrev pub is_lower : ℕ → Bool
is_lower c = leb b'a' c && leb c b'z'

abbrev is_digit : ℕ → Bool
is_digit c = leb b'0' c && leb c b'9'

-- `[a-z0-9_-]`
abbrev pub is_name_char : ℕ → Bool
is_name_char c = is_lower c || is_digit c || c == b'_' || c == b'-'

-- `[a-z0-9_]`
abbrev pub is_part_char : ℕ → Bool
is_part_char c = is_lower c || is_digit c || c == b'_'

-- `/^[a-z][a-z0-9_-]{1,59}$/`
abbrev pub role_name_pattern : Regex
role_name_pattern = seq (unit is_lower) (seq (unit is_name_char) (up_to 58 (unit is_name_char)))

-- `/^[a-z0-9_]+:[a-z0-9_]+:[a-z0-9_]+$/`
abbrev pub permission_pattern : Regex
permission_pattern = seq (plus (unit is_part_char)) (
    seq (unit (λ c. c == b':'))
      (seq (plus (unit is_part_char)) (seq (unit (λ c. c == b':')) (plus (unit is_part_char)))))

abbrev pub reserved_names : List Text
reserved_names = codes "admin" ∷ codes "system" ∷ codes "root" ∷ codes "superuser" ∷ []

-- `nameError`, of the flag `editing` and the name.
unfoldable pub name_error : Bool → Text → Text
name_error editing name =
    if is_empty name
    then codes "Name is required."
    else if not (test role_name_pattern name)
    then codes "Use lowercase letters, numbers, dash, or underscore (2–60 chars)."
    else if not editing && includes name reserved_names
    then codes "That name is reserved."
    else []

-- `formatError`
unfoldable pub format_error : Text → Text
format_error permission =
    if not (is_empty permission) && not (test permission_pattern permission)
    then codes "Expected resource:action:scope in lowercase."
    else []

-- `setGroup`, and the selection after a permission has been created.
unfoldable pub set_group : List Text → Bool → List Text → List Text
set_group names checked selected =
    if checked
    then unique (selected ++ names)
    else filter (λ permission. not (includes permission names)) selected

abbrev pub created_permission : Text → List Text → List Text
created_permission permission selected = unique (selected ++ permission ∷ [])

-- How the mutation `save` goes on: it throws, or sends the body.
pub data Save : Type 0 where
  rejected : Text → Save
  cancelled : Save
  sent : RoleBody → Save

-- `save` up to its request: `initial` is the number of permissions that the role began with, and
-- `accepted` the answer to the question whether to reduce its access.
unfoldable pub save : Bool → ℕ → Bool → RoleBody → Save
unfolding name_error
save editing initial accepted body =
    if not (is_empty (name_error editing body.name))
    then rejected (name_error editing body.name)
    else if editing && ltb (length body.permissions) initial && not accepted
    then cancelled
    else sent body

-- `roles.filter(…).flatMap(…)`, of the selected roles.
abbrev pub granted : List ℕ → List Role → List Text
granted selected [] = []
granted selected (r ∷ roles) =
    let rest = granted selected roles in
    if includes r.id selected then r.permissions ++ rest else rest

-- `effective` in `SimulateModal`, before it is sorted.
unfoldable pub effective : List ℕ → List Role → List Text
effective selected roles = unique (granted selected roles)

-- `canAccess`
unfoldable pub can_access : Text → List ℕ → List Role → Bool
unfolding effective
can_access probe selected roles =
    if is_empty probe then false else includes probe (effective selected roles)

-- `permissions` in `CompareModal`, before they are sorted.
unfoldable pub compared : Role → Role → List Text
compared left right = unique (left.permissions ++ right.permissions)

-- ===== src/Roles/Matrix.antt =====
-- apps/web-admin-roles/src/RolesPage.tsx: a click in the matrix, `matrixToggle`, which shows its effect
-- at once and takes it back when the request fails.
pub mod Rollback
use go_platform_starter.Prelude.{
  ℕ, Bool, Option, none, some, List, [], ◌∷◌, map, if◌then◌else◌, ◌==◌, filter, not, ◌++◌, Text,
  Text_key, is, includes, get_or_else,
}
use go_platform_starter.QueryClient.{QueryClient}
use go_platform_starter.Roles.{Role, RoleBody, role_body}

-- The key `["roles"]`.
abbrev pub roles_key : ℕ
roles_key = 0

-- The permissions of a role with one of them toggled.
unfoldable pub toggled : Text → List Text → List Text
toggled permission permissions =
    if includes permission permissions
    then filter (λ item. not (is item permission)) permissions
    else permissions ++ permission ∷ []

-- The request of the mutation: the id of the role, and the body.
unfoldable pub matrix_request : Role → Text → ℕ × RoleBody
unfolding toggled role_body
matrix_request role permission = (role.id, role_body role (toggled permission role.permissions))

-- The updater of `setQueryData`.
unfoldable pub patched : ℕ → Text → List Role → List Role
unfolding toggled
patched id permission = map (λ item.
    if item.id == id
    then record item { permissions = toggled permission item.permissions }
    else item)

module _ (client : QueryClient (List Role)) where
  -- `onMutate`: what was in the cache, and the cache with the role changed.
  unfoldable pub mutate : Role → Text → client.Cache → Option (List Role) × client.Cache
  unfolding patched
  mutate role permission c =
      let current = get_or_else (client.get_data roles_key c) [] in
      (
        client.get_data roles_key c,
        client.set_data roles_key (patched role.id permission current) c,
      )

  -- `onError`: `setQueryData(["roles"], context?.previous)`, which does nothing for `undefined`.
  unfoldable pub roll_back : Option (List Role) → client.Cache → client.Cache
  roll_back none c = c
  roll_back (some previous) c = client.set_data roles_key previous c

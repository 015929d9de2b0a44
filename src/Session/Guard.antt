-- ===== src/Session/Guard.antt =====
-- apps/web/src/RequirePermission.tsx: the guard of a page.
use go_platform_starter.Prelude.{
  Bool, true, false, not, ◌&&◌, ◌||◌, Option, none, some, List, [], ◌∷◌, String, if◌then◌else◌, any,
  find, includes, is, String_key,
}
use go_platform_starter.Session.{SessionUser, AuthSession}

-- What the guard renders: nothing, a redirect to the login, a redirect to "/admin/403" with what was
-- requested, or the page.
pub data Access : Type 0 where
  blank to_login shown : Access
  forbidden : Option String → List String → Access

abbrev pub is_some {ℓ} : {A : Type ℓ} → Option A → Bool
is_some none = false
is_some (some _) = true

-- `if (text)`: it is there, and not empty.
abbrev pub truthy : Option String → Bool
truthy none = false
truthy (some text) = not (is text "")

-- `user.roles?.includes(role)`
abbrev pub has_role : Option (List String) → String → Bool
has_role none role = false
has_role (some roles) role = includes role roles

abbrev is_nonempty : List String → Bool
is_nonempty [] = false
is_nonempty (_ ∷ _) = true

-- `when` is `λ _. true` where the property is not given.
abbrev guard_user : List String → List String → (SessionUser → Bool) → Option SessionUser → Access
guard_user permissions roles when none = to_login
guard_user permissions roles when (some user) =
    let denied = find (λ permission. not (includes permission user.perms)) permissions in
    let role_denied = is_nonempty roles && not (any (has_role user.roles) roles) in
    if truthy denied || role_denied || not (when user) then forbidden denied roles else shown

unfoldable pub access_guard :
    List String → List String → (SessionUser → Bool) → AuthSession → Access
access_guard permissions roles when session =
    if session.booting then blank else guard_user permissions roles when session.user

-- `RequirePermission`
abbrev pub require_permission : String → AuthSession → Access
require_permission perm session = access_guard (perm ∷ []) [] (λ _. true) session

-- ===== src/Session/Gate.antt =====
-- apps/web/src/App.tsx: the gate between the login pages and the console, the routes behind it, and
-- where a login leads. How react-router matches a path is the parameter `at`.
pub mod Routing
use go_platform_starter.Prelude.{
  ℕ, Bool, true, false, not, ◌&&◌, ◌||◌, Option, none, some, List, [], ◌∷◌, ◌++◌, String, ◌⊎◌, inl,
  inr, if◌then◌else◌, get_or_else, Text, codes, Text_key, includes, starts_with, decimal,
}
use go_platform_starter.Session.{SessionUser, AuthSession}
use go_platform_starter.Session.Guard.{Access, require_permission, is_some}

pub data AdminPage : Type 0 where
  users roles forbidden settings product not_found : AdminPage

pub data AuthPage : Type 0 where
  sign_in register forgot reset : AuthPage
  magic_login verify_email restore_account not_found : AuthPage

-- A page of the console, with what its guard made of it.
pub data Guarded : Type 0 where
  free : AdminPage → Guarded
  checked : AdminPage → Access → Guarded

-- What the gate renders; the flag of the console says that the login is shown over it.
pub data Screen : Type 0 where
  restoring redirect_login : Screen
  auth : AuthPage → Screen
  console : Guarded → Bool → Screen

abbrev auth_paths : List Text
auth_paths =
    codes "/login"
    ∷ codes "/register"
    ∷ codes "/forgot"
    ∷ codes "/reset"
    ∷ codes "/magic-login"
    ∷ codes "/verify-email"
    ∷ codes "/restore-account"
    ∷ []

-- `isAuthPath`
unfoldable pub is_auth_path : Text → Bool
is_auth_path pathname = includes pathname auth_paths

module _ (at : Text → Text → Bool) where
  -- `AdminRoutes`
  unfoldable pub admin_routes : AuthSession → Text → Guarded
  admin_routes session path =
      if at (codes "/admin/users") path
      then checked users (require_permission "user:read:any" session)
      else if at (codes "/admin/roles") path
      then checked roles (require_permission "role:read:any" session)
      else if at (codes "/admin/403") path
      then free forbidden
      else if at (codes "/admin/settings") path
      then free settings
      else if at (codes "/admin/product") path
      then checked product (require_permission "user:read:any" session)
      else free not_found

  -- `AuthRoutes`
  unfoldable pub auth_routes : Text → AuthPage
  auth_routes path =
      if at (codes "/login") path
      then sign_in
      else if at (codes "/register") path
      then register
      else if at (codes "/forgot") path
      then forgot
      else if at (codes "/reset") path
      then reset
      else if at (codes "/magic-login") path
      then magic_login
      else if at (codes "/verify-email") path
      then verify_email
      else if at (codes "/restore-account") path
      then restore_account
      else not_found

  -- `Gate`
  unfoldable pub gate : AuthSession → Text → Screen
  unfolding admin_routes auth_routes is_auth_path
  gate session path =
      if session.booting && not (is_some session.user)
      then restoring
      else if not (is_some session.user) && not (is_auth_path path)
      then redirect_login
      else if not (is_some session.user)
      then auth (auth_routes path)
      else console (admin_routes session path) session.session_expired

-- The layout effect of `Gate`, on the entry "auth:return-to" of the session storage.
unfoldable pub remember_path : AuthSession → Text → Text → Option Text → Option Text
unfolding is_auth_path
remember_path session pathname search stored =
    if not session.booting && (not (is_some session.user) && not (is_auth_path pathname))
    then some (pathname ++ search)
    else stored

-- `intent?.startsWith("/admin/") ? intent : "/admin/users"`
abbrev destination_of : Option Text → Text
destination_of none = codes "/admin/users"
destination_of (some intent) =
    if starts_with (codes "/admin/") intent then intent else codes "/admin/users"

-- `handleLoggedIn`: what is left of the entry, and where it navigates.
unfoldable pub handle_logged_in : Option Text → Option Text × Text
handle_logged_in intent = (none, destination_of intent)

-- The result of a login, where `user.id` is a number or a string.
pub record LoginResult : Type 0 where
  pub access_token : Text
  pub id : ℕ ⊎ Text
  pub email : Text
  pub perms : Option (List String)
  pub ver : Option ℕ

abbrev id_text : ℕ ⊎ Text → Text
id_text (inl n) = decimal n
id_text (inr s) = s

-- The user with which `handleLoggedIn` and `handleReauthenticated` call `login`.
unfoldable pub logged_in_user : LoginResult → SessionUser
logged_in_user r = record {
  id = id_text r.id;
  email = r.email;
  perms = get_or_else r.perms [];
  roles = none;
  ver = get_or_else r.ver 0;
}

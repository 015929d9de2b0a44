-- ===== src/Session/Gate/Routing.antt =====
-- Who sees which page, and where a login leads.
use go_platform_starter.Prelude.{
  Bool, true, false, Option, none, some, [], ◌∷◌, ◌++◌, String, ◌≡◌, inl, inr, refl, arith, Text,
  codes, Text_key, String_key, includes, starts_with, Option-cases,
}
use go_platform_starter.Session.{SessionUser, AuthSession}
use go_platform_starter.Session.Guard.{shown, access_guard}
use go_platform_starter.Session.Gate.{
  AdminPage, users, roles, product, free, checked, Screen, console, gate, remember_path,
  handle_logged_in,
}

-- The permission that a page of the console needs.
abbrev pub needs : AdminPage → Option String
needs users = some "user:read:any"
needs roles = some "role:read:any"
needs product = some "user:read:any"
needs _ = none

-- The user has the permission, where one is needed.
abbrev pub meets : Option String → SessionUser → Bool
meets none u = true
meets (some perm) u = includes perm u.perms

-- The page that stands on the screen with its contents.
abbrev pub visible_page : Screen → Option AdminPage
visible_page (console (free p) over) = some p
visible_page (console (checked p shown) over) = some p
visible_page _ = none

-- Whatever the path, a page of the console is visible only to a signed-in user, and one that needs a
-- permission only to a user who has it.
pub gate-needs_permission :
    (at : Text → Text → Bool) (session : AuthSession) (path : Text) (p : AdminPage)
    → visible_page (gate at session path) ≡ some p
    → (u : SessionUser) × (session.user ≡ some u) × (meets (needs p) u ≡ true)
unfolding gate access_guard
gate-needs_permission at session path p h = elim (Option-cases session.user) [
  | inl nobody ↦ absurd (ground arith)
  | inr (u, e) ↦ (u, e, ground arith)
]

starts_with-append : (p s : Text) → starts_with p (p ++ s) ≡ true
unfolding starts_with
starts_with-append [] s = refl
starts_with-append (c ∷ p) s = ground (arith, starts_with-append p s)

-- A login leads into the console, whatever the session storage holds, and uses up what it holds.
handle_logged_in-inside :
    (intent : Option Text)
    → ((handle_logged_in intent).0 ≡ none)
      × (starts_with (codes "/admin/") (handle_logged_in intent).1 ≡ true)
unfolding handle_logged_in starts_with
handle_logged_in-inside none = (refl, refl)
handle_logged_in-inside (some intent) = (refl, ground arith)

-- Someone who opens a page of the console with no session is taken back to it, with its query, by the
-- login that follows.
handle_logged_in-remember_path :
    (session : AuthSession) (rest search : Text) (stored : Option Text)
    → session.booting ≡ false
    → session.user ≡ none
    → let path = codes "/admin/" ++ rest in
      (handle_logged_in (remember_path session path search stored)).1 ≡ path ++ search
unfolding handle_logged_in remember_path starts_with
handle_logged_in-remember_path session rest search stored h nobody = ground arith

-- ===== src/Session/Impersonation/Restoring.antt =====
-- What an impersonation leaves when it ends, and when it does not come about.
use go_platform_starter.Prelude.{
  ℕ, true, false, Option, none, some, [], ◌≡◌, refl, ap, get_or_else, Text, is_empty,
}
use go_platform_starter.Contracts.Claims.{TokenClaims, decode_claims}
use go_platform_starter.Session.{SessionUser, auth_reducer}
use go_platform_starter.Session.Provider.{handle}
use go_platform_starter.Session.Impersonation.{
  Browser, Grant, nothing_kept, impersonate, exit, restored_user, has_subject, banner,
}

-- Whom a session belongs to when it is signed in again, and with which token, after a refresh or without one.
pub data Renews (parse : Text → Option TokenClaims) (user : SessionUser) (token : Text)
    : Option Text → SessionUser → Text → Type 0 where
  -- no new token: the old session
  as_before : Renews parse user token none user token
  -- a new token that names nobody: the old user, with the new token
  unnamed :
      (new : Text)
      → is_empty new ≡ false
      → has_subject (decode_claims parse new) ≡ false
      → Renews parse user token (some new) user new
  -- a new token with claims: what it says of the subject, the permissions and the version, with the
  -- address of the claims or else the old one, and no permission where it has none
  of_claims :
      (new subject : Text) (claims : TokenClaims) (renewed : SessionUser)
      → is_empty new ≡ false
      → decode_claims parse new ≡ some claims
      → claims.sub ≡ some subject
      → is_empty subject ≡ false
      → renewed.id ≡ subject
      → renewed.email ≡ get_or_else claims.email user.email
      → renewed.perms ≡ get_or_else claims.perms []
      → renewed.roles ≡ user.roles
      → renewed.ver ≡ get_or_else claims.ver 0
      → Renews parse user token (some new) renewed new

restored_user-Renews :
    (parse : Text → Option TokenClaims) (user renewed : SessionUser) (token new : Text)
    (refreshed : Option Text)
    → Renews parse user token refreshed renewed new
    → (restored_user parse refreshed user ≡ renewed) × (get_or_else refreshed token ≡ new)
restored_user-Renews parse user renewed token new refreshed as_before = (refl, refl)
restored_user-Renews parse user renewed token new refreshed (unnamed t solid read) =
    (rw (solid, read) refl, refl)
restored_user-Renews parse user renewed token new refreshed
      (of_claims t subject claims r solid read known sub i e p o v) =
    (rw (solid, read, known, sub) (rw (← i, ← e, ← p, ← o, ← v) refl), refl)

module _ (parse : Text → Option TokenClaims) (print_user : SessionUser → Text)
    (parse_user : Text → Option SessionUser) where
  -- Let a user be signed in with a token, and let an impersonation start: then leaving it signs the same user
  -- in again with the old token, where the refresh fails, and else with the new token and as its claims say:
  -- their subject, address, permissions and version. Nothing of the impersonation stays in the storage, and no
  -- other tab hears of it.
  pub exit-impersonate :
      (start end : ℕ) (id token : Text) (user : SessionUser) (g : Grant) (refreshed : Option Text)
      (renewed : SessionUser) (new : Text) (b : Browser)
      → b.tab.session.user ≡ some user
      → b.tab.token ≡ some token
      → is_empty token ≡ false
      → is_empty (print_user user) ≡ false
      → parse_user (print_user user) ≡ some user
      → has_subject (decode_claims parse g.access_token) ≡ true
      → Renews parse user token refreshed renewed new
      → let left =
          exit parse print_user parse_user end refreshed
            (impersonate parse print_user parse_user start id (some g) b) in
        (left.tab.session.user ≡ some renewed)
        × (left.tab.token ≡ some new)
        × (left.kept ≡ nothing_kept)
        × (left.tab.posted ≡ b.tab.posted)
  unfolding exit impersonate handle auth_reducer
  exit-impersonate start end id token user g refreshed renewed new b signed held solid printed
        parsed subject renews =
      let (whom, which) = restored_user-Renews parse user renewed token new refreshed renews in
      rw (subject, signed, held, solid, printed, parsed, solid)
        (ap some whom, ap some which, refl, refl)

  -- An impersonation that the server grants with a token that names no subject changes no session; the
  -- banner shows its actor all the same.
  impersonate-error :
      (now : ℕ) (id : Text) (g : Grant) (b : Browser)
      → is_empty g.actor ≡ false
      → has_subject (decode_claims parse g.access_token) ≡ false
      → ((impersonate parse print_user parse_user now id (some g) b).tab ≡ b.tab)
        × (banner (impersonate parse print_user parse_user now id (some g) b) ≡ some g.actor)
  unfolding impersonate
  impersonate-error now id g b named subject = rw (subject, named) (refl, refl)

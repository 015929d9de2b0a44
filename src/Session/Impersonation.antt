-- ===== src/Session/Impersonation.antt =====
-- Impersonation for support: `impersonate` of apps/web/src/ProductPage.tsx, which starts it, and the banner of
-- apps/web/src/shell/Banners.tsx, which ends it. What it keeps in the session storage is a record.
pub mod Restoring
use go_platform_starter.Prelude.{
  ℕ, Bool, true, false, not, ◌||◌, Option, none, some, List, [], ◌∷◌, ◌≡◌, refl, arith,
  if◌then◌else◌, get_or_else, Text, codes,
}
use go_platform_starter.Contracts.Claims.{TokenClaims, decode_claims}
use go_platform_starter.Contracts.Client.{truthy}
use go_platform_starter.Session.{SessionUser, AuthSession, auth_reducer}
use go_platform_starter.Session.Provider.{Message, Tab, log_in, handle}

-- "auth:impersonator", "auth:original-token" and "auth:original-user"
pub record Kept : Type 0 where
  pub impersonator : Option Text
  pub original_token : Option Text
  pub original_user : Option Text

pub record Browser : Type 0 where
  pub tab : Tab
  pub kept : Kept
  -- where `navigate` has led, if it was called
  pub path : Option Text

-- The reply to POST /auth/impersonate/<id>.
pub record Grant : Type 0 where
  pub access_token : Text
  pub email : Text
  pub actor : Text

-- `claims?.sub`, as a condition
abbrev pub has_subject : Option TokenClaims → Bool
has_subject none = false
has_subject (some c) = truthy c.sub

abbrev pub claims_of : Option TokenClaims → TokenClaims
claims_of claims =
    get_or_else claims (record { sub = none; email = none; perms = none; ver = none })

-- `restored`
abbrev pub restored_user : (Text → Option TokenClaims) → Option Text → SessionUser → SessionUser
restored_user parse refreshed user =
    let claims =
      if truthy refreshed then decode_claims parse (get_or_else refreshed []) else none in
    if has_subject claims
    then record user {
      id = get_or_else (claims_of claims).sub [];
      email = get_or_else (claims_of claims).email user.email;
      perms = get_or_else (claims_of claims).perms [];
      ver = get_or_else (claims_of claims).ver 0;
    }
    else user

abbrev pub nothing_kept : Kept
nothing_kept = record { impersonator = none; original_token = none; original_user = none }

-- `print_user` is `JSON.stringify`; `parse_user` is `JSON.parse`, `none` where it throws.
module _ (parse : Text → Option TokenClaims) (print_user : SessionUser → Text)
    (parse_user : Text → Option SessionUser) (now : ℕ) where
  abbrev keep_user : Option SessionUser → Option Text → Option Text
  keep_user none stored = stored
  keep_user (some user) stored = some (print_user user)

  -- The lines that write to the storage.
  abbrev keep : Grant → Browser → Browser
  keep g b = record b {
    kept = record {
      impersonator = some g.actor;
      original_token = if truthy b.tab.token then b.tab.token else b.kept.original_token;
      original_user = keep_user b.tab.session.user b.kept.original_user;
    };
  }

  abbrev start_session : Text → Grant → Browser → Browser
  start_session id g b =
      let claims = decode_claims parse g.access_token in
      if has_subject claims
      then record b {
        tab =
            handle parse now
              (log_in false g.access_token (record {
                id = id;
                email = g.email;
                perms = get_or_else (claims_of claims).perms [];
                roles = none;
                ver = get_or_else (claims_of claims).ver 0;
              }))
              b.tab;
        path = some (codes "/admin/settings");
      }
      else b

  -- `impersonate`, where `none` is a request that failed
  unfoldable pub impersonate : Text → Option Grant → Browser → Browser
  unfolding handle
  impersonate id none b = b
  impersonate id (some g) b = start_session id g (keep g b)

  abbrev leave : Option SessionUser → Text → Option Text → Browser → Browser
  leave none token refreshed b = record b { kept = record b.kept { impersonator = none } }
  leave (some user) token refreshed b = record {
    tab =
        handle parse now
          (log_in false (get_or_else refreshed token) (restored_user parse refreshed user)) b.tab;
    kept = nothing_kept;
    path = some (codes "/admin/product");
  }

  -- `exit`, where `refreshed` is what the silent refresh gives, `none` where it fails
  unfoldable pub exit : Option Text → Browser → Browser
  unfolding handle
  exit refreshed b =
      if not (truthy b.kept.original_token) || not (truthy b.kept.original_user)
      then b
      else leave (parse_user (get_or_else b.kept.original_user []))
          (get_or_else b.kept.original_token []) refreshed b

-- The user whom the banner names, if it shows.
abbrev pub banner : Browser → Option Text
banner b = if truthy b.kept.impersonator then b.kept.impersonator else none

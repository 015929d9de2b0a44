-- ===== src/Session/Provider.antt =====
-- apps/web/src/auth-context.tsx: what `AuthProvider` does at each event, in one tab.
use go_platform_starter.Prelude.{
  ℕ, suc, Bool, not, ◌&&◌, ◌||◌, Option, none, some, List, [], ◌∷◌, ◌++◌, if◌then◌else◌,
  get_or_else, Text,
}
use go_platform_starter.Contracts.Claims.{TokenClaims, decode_claims}
use go_platform_starter.Contracts.Client.{truthy}
use go_platform_starter.Session.{
  SessionUser, AuthSession, restored, login, heartbeat, expired, logout, auth_reducer,
  initial_session,
}

-- A message on the channel "starter:session".
pub data Message : Type 0 where
  login_message : Text → SessionUser → Message
  logout_message : Message

-- The session, the access token on `globalThis`, how often the query cache was cleared, and the
-- messages that were posted.
pub record Tab : Type 0 where
  pub session : AuthSession
  pub token : Option Text
  pub cache_clears : ℕ
  pub posted : List Message

abbrev pub initial_tab : Option SessionUser → Tab
initial_tab user = record {
  session = initial_session user;
  token = none;
  cache_clears = 0;
  posted = [];
}

pub data Event : Type 0 where
  -- the API module sets the token, after a refresh here or in another tab
  token_set : Text → Event
  -- a message of another tab
  message : Message → Event
  -- the refresh at boot has settled; the flag is `cancelled`
  boot : Bool → Option Text → Event
  -- "starter:session-expired"
  session_expired : Event
  -- the refresh that `onVisible` started has settled
  visible : Option Text → Event
  -- `login`; the flag is `options?.broadcast !== false`
  log_in : Bool → Text → SessionUser → Event
  -- `logout`, after its request
  log_out : Event

abbrev dispatch_restored : Option SessionUser → Option ℕ → Tab → Tab
dispatch_restored user at tab = record tab { session = auth_reducer tab.session (restored user at) }

-- `onExpired`
abbrev on_expired : Tab → Tab
on_expired tab = record tab { session = auth_reducer tab.session expired; token = none }

-- The user that the claims of a restored session describe.
abbrev pub claimed_user : Text → TokenClaims → SessionUser
claimed_user sub claims = record {
  id = sub;
  email = get_or_else claims.email [];
  perms = get_or_else claims.perms [];
  roles = none;
  ver = get_or_else claims.ver 0;
}

-- `claims?.sub`
abbrev claimed_sub : Option TokenClaims → Option Text
claimed_sub none = none
claimed_sub (some c) = c.sub

abbrev restore_claims : ℕ → Option TokenClaims → Tab → Tab
restore_claims now none tab = dispatch_restored none none (record tab { token = none })
restore_claims now (some c) tab =
    if truthy c.sub
    then dispatch_restored (some (claimed_user (get_or_else c.sub []) c)) (some now) tab
    else dispatch_restored none none (record tab { token = none })

-- `parse` is the payload parser of `decode_claims`; `now` is `Date.now()`.
module _ (parse : Text → Option TokenClaims) (now : ℕ) where
  -- The `then` of the boot refresh.
  abbrev boot_then : Bool → Option Text → Tab → Tab
  boot_then cancelled token tab =
      if cancelled || not (truthy token)
      then tab
      else restore_claims now (decode_claims parse (get_or_else token [])) tab

  -- The `finally` of the boot refresh.
  abbrev boot_finally : Bool → Tab → Tab
  boot_finally cancelled tab =
      if not cancelled && not (truthy tab.token) then dispatch_restored none none tab else tab

  abbrev receive_message : Message → Tab → Tab
  receive_message (login_message token user) tab = record tab {
    session = auth_reducer tab.session (login user now);
    token = some token;
  }
  receive_message logout_message tab = record tab {
    session = auth_reducer tab.session logout;
    token = none;
    cache_clears = suc tab.cache_clears;
  }

  unfoldable pub handle : Event → Tab → Tab
  unfolding auth_reducer
  handle (token_set token) tab = record tab { token = some token }
  handle (message m) tab = receive_message m tab
  handle (boot cancelled token) tab = boot_finally cancelled (boot_then cancelled token tab)
  handle session_expired tab = on_expired tab
  handle (visible token) tab =
      if truthy token
      then record tab { session = auth_reducer tab.session (heartbeat now) }
      else on_expired tab
  handle (log_in broadcast token user) tab = record tab {
    session = auth_reducer tab.session (login user now);
    token = some token;
    posted = if broadcast then tab.posted ++ login_message token user ∷ [] else tab.posted;
  }
  handle log_out tab = record tab {
    session = auth_reducer tab.session logout;
    token = none;
    cache_clears = suc tab.cache_clears;
    posted = tab.posted ++ logout_message ∷ [];
  }

-- Events with the times at which they come.
unfoldable pub run : (Text → Option TokenClaims) → List (ℕ × Event) → Tab → Tab
unfolding handle
run parse [] tab = tab
run parse ((now, e) ∷ events) tab = run parse events (handle parse now e tab)

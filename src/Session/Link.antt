-- ===== src/Session/Link.antt =====
-- apps/web/src/App.tsx: TokenActionPage, which consumes the token of a link that was sent by mail. The effect runs
-- again whenever the page is rendered with another callback.
pub mod Once
use go_platform_starter.Prelude.{
  ℕ, Bool, true, false, Option, none, some, List, [], ◌∷◌, ◌++◌, if◌then◌else◌, get_or_else, Text,
  codes,
}
use go_platform_starter.Session.Gate.{LoginResult}

pub data Kind : Type 0 where
  magic email restore : Kind

-- What comes of the request: its data, or the message of the error where it is an Error.
pub data Answer : Type 0 where
  consumed : LoginResult → Answer
  refused : Option Text → Answer

pub record Link : Type 0 where
  -- `started.current`
  pub started : Bool
  -- the requests: paths and tokens
  pub sent : List (Text × Text)
  -- the kinds of the requests that are under way
  pub pending : List Kind
  pub message : Text
  -- with what `onLoggedIn` has been called
  pub logged_in : List LoginResult
  -- "auth:notice" of the session storage
  pub notice : Option Text
  -- where `navigate` has led
  pub path : Option Text

abbrev pub mounted : Option Text → Link
mounted notice = record {
  started = false;
  sent = [];
  pending = [];
  message = codes "Validating secure link…";
  logged_in = [];
  notice = notice;
  path = none;
}

abbrev pub path_of : Kind → Text
path_of magic = codes "/auth/magic-link/consume"
path_of email = codes "/users/email-change/verify"
path_of restore = codes "/users/deletion/restore"

-- The effect, with the parameter `token` of the address.
unfoldable pub effect : Kind → Option Text → Link → Link
effect kind token p = if p.started then p else record p {
  started = true;
  sent = p.sent ++ (path_of kind, get_or_else token []) ∷ [];
  pending = p.pending ++ kind ∷ [];
}

-- `then` and `catch`
abbrev pub settle : Kind → Answer → Link → Link
settle magic (consumed login) p = record p { logged_in = p.logged_in ++ login ∷ [] }
settle email (consumed login) p = record p {
  notice = some (codes "Email address verified.");
  path = some (codes "/login");
}
settle restore (consumed login) p = record p {
  notice = some (codes "Account restored. You can sign in again.");
  path = some (codes "/login");
}
settle kind (refused e) p = record p {
  message = get_or_else e (codes "This secure link is invalid or expired.");
}

pub data LinkEvent : Type 0 where
  effect_ran : Kind → Option Text → LinkEvent
  answered : Answer → LinkEvent

-- An answer is that of the request that has been under way for longest.
abbrev pub settle_next : Answer → List Kind → Link → Link
settle_next answer [] p = p
settle_next answer (kind ∷ kinds) p = settle kind answer (record p { pending = kinds })

unfoldable pub handle : LinkEvent → Link → Link
unfolding effect
handle (effect_ran kind token) p = effect kind token p
handle (answered answer) p = settle_next answer p.pending p

unfoldable pub run : List LinkEvent → Link → Link
unfolding handle
run [] p = p
run (e ∷ events) p = run events (handle e p)

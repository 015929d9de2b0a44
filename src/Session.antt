-- ===== src/Session.antt =====
-- apps/web/src/auth-context.tsx: the session of the host, by its reducer and by the events of the
-- provider. Router, React and the browser's storage are outside; the other files of this folder hold
-- the guard of the pages, the gate, and the proofs.
pub mod Provider
pub mod Guard
pub mod Gate
pub mod Link
pub mod Invariant
pub mod Access
pub mod Boot
pub mod Tabs
pub mod Impersonation
mod Tests
use go_platform_starter.Prelude.{ℕ, Bool, true, false, Option, none, some, List, String, Text}

pub record SessionUser : Type 0 where
  pub id : Text
  pub email : Text
  pub perms : List String
  pub roles : Option (List String)
  pub ver : ℕ

pub record AuthSession : Type 0 where
  pub user : Option SessionUser
  pub booting : Bool
  pub session_expired : Bool
  pub last_heartbeat_at : Option ℕ

pub data AuthAction : Type 0 where
  restored : Option SessionUser → Option ℕ → AuthAction
  login : SessionUser → ℕ → AuthAction
  heartbeat : ℕ → AuthAction
  expired logout : AuthAction

unfoldable pub auth_reducer : AuthSession → AuthAction → AuthSession
auth_reducer state (restored user at) = record state {
  user = user;
  booting = false;
  last_heartbeat_at = at;
}
auth_reducer state (login user at) = record {
  user = some user;
  booting = false;
  session_expired = false;
  last_heartbeat_at = some at;
}
auth_reducer state (heartbeat at) = record state {
  session_expired = false;
  last_heartbeat_at = some at;
}
auth_reducer state expired = record state { booting = false; session_expired = true }
auth_reducer state logout = record {
  user = none;
  booting = false;
  session_expired = false;
  last_heartbeat_at = none;
}

-- `useReducer`'s initial state; `initialUser` is a test seed, and `none` in production.
unfoldable pub initial_session : Option SessionUser → AuthSession
initial_session initial_user = record {
  user = initial_user;
  booting = elim initial_user [ none ↦ true | some _ ↦ false ];
  session_expired = false;
  last_heartbeat_at = none;
}

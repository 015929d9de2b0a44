-- ===== src/Users/Realtime.antt =====
-- apps/web-admin-users/src/UsersPage.tsx: the live updates of the directory, `useRealtimeUsers`. The
-- socket, the timers and `JSON.parse` are outside: a frame is given as it parses, and the random part
-- of the delay is left out of `retry_in`, and so is the joining of the room at an opened connection.
pub mod Updates
use go_platform_starter.Prelude.{
  ℕ, suc, ◌+◌, ◌*◌, ◌^◌, min, Bool, true, false, not, ◌&&◌, ◌||◌, Option, none, some, List, [], ◌∷◌,
  ◌==◌, if◌then◌else◌, get_or_else, Text, codes, text_same, is_empty, ◌++◌,
}

-- The payload of a room's message, as far as it is read.
pub record Payload : Type 0 where
  pub type : Option Text
  pub resource : Option Text
  pub origin : Option Text
  pub action : Option Text

-- A frame: its `type`, its `text`, and what the text parses to.
pub record Frame : Type 0 where
  pub type : Option Text
  pub text : Option Text
  pub payload : Option Payload

-- One use of the hook, over its life.
pub record Live : Type 0 where
  pub connected : Bool
  pub disposed : Bool
  pub attempts : ℕ
  -- the delay of the timer that is set, in milliseconds
  pub retry_in : Option ℕ
  pub invalidations : ℕ
  pub activity : List Text

abbrev says : Option Text → Text → Bool
says none t = false
says (some s) t = text_same s t

-- `Math.min(30_000, 1_000 * 2 ** Math.min(attempts, 5))`
unfoldable pub backoff : ℕ → ℕ
backoff attempts = min 30000 (1000 * 2 ^ min attempts 5)

unfoldable pub on_open : Live → Live
on_open l = record l { attempts = 0; connected = true }

unfoldable pub on_close : Live → Live
unfolding backoff
on_close l = if l.disposed then record l { connected = false } else record l {
  connected = false;
  retry_in = some (backoff l.attempts);
  attempts = suc l.attempts;
}

-- The cleanup of the effect, which clears the timer and closes the socket.
unfoldable pub dispose : Live → Live
dispose l = record l { disposed = true; retry_in = none }

abbrev invalidated : Payload → Live → Live
invalidated p l = record l {
  invalidations = suc l.invalidations;
  activity = (codes "Live update: " ++ get_or_else p.action (codes "users changed")) ∷ l.activity;
}

abbrev has_text_field : Frame → Bool
has_text_field f = not (is_empty (get_or_else f.text []))

abbrev read_payload : Text → Option Payload → Live → Live
read_payload client none l = l
read_payload client (some p) l =
    if says p.type (codes "invalidate")
      && says p.resource (codes "users")
      && not (says p.origin client)
    then invalidated p l
    else l

-- The listener of "message"; a frame that does not parse is `none`.
unfoldable pub on_message : Text → Option Frame → Live → Live
on_message client none l = l
on_message client (some f) l =
    if not (says f.type (codes "message")) || not (has_text_field f)
    then l
    else read_payload client f.payload l

-- `broadcast`: what is sent, where the hook is enabled and its socket is open.
unfoldable pub broadcast : Text → Bool → Text → Option Payload
broadcast client is_open action =
    if is_open
    then some (record {
      type = some (codes "invalidate");
      resource = some (codes "users");
      action = some action;
      origin = some client;
    })
    else none

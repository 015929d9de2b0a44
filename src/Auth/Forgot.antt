-- ===== src/Auth/Forgot.antt =====
-- apps/web-auth/src/ForgotPage.tsx: asking for a reset link.
pub mod Cooldown
use go_platform_starter.Prelude.{
  ℕ, ◌-◌, Bool, true, false, not, ◌&&◌, Option, none, some, List, [], ◌∷◌, leb, ltb, if◌then◌else◌,
  Text, codes, is_empty,
}
use go_platform_starter.Auth.Api.{AuthApiError, Result, done, threw}
use go_platform_starter.Auth.Login.{status_is}
use go_platform_starter.Auth.Validation.{normalize_email}

abbrev pub resend_seconds : ℕ
resend_seconds = 30

pub record ForgotState : Type 0 where
  pub email : Text
  pub sent : Bool
  pub busy : Bool
  pub error : Text
  pub touched : Bool
  pub cooldown : ℕ

-- `email_ok` is the check of the schema's address.
module _ (lower : Text → Text) (email_ok : Text → Bool) where
  -- `send` up to its request, which is for this address.
  unfoldable pub send : ForgotState → ForgotState × Text
  send st = (record st { busy = true; error = [] }, normalize_email lower st.email)

  -- `submit` up to the request of `send`.
  unfoldable pub submit : ForgotState → ForgotState × Option Text
  unfolding send
  submit st =
      let seen = record st { touched = true; email = normalize_email lower st.email } in
      if not (email_ok (normalize_email lower st.email))
      then (seen, none)
      else let (st', address) = send seen in (st', some (normalize_email lower st.email))

-- `send` after its request.
unfoldable pub settle : Result (Unit {0}) → ForgotState → ForgotState
settle (done _) st = record st { sent = true; cooldown = resend_seconds; busy = false }
settle (threw e) st = record st {
  error = if is_empty e.message then codes "Could not send the reset link" else e.message;
  cooldown = if status_is e.status 429 && ltb 0 e.retry_after then e.retry_after else st.cooldown;
  busy = false;
}

-- One second of the cooldown.
unfoldable pub tick : ForgotState → ForgotState
tick st = if leb st.cooldown 0 then st else record st { cooldown = st.cooldown - 1 }

-- The button that sends the link again: `disabled={busy || cooldown > 0}`, turned round.
unfoldable pub can_resend : ForgotState → Bool
can_resend st = not st.busy && leb st.cooldown 0

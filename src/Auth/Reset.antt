-- ===== src/Auth/Reset.antt =====
-- apps/web-auth/src/ResetPage.tsx: the form for a new password. Checks of zod are parameters.
pub mod Sending
use go_platform_starter.Prelude.{
  ℕ, ◌-◌, Bool, true, false, not, ◌&&◌, ◌||◌, Option, none, some, List, [], ◌∷◌, ◌==◌,
  if◌then◌else◌, Text, codes, text_same, is_empty, mentions,
}
use go_platform_starter.Auth.Api.{AuthApiError, Result, done, threw}
use go_platform_starter.Auth.Login.{status_is}
use go_platform_starter.Auth.Validation.{valid_password}

pub data TokenState : Type 0 where
  checking valid invalid : TokenState

pub record ResetState : Type 0 where
  pub token : Text
  pub token_state : TokenState
  pub new_password : Text
  pub confirm : Text
  pub error : Text
  pub busy : Bool
  pub touched : Bool
  pub finished : Bool
  pub redirect_in : ℕ

-- The call of `reset`.
pub record ResetCall : Type 0 where
  pub token : Text
  pub new_password : Text

-- `Boolean(confirm) && confirm === password`
abbrev pub confirmed : Text → Text → Bool
confirmed confirm password = not (is_empty confirm) && text_same confirm password

-- `schema_ok` is `resetPasswordSchema.safeParse({ token, newPassword })`, `password_ok` the check of
-- the schema's password alone, `token_ok` that of `validateResetTokenSchema`.
module _ (schema_ok : Text → Text → Bool) (password_ok token_ok : Text → Bool)
    (has_symbol : Text → Bool) where
  abbrev strong_enough : Text → Bool
  strong_enough password = password_ok password && valid_password has_symbol password

  -- The effect at the start: the flag says whether the token is sent to be validated.
  unfoldable pub open_link : ResetState → ResetState × Bool
  open_link st =
      if token_ok st.token then (st, true) else (record st { token_state = invalid }, false)

  -- `submit` up to its request.
  unfoldable pub submit : ResetState → ResetState × Option ResetCall
  submit st =
      let seen = record st { touched = true } in
      if not (schema_ok st.token st.new_password)
        || not (strong_enough st.new_password)
        || not (confirmed st.confirm st.new_password)
      then (seen, none)
      else (
        record seen { busy = true; error = [] },
        some (record { token = st.token; new_password = st.new_password }),
      )

-- The reply to the validation of the token, where the page is still there.
unfoldable pub validated : Result (Unit {0}) → ResetState → ResetState
validated (done _) st = record st { token_state = valid }
validated (threw _) st = record st { token_state = invalid }

-- `submit` after its request.
unfoldable pub settle : Result (Unit {0}) → ResetState → ResetState
settle (done _) st = record st { finished = true; busy = false }
settle (threw e) st =
    let message = if is_empty e.message then codes "Reset failed" else e.message in
    record st {
      error = message;
      busy = false;
      token_state =
          if status_is e.status 400
            || (mentions (codes "token") message || mentions (codes "expired") message)
          then invalid
          else st.token_state;
    }

-- One second of the countdown after success.
unfoldable pub tick : ResetState → ResetState
tick st = if st.finished then record st { redirect_in = st.redirect_in - 1 } else st

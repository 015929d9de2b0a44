-- ===== src/Auth/Register.antt =====
-- apps/web-auth/src/RegisterPage.tsx: the registration form. Checks of zod are parameters.
pub mod Sending
use go_platform_starter.Prelude.{
  ℕ, Bool, true, false, not, ◌&&◌, ◌||◌, Option, none, some, List, [], ◌∷◌, ◌++◌, if◌then◌else◌,
  Text, codes, is_empty, String,
}
use go_platform_starter.Auth.Api.{AuthApiError, Result, done, threw}
use go_platform_starter.Auth.Reset.{confirmed}
use go_platform_starter.Auth.Validation.{normalize_email, valid_email, valid_password}

pub record RegisterState : Type 0 where
  pub email : Text
  pub password : Text
  pub confirm : Text
  pub error : Text
  pub busy : Bool
  pub touched : Bool
  pub finished : Bool
  pub registered_email : Text

-- The call of `register`.
pub record RegisterCall : Type 0 where
  pub email : Text
  pub password : Text

-- An entry of the summary of errors: the field, and the message.
pub record FieldError : Type 0 where
  pub field : String
  pub message : Text

abbrev when : Bool → FieldError → List FieldError
when true e = e ∷ []
when false e = []

module _ (lower : Text → Text) (password_ok has_symbol : Text → Bool) where
  abbrev strong_enough : Text → Bool
  strong_enough password = password_ok password && valid_password has_symbol password

  -- `errors`
  unfoldable pub errors : RegisterState → List FieldError
  errors st =
      when (st.touched && not (valid_email lower st.email))
        (record { field = "register-email"; message = codes "Enter a valid email address" })
      ++ (when (st.touched && not (strong_enough st.password))
            (record { field = "register-password"; message = codes "Choose a stronger password" })
          ++ (when (st.touched && not (confirmed st.confirm st.password))
                (record { field = "register-confirm"; message = codes "Passwords must match" })
              ++ when (not (is_empty st.error))
                  (record { field = "register-email"; message = st.error })))

  -- `submit` up to its request.
  unfoldable pub submit : RegisterState → RegisterState × Option RegisterCall
  submit st =
      let seen = record st { touched = true; email = normalize_email lower st.email } in
      if not (password_ok st.password)
        || not (valid_email lower st.email)
        || not (strong_enough st.password)
        || not (confirmed st.confirm st.password)
      then (seen, none)
      else (
        record seen { busy = true; error = [] },
        some (record { email = normalize_email lower st.email; password = st.password }),
      )

-- `submit` after its request for this call.
unfoldable pub settle : {A : Type 0} → RegisterCall → Result A → RegisterState → RegisterState
settle call (done _) st = record st { registered_email = call.email; finished = true; busy = false }
settle call (threw e) st = record st {
  error = if is_empty e.message then codes "Registration failed" else e.message;
  busy = false;
}

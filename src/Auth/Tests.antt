-- ===== src/Auth/Tests.antt =====
-- Examples of the theorems on apps/web-auth/src, at concrete forms and replies.
use go_platform_starter.Prelude.{◌-◌, false, some, [], ◌≡◌, refl, arith, ◌==◌, if◌then◌else◌, codes}
use go_platform_starter.Auth.Api.{AuthApiError}
use go_platform_starter.Auth.Login.{lock_time, LoginState}
use go_platform_starter.Auth.Login.Lock.{refusals, IsWrongPassword, refusals-lock}

abbrev login_form : LoginState
login_form = record {
  email = codes "a@b.co";
  password = codes "secret";
  otp = [];
  mfa_required = false;
  error = [];
  busy = false;
  touched = false;
  attempts = 5;
  lock_seconds = 0;
}

abbrev wrong_password : AuthApiError
wrong_password = record {
  message = codes "Email or password is incorrect.";
  status = some 401;
  retry_after = 0;
}

wrong_password-IsWrongPassword : IsWrongPassword wrong_password
wrong_password-IsWrongPassword = record { unauthorized = refl; no_factor = refl }

refusals-lock_example :
    ((refusals 5 wrong_password login_form).attempts ≡ login_form.attempts - 5)
    × ((refusals 5 wrong_password login_form).lock_seconds
        ≡ (if 5 == login_form.attempts then lock_time else 0))
refusals-lock_example =
    refusals-lock 5 wrong_password login_form wrong_password-IsWrongPassword refl (omega arith)
      (omega arith)

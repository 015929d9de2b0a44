-- ===== src/Auth/Login.antt =====
-- apps/web-auth/src/LoginPage.tsx: the sign-in form as a state machine. Each asynchronous handler is
-- two steps: what it does up to its request, and what it does with the result.
pub mod Lock
pub mod Sending
use go_platform_starter.Prelude.{
  ℕ, ◌+◌, ◌-◌, ◌*◌, ◌/◌, ◌%◌, Bool, true, false, not, ◌&&◌, ◌||◌, Option, none, some, List, [], ◌∷◌,
  ◌++◌, leb, ltb, ◌==◌, if◌then◌else◌, get_or_else, max, length, Text, codes, text_same, is_empty,
  is_space, decimal, String, take, filter,
}
use go_platform_starter.Auth.Validation.{normalize_email, valid_email}
use go_platform_starter.Auth.Api.{AuthApiError, Result, done, threw, LoginPayload}
use go_platform_starter.Contracts.Claims.{TokenClaims, decode_claims}

abbrev pub max_attempts : ℕ
max_attempts = 5

abbrev pub lock_time : ℕ
lock_time = 15 * 60

pub record LoginState : Type 0 where
  pub email : Text
  pub password : Text
  pub otp : Text
  pub mfa_required : Bool
  pub error : Text
  pub busy : Bool
  pub touched : Bool
  pub attempts : ℕ
  pub lock_seconds : ℕ

-- The call of `login`.
pub record LoginCall : Type 0 where
  pub email : Text
  pub password : Text
  pub otp : Option Text

-- What `onLoggedIn` is called with.
pub record SessionPayload : Type 0 where
  pub access_token : Text
  pub id : ℕ
  pub email : Text
  pub perms : List String
  pub ver : ℕ

-- `claimsOf`
unfoldable pub claims_of : (Text → Option TokenClaims) → Text → List String × ℕ
claims_of parse token = elim (decode_claims parse token) [
  | none ↦ ([], 0)
  | some c ↦ (get_or_else c.perms [], get_or_else c.ver 0)
]

-- The `onChange` of the one-time code: no spaces, 64 characters at most.
unfoldable pub change_otp : Text → LoginState → LoginState
change_otp value st = record st { otp = take 64 (filter (λ c. not (is_space c)) value) }

-- One second of the lock.
unfoldable pub tick : LoginState → LoginState
tick st = if leb st.lock_seconds 0 then st else record st { lock_seconds = st.lock_seconds - 1 }

-- `formatCountdown`
unfoldable pub format_countdown : ℕ → Text
format_countdown seconds =
    let rest = decimal (seconds % 60) in
    let padded = if ltb (length rest) 2 then b'0' ∷ rest else rest in
    decimal (seconds / 60) ++ (b':' ∷ padded)

-- `lower` is `toLowerCase`; `payload_ok password otp` is the check of `loginSchema.pick(…)`.
module _ (lower : Text → Text) (payload_ok : Text → Option Text → Bool) where
  abbrev otp_of : LoginState → Option Text
  otp_of st = if st.mfa_required then some st.otp else none

  -- `submit` up to its request.
  unfoldable pub submit : LoginState → LoginState × Option LoginCall
  submit st =
      let seen = record st { touched = true; email = normalize_email lower st.email } in
      if not (valid_email lower st.email)
        || not (payload_ok st.password (otp_of st))
        || ltb 0 st.lock_seconds
      then (seen, none)
      else (
        record seen { busy = true; error = [] },
        some (record {
          email = normalize_email lower st.email;
          password = st.password;
          otp = otp_of st;
        }),
      )

-- `error.status === code`
abbrev pub status_is : Option ℕ → ℕ → Bool
status_is none code = false
status_is (some s) code = s == code

-- The `catch` of `submit`.
unfoldable pub refuse : AuthApiError → LoginState → LoginState
refuse e st =
    if text_same e.message (codes "mfa_required")
    then record st {
      mfa_required = true;
      error = codes "Enter the six-digit code from your authenticator app.";
      busy = false;
    }
    else let remaining = if status_is e.status 401 then st.attempts - 1 else st.attempts in
      record st {
        attempts = remaining;
        error = if is_empty e.message then codes "Invalid credentials or request" else e.message;
        lock_seconds =
            if status_is e.status 429 && ltb 0 e.retry_after
            then e.retry_after
            else if remaining == 0
            then lock_time
            else st.lock_seconds;
        busy = false;
      }

-- `submit` after its request: the new state, and the call of `onLoggedIn`. The draft of the address
-- in the session storage, which a success clears, is not part of the state.
unfoldable pub settle :
    (Text → Option TokenClaims)
    → Result LoginPayload
    → LoginState
    → LoginState × Option SessionPayload
unfolding refuse claims_of
settle parse (done p) st =
    let (perms, ver) = claims_of parse p.access_token in
    (
      record st { attempts = max_attempts; busy = false },
      some (record {
        access_token = p.access_token;
        id = p.id;
        email = p.email;
        perms = perms;
        ver = ver;
      }),
    )
settle parse (threw e) st = (refuse e st, none)

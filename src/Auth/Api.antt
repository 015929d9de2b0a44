-- ===== src/Auth/Api.antt =====
-- apps/web-auth/src/api.ts: the errors of the auth API, and the calls of the pages. The typed client
-- is outside: a call is given the reply that it gets.
pub mod Messages
use go_platform_starter.Prelude.{
  ℕ, suc, ◌+◌, ◌-◌, ◌*◌, Bool, true, false, ◌&&◌, ◌||◌, Option, none, some, List, [], ◌∷◌, map, leb,
  ◌==◌, if◌then◌else◌, get_or_else, Text, codes, text_same, is_empty, is_space, trim_start,
}
use go_platform_starter.Auth.Validation.{is_digit}

-- `AuthApiError`, or any other error (`status` is then `undefined`).
pub record AuthApiError : Type 0 where
  pub message : Text
  pub status : Option ℕ
  pub retry_after : ℕ

-- The body of an error response, as far as it is read.
pub record ErrorBody : Type 0 where
  pub message : Option Text
  pub error : Option Text

-- `s.replaceAll("_", " ")`
abbrev pub spaced : Text → Text
spaced s = map (λ c. if c == b'_' then b' ' else c) s

abbrev says : Option Text → Text → Bool
says none t = false
says (some s) t = text_same s t

abbrev truthy : Option Text → Bool
truthy none = false
truthy (some s) = if is_empty s then false else true

unfoldable pub read_message : ErrorBody → Text
read_message e =
    if says e.message (codes "mfa_required")
    then codes "mfa_required"
    else if says e.message (codes "invalid_credentials")
    then codes "Email or password is incorrect."
    else if says e.message (codes "conflict")
    then codes "That email is already registered."
    else if says e.message (codes "rate_limited") || says e.message (codes "too many requests")
    then codes "Too many requests. Please wait before trying again."
    else if truthy e.error
    then get_or_else e.error []
    else if says e.message (codes "bad_request")
    then codes "The request could not be validated."
    else if truthy e.message
    then spaced (get_or_else e.message [])
    else codes "invalid credentials or request"

-- The digits at the front of a text, read after `acc`; the flag says whether there was one before.
digits_from : Bool → ℕ → Text → Option ℕ
digits_from seen acc [] = if seen then some acc else none
digits_from seen acc (c ∷ s) =
    let rest = digits_from true (acc * 10 + (c - b'0')) s in
    if is_digit c then rest else if seen then some acc else none

-- `Number.parseInt(s, 10)`, `none` for `NaN`. A negative number is read as 0: the page only asks
-- whether the value is above 0.
unfoldable pub parse_int : Text → Option ℕ
unfolding digits_from
parse_int s = elim (trim_start s) [
  | [] ↦ none
  | c ∷ t ↦
      if c == b'-'
      then elim (digits_from false 0 t) [ none ↦ none | some n ↦ some 0 ]
      else if c == b'+'
      then digits_from false 0 t
      else digits_from false 0 (c ∷ t)
]

-- `apiError(error, response)`, of the body, the status and the header "Retry-After".
unfoldable pub api_error : ErrorBody → ℕ → Option Text → AuthApiError
unfolding read_message parse_int
api_error body status header = record {
  message = read_message body;
  status = some status;
  retry_after = get_or_else (parse_int (get_or_else header (codes "0"))) 0;
}

-- What the typed client gives for a call: an error body, with the status and the header, or data.
pub data Reply (D : Type 0) : Type 0 where
  failure : ErrorBody → ℕ → Option Text → Reply D
  success : Option D → Reply D

pub data Result (A : Type 0) : Type 0 where
  done : A → Result A
  threw : AuthApiError → Result A

abbrev pub plain_error : Text → AuthApiError
plain_error message = record { message = message; status = none; retry_after = 0 }

pub record LoginPayload : Type 0 where
  pub access_token : Text
  pub id : ℕ
  pub email : Text

-- `login`: an answer with no token is an error.
unfoldable pub login_result : Reply LoginPayload → Result LoginPayload
unfolding api_error
login_result (failure body status header) = threw (api_error body status header)
login_result (success none) = threw (plain_error (codes "login returned no access token"))
login_result (success (some p)) =
    if is_empty p.access_token
    then threw (plain_error (codes "login returned no access token"))
    else done p

-- `forgot`, `reset`, `validateReset` and `requestMagicLink`, which return nothing.
unfoldable pub unit_result : {D : Type 0} → Reply D → Result (Unit {0})
unfolding api_error
unit_result (failure body status header) = threw (api_error body status header)
unit_result (success data_of) = done tt

-- `startOAuth`, whose data is the optional authorization URL.
unfoldable pub oauth_result : Reply (Option Text) → Result Text
unfolding api_error
oauth_result (failure body status header) = threw (api_error body status header)
oauth_result (success none) =
    threw (plain_error (codes "OAuth provider returned no authorization URL"))
oauth_result (success (some url)) =
    if truthy url
    then done (get_or_else url [])
    else threw (plain_error (codes "OAuth provider returned no authorization URL"))

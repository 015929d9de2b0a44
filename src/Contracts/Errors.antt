-- ===== src/Contracts/Errors.antt =====
-- packages/contracts/src/runtime.ts and apps/web/src/lib/api.ts: the error of a failed request, the
-- retry policy, and the request helper of the host. What zod makes of a body is a parameter.
pub mod Policy
use go_platform_starter.Prelude.{
  ℕ, ◌+◌, Bool, true, false, ◌&&◌, ◌||◌, Option, none, some, ◌++◌, leb, ltb, ◌==◌, if◌then◌else◌,
  get_or_else, Text, codes, decimal,
}

-- The `error` member of an envelope.
pub record ErrorPayload : Type 0 where
  pub code : Option Text
  pub message : Option Text

-- What `apiEnvelopeSchema` accepts.
pub record Envelope (D : Type 0) : Type 0 where
  pub body : Option D
  pub message : Option Text
  pub error : Option ErrorPayload

pub record AppError : Type 0 where
  pub code : Text
  pub message : Text
  pub status : ℕ
  pub retryable : Bool

-- The default of the constructor's fourth parameter.
unfoldable pub default_retryable : ℕ → Bool
default_retryable status = leb 500 status || status == 429

abbrev pub app_error : Text → Text → ℕ → AppError
app_error code message status = record {
  code = code;
  message = message;
  status = status;
  retryable = default_retryable status;
}

-- `payload?.error?.code`, and the same for `message`.
abbrev payload_code : {D : Type 0} → Option (Envelope D) → Option Text
payload_code none = none
payload_code (some e) = elim e.error [ none ↦ none | some p ↦ p.code ]

abbrev payload_message : {D : Type 0} → Option (Envelope D) → Option Text
payload_message none = none
payload_message (some e) = elim e.error [ none ↦ none | some p ↦ p.message ]

abbrev envelope_message : {D : Type 0} → Option (Envelope D) → Option Text
envelope_message none = none
envelope_message (some e) = e.message

-- A thrown value: `error instanceof AppError`, or anything else.
pub data Thrown : Type 0 where
  app : AppError → Thrown
  other : Thrown

unfoldable pub should_retry_query : ℕ → Thrown → Bool
should_retry_query failures (app e) = if leb 2 failures then false else e.retryable
should_retry_query failures other = if leb 2 failures then false else true

pub data Result {ℓ} (A : Type ℓ) : Type ℓ where
  ok : A → Result A
  throw : AppError → Result A

-- `safeApiData(schema, value)`, where `parsed` is what `schema.safeParse(value)` gives.
unfoldable pub safe_api_data {ℓ} : {A : Type ℓ} → Option A → Result A
safe_api_data none = throw (record {
  code = codes "invalid_response";
  message = codes "Server response did not match its contract";
  status = 502;
  retryable = false;
})
safe_api_data (some a) = ok a

-- A response: its status, and its body as JSON where it is JSON.
pub record Response (B : Type 0) : Type 0 where
  pub status : ℕ
  pub json : Option B

-- `response.ok`
abbrev pub is_ok : ℕ → Bool
is_ok status = leb 200 status && ltb status 300

-- `empty` is the body `{}`, and `parse` is `apiEnvelopeSchema.safeParse`.
module _ {B D : Type 0} (empty : B) (parse : B → Option (Envelope D)) where
  unfoldable pub from_response : ℕ → B → AppError
  unfolding default_retryable
  from_response status body =
      let payload = parse body in
      app_error (get_or_else (payload_code payload) (codes "http_" ++ decimal status))
        (get_or_else (payload_message payload)
          (get_or_else (envelope_message payload) (codes "Request failed")))
        status

  -- `secureRequest` after the response has come.
  unfoldable pub secure_request : Response B → Result (Option D)
  unfolding from_response
  secure_request r =
      let raw = get_or_else r.json empty in
      if is_ok r.status
      then elim (parse raw) [
        | none ↦ throw (
            app_error (codes "invalid_response")
              (codes "Server response did not match its contract") 502)
        | some envelope ↦ ok envelope.body
      ]
      else throw (from_response r.status raw)

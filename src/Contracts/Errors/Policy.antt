-- ===== src/Contracts/Errors/Policy.antt =====
-- Which failures are retried, and what the request helper gives.
use go_platform_starter.Prelude.{
  ℕ, ◌≤◌, ◌<◌, true, false, Option, none, some, ◌≡◌, ◌⊎◌, inl, inr, ◌↔◌, refl, arith, get_or_else,
  codes, Option-cases,
}
use go_platform_starter.Contracts.Errors.{
  Envelope, AppError, app, should_retry_query, ok, throw, safe_api_data, Response, is_ok,
  from_response, secure_request,
}

module _ {B D : Type 0} (empty : B) (parse : B → Option (Envelope D)) where
  -- The error of a failed response is retried exactly when fewer than two tries have failed and the
  -- status is 429 or at least 500; it has the status of the response, whatever the body is.
  should_retry_query-from_response :
      (failures status : ℕ) (body : B)
      → ((should_retry_query failures (app (from_response empty parse status body)) ≡ true)
          ↔ ((failures < 2) × ((500 ≤ status) ⊎ (status ≡ 429))))
        × ((from_response empty parse status body).status ≡ status)
  unfolding should_retry_query from_response
  should_retry_query-from_response failures status body =
      (((λ h. (ground arith, ground arith)), (λ h. ground arith)), ground arith)

  -- The helper returns a value exactly when the status is 200 to 299 and the body, or `{}` where the
  -- body is no JSON, is an envelope; the value is then the `data` of that envelope.
  secure_request-eq-ok_iff :
      (r : Response B) (value : Option D)
      → (secure_request empty parse r ≡ ok value) ↔ (
          (200 ≤ r.status)
          × (r.status < 300)
          × ((e : Envelope D) × (parse (get_or_else r.json empty) ≡ some e) × (e.body ≡ value)))
  unfolding secure_request
  secure_request-eq-ok_iff r value = (there, back)
    where
      there :
          secure_request empty parse r ≡ ok value
          → (200 ≤ r.status)
            × (r.status < 300)
            × ((e : Envelope D) × (parse (get_or_else r.json empty) ≡ some e) × (e.body ≡ value))
      there h = elim (Option-cases (parse (get_or_else r.json empty))) [
        | inl bad ↦ absurd (ground arith)
        | inr (e, good) ↦ (ground arith, ground arith, (e, good, ground arith))
      ]

      back :
          (200 ≤ r.status)
            × (r.status < 300)
            × ((e : Envelope D) × (parse (get_or_else r.json empty) ≡ some e) × (e.body ≡ value))
          → secure_request empty parse r ≡ ok value
      back h = let (low, high, found) = h in let (e, good, same) = found in ground arith

  -- A body that breaks the contract: `secureRequest` throws an error that a query retries, and
  -- `safeApiData` throws one, of the same code and status, that no query retries.
  mismatch_retries_differ :
      (r : Response B)
      → is_ok r.status ≡ true
      → parse (get_or_else r.json empty) ≡ none
      → (a b : AppError) × (secure_request empty parse r ≡ throw a)
        × (safe_api_data {A = D} none ≡ throw b)
        × (a.code ≡ b.code)
        × (a.status ≡ b.status)
        × (should_retry_query 0 (app a) ≡ true)
        × (should_retry_query 0 (app b) ≡ false)
  unfolding secure_request safe_api_data should_retry_query
  mismatch_retries_differ r fine bad = (
    record {
      code = codes "invalid_response";
      message = codes "Server response did not match its contract";
      status = 502;
      retryable = true;
    },
    record {
      code = codes "invalid_response";
      message = codes "Server response did not match its contract";
      status = 502;
      retryable = false;
    },
    ground arith,
    refl,
    refl,
    refl,
    refl,
    refl,
  )

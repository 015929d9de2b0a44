-- ===== src/Contracts/Client/Retry.antt =====
-- The middleware retries a request at most once, and ends the session only when the refresh failed.
use go_platform_starter.Prelude.{
  ℕ, ◌+◌, ◌++◌, Bool, false, codes, is_empty, ends_with, ends_with_iff, Bool-cases, Option-cases,
  inl, inr, refl, Option, none, some, ◌≡◌, ◌≢◌, ◌⊎◌, ◌↔◌, arith, [], if◌then◌else◌, get_or_else,
  Text,
}
use go_platform_starter.Contracts.Client.{
  Header, authorization, x_device_id, x_request_id, same_header, set_header, Request, Page, bearer,
  truthy, on_request, skip_refresh, surfaced, retried, on_response,
}

-- A path of this API call: the text behind whatever prefix the gateway has.
abbrev pub EndsIn : Text → Text → Type 0
EndsIn end pathname = (prefix : Text) × (pathname ≡ prefix ++ end)

-- A 401 to a path that is neither the refresh nor the login.
pub record IsRejected (status : ℕ) (pathname : Text) : Type 0 where
  pub unauthorized : status ≡ 401
  pub not_refresh : ¬ EndsIn (codes "/auth/refresh") pathname
  pub not_login : ¬ EndsIn (codes "/auth/login") pathname

skip_refresh-IsRejected :
    (status : ℕ) (pathname : Text)
    → (status ≡ 401) × (skip_refresh pathname ≡ false) ↔ IsRejected status pathname
unfolding skip_refresh
skip_refresh-IsRejected status pathname =
    let refresh = ends_with_iff (codes "/auth/refresh") pathname in
    let login = ends_with_iff (codes "/auth/login") pathname in
    (
      (λ h. record {
        unauthorized = h.0;
        not_refresh = λ e. ground (arith, h.1, refresh.1 e);
        not_login = λ e. ground (arith, h.1, login.1 e);
      }),
      (λ h. (
        h.unauthorized,
        elim (Bool-cases (ends_with (codes "/auth/refresh") pathname)) [
          | inl e ↦ absurd (h.not_refresh (refresh.0 e))
          | inr e ↦ elim (Bool-cases (ends_with (codes "/auth/login") pathname)) [
            | inl f ↦ absurd (h.not_login (login.0 f))
            | inr f ↦ rw (e, f) refl
          ]
        ],
      )),
    )

module _ (listens : Bool) (refreshed : Option Text) (page : Page) (request : Request)
    (status : ℕ) where
  -- What is sent again, and when: the response is a 401, the path ends neither in /auth/refresh nor in
  -- /auth/login, and the refresh gave a token that is not empty; the request is the old one with that token.
  pub retried_iff :
      (again : Request)
      → ((on_response listens refreshed page request status).1 ≡ retried again) ↔ (
          IsRejected status request.pathname
          × ((token : Text) × (refreshed ≡ some token)
              × (is_empty token ≡ false)
              × (again ≡ record request {
                headers = set_header authorization (bearer token) request.headers;
              })))
  unfolding on_response
  retried_iff again =
      let rejected = skip_refresh-IsRejected status request.pathname in
      (
        (λ h. (
          rejected.0 (ground arith, ground arith),
          elim (Option-cases refreshed) [
            | inl e ↦ absurd (ground arith)
            | inr (token, e) ↦ (token, e, ground arith, ground arith)
          ],
        )),
        (λ h.
            let (token, e, solid, same) = h.1 in
            let (unauthorized, kept) = rejected.1 h.0 in
            ground (arith, e, solid, same, unauthorized, kept)),
      )

  -- The request that is sent again goes to the same path, carries the new token, and keeps every
  -- other header; the page is left as it was.
  retried_with_new_token :
      (again : Request) (h : Header)
      → (on_response listens refreshed page request status).1 ≡ retried again
      → (again.pathname ≡ request.pathname)
        × (again.headers authorization ≡ some (bearer (get_or_else refreshed [])))
        × (again.headers h ≡ (
            if same_header authorization h
            then some (bearer (get_or_else refreshed []))
            else request.headers h))
        × ((on_response listens refreshed page request status).0 ≡ page)
  unfolding on_response
  retried_with_new_token again h e = (ground arith, ground arith, ground arith, ground arith)

  -- The session is reported as over exactly when a 401 outside the refresh and the login met a
  -- failed refresh. Then the token is gone, the event is sent once, and the first 401 is surfaced;
  -- otherwise the page is left as it was.
  session_over_iff :
      ((on_response listens refreshed page request status).0.expired_events ≢ page.expired_events
        ↔ ((status ≡ 401) × (skip_refresh request.pathname ≡ false) × (truthy refreshed ≡ false)))
      × (((on_response listens refreshed page request status).0 ≡ page)
          ⊎ (((on_response listens refreshed page request status).0.token ≡ none)
              × ((on_response listens refreshed page request status).0.expired_events
                  ≡ page.expired_events + 1)
              × ((on_response listens refreshed page request status).1 ≡ surfaced)))
  unfolding on_response
  session_over_iff = (((λ h. ground arith), (λ h. ground arith)), ground arith)

-- Every request leaves with the token of the page, if it has one, with the device's id, and with a
-- request id, which is its own or else the fresh one and is remembered for error reports.
on_request_headers :
    (device fresh : Text) (page : Page) (request : Request)
    → let sent = (on_request device fresh page request).1 in
      (sent.headers x_device_id ≡ some device)
      × (sent.headers x_request_id ≡ some (get_or_else (request.headers x_request_id) fresh))
      × (sent.headers authorization ≡ (
          if truthy page.token
          then some (bearer (get_or_else page.token []))
          else request.headers authorization))
      × ((on_request device fresh page request).0.last_request_id
          ≡ get_or_else (sent.headers x_request_id) [])
      × ((on_request device fresh page request).0.token ≡ page.token)
unfolding on_request
on_request_headers device fresh page request =
    (ground arith, ground arith, ground arith, ground arith, ground arith)

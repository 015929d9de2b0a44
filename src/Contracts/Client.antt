-- ===== src/Contracts/Client.antt =====
-- packages/contracts/src/index.ts: the middleware of `createApiClient`. openapi-fetch, which calls
-- the two handlers, and `fetch` are not modelled: the result of the refresh is an argument, and a
-- retry is the request that is handed to `fetch`.
pub mod Retry
use go_platform_starter.Prelude.{
  ℕ, suc, Bool, true, false, not, ◌||◌, Option, none, some, List, [], ◌∷◌, ◌++◌, ◌==◌,
  if◌then◌else◌, get_or_else, Text, codes, is_empty, ends_with,
}

-- The header names that the middleware reads or writes; `named` is any other.
pub data Header : Type 0 where
  authorization x_device_id x_request_id : Header
  named : ℕ → Header

-- `request.headers`
abbrev pub Headers : Type 0
Headers = Header → Option Text

abbrev pub same_header : Header → Header → Bool
same_header authorization authorization = true
same_header x_device_id x_device_id = true
same_header x_request_id x_request_id = true
same_header (named m) (named n) = m == n
same_header _ _ = false

-- `headers.set(name, value)`
abbrev pub set_header : Header → Text → Headers → Headers
set_header h v hs j = if same_header h j then some v else hs j

pub record Request : Type 0 where
  pub pathname : Text
  pub headers : Headers

-- The page: the token on `globalThis`, and how often a session was reported as over, by
-- `opts.onSessionExpired` and by the event "starter:session-expired".
pub record Page : Type 0 where
  pub token : Option Text
  pub expired_calls : ℕ
  pub expired_events : ℕ
  pub last_request_id : Text

abbrev pub bearer : Text → Text
bearer token = codes "Bearer " ++ token

-- `if (token)`: a string that is given and not empty.
abbrev pub truthy : Option Text → Bool
truthy none = false
truthy (some t) = not (is_empty t)

abbrev attach_token : Option Text → Headers → Headers
attach_token token hs =
    if truthy token then set_header authorization (bearer (get_or_else token [])) hs else hs

abbrev attach_request_id : Option Text → Text → Headers → Headers
attach_request_id none fresh hs = set_header x_request_id fresh hs
attach_request_id (some old) fresh hs = hs

-- `onRequest`; `device` is `getDeviceID()` and `fresh` what `requestID()` gives.
unfoldable pub on_request : Text → Text → Page → Request → Page × Request
on_request device fresh page request =
    let with_token = attach_token page.token request.headers in
    let with_device = set_header x_device_id device with_token in
    let headers = attach_request_id (with_device x_request_id) fresh with_device in
    (
      record page { last_request_id = get_or_else (headers x_request_id) [] },
      record request { headers = headers },
    )

-- `skipRefresh`
unfoldable pub skip_refresh : Text → Bool
skip_refresh pathname =
    ends_with (codes "/auth/refresh") pathname || ends_with (codes "/auth/login") pathname

-- What `onResponse` returns: the response that it was given, or that of `fetch(request)`.
pub data Outcome : Type 0 where
  surfaced : Outcome
  retried : Request → Outcome

-- `onResponse`; `refreshed` is the result of `await silentRefresh(baseUrl)`, if it gets that far,
-- and the flag says whether the client has an `onSessionExpired`.
unfoldable pub on_response : Bool → Option Text → Page → Request → ℕ → Page × Outcome
unfolding skip_refresh
on_response listens refreshed page request status =
    if not (status == 401) || skip_refresh request.pathname
    then (page, surfaced)
    else if truthy refreshed
    then (
      page,
      retried (record request {
        headers = set_header authorization (bearer (get_or_else refreshed [])) request.headers;
      }),
    )
    else (
      record page {
        token = none;
        expired_calls = if listens then suc page.expired_calls else page.expired_calls;
        expired_events = suc page.expired_events;
      },
      surfaced,
    )

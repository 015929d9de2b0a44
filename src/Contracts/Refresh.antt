-- ===== src/Contracts/Refresh.antt =====
-- packages/contracts/src/index.ts: the silent refresh. A bundle is one copy of the module, with its
-- own `inflightRefresh` and `crossTabToken`; the bundles of a page share the token on `globalThis`,
-- and all bundles of all tabs share the lock "starter-auth-refresh" and the channel "starter:auth".
pub mod System
pub mod Exclusion
pub mod Waiting
pub mod Sharing
use go_platform_starter.Prelude.{
  ℕ, ◌-◌, Bool, true, false, ◌&&◌, Option, none, some, ltb, if◌then◌else◌, Text, is_empty,
}

-- Where the refresh of a bundle stands: `inflightRefresh` is null exactly in `idle`. A bundle waits
-- for the lock in `waiting`, and for the response to its request in `requesting`.
pub data Phase : Type 0 where
  idle waiting requesting : Phase

pub record Bundle : Type 0 where
  pub phase : Phase
  pub cross_tab : Option (Text × ℕ)

-- How a call of `silentRefresh` went on at once.
pub data Started : Type 0 where
  joined queued requested : Started
  answered : Text → Started

-- `coordinated`: the token that another tab or bundle got less than two seconds ago.
unfoldable pub recent_token : ℕ → Option (Text × ℕ) → Option Text
recent_token now none = none
recent_token now (some (value, at)) = if ltb (now - at) 2000 then some value else none

-- `coordinated`, when it runs: it answers at once, or sends the request.
unfoldable pub coordinated : ℕ → Bundle → Bundle × Started
unfolding recent_token
coordinated now b = elim (recent_token now b.cross_tab) [
  | some token ↦ (record b { phase = idle }, answered token)
  | none ↦ (record b { phase = requesting }, requested)
]

-- `silentRefresh`; the flag says whether the browser has `navigator.locks`.
abbrev start_refresh : Phase → Bool → ℕ → Bundle → Bundle × Started
start_refresh idle locks now b =
    if locks then (record b { phase = waiting }, queued) else coordinated now b
start_refresh _ locks now b = (b, joined)

unfoldable pub silent_refresh : Bool → ℕ → Bundle → Bundle × Started
unfolding coordinated
silent_refresh locks now b = start_refresh b.phase locks now b

-- What comes back from the refresh endpoint: a thrown error, or a response with `res.ok` and
-- `body.data?.accessToken`.
pub data Reply : Type 0 where
  failed : Reply
  reply : Bool → Option Text → Reply

-- The token that `refreshRequest` returns.
unfoldable pub accepted : Reply → Option Text
accepted failed = none
accepted (reply ok none) = none
accepted (reply ok (some token)) =
    if ok then (if is_empty token then none else some token) else none

-- The end of `refreshRequest` and the `finally` behind it, for the bundle itself.
unfoldable pub settle : ℕ → Reply → Bundle → Bundle
unfolding accepted
settle now r b = elim (accepted r) [
  | none ↦ record b { phase = idle }
  | some token ↦ record b { phase = idle; cross_tab = some (token, now) }
]

-- The listener of the channel, for a "refresh:done" message with this token.
unfoldable pub receive : ℕ → Text → Bundle → Bundle
receive now token b = if is_empty token then b else record b { cross_tab = some (token, now) }

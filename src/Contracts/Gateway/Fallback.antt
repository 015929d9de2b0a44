-- ===== src/Contracts/Gateway/Fallback.antt =====
-- The loopback address is used only where nothing better is known.
use go_platform_starter.Prelude.{true, Option, some, [], ◌≡◌, ◌⊎◌, arith, get_or_else, Text}
use go_platform_starter.Contracts.Gateway.{
  Browser, given, strip_slash, is_http, fallback_url, resolve_gateway_url,
}

-- In a page that was served over HTTP from an origin, the gateway is the configured build-time or
-- run-time URL without one trailing slash, or that origin: it is the loopback address only if one of
-- these is.
resolve_no_loopback :
    (from_env : Option Text) (b : Browser)
    → is_http b.protocol ≡ true
    → given b.origin ≡ true
    → resolve_gateway_url from_env (some b) ≡ fallback_url
    → ((given from_env ≡ true) × (strip_slash (get_or_else from_env []) ≡ fallback_url))
      ⊎ ((given b.runtime ≡ true) × (strip_slash (get_or_else b.runtime []) ≡ fallback_url))
      ⊎ (b.origin ≡ some fallback_url)
unfolding resolve_gateway_url
resolve_no_loopback from_env b http here e = ground arith

-- ===== src/Contracts/Gateway.antt =====
-- packages/contracts/src/index.ts: where the gateway is.
pub mod Fallback
use go_platform_starter.Prelude.{
  ℕ, Bool, true, false, not, ◌&&◌, ◌||◌, Option, none, some, List, [], ◌∷◌, ◌++◌, ◌==◌,
  if◌then◌else◌, get_or_else, Text, codes, is_empty, is, text_same,
}

pub record Browser : Type 0 where
  pub runtime : Option Text
  pub protocol : Option Text
  pub origin : Option Text

-- A truthy string: given, and not empty.
abbrev pub given : Option Text → Bool
given none = false
given (some s) = not (is_empty s)

-- `s.replace(/\/$/, "")`
unfoldable pub strip_slash : Text → Text
strip_slash [] = []
strip_slash (c ∷ []) = if c == b'/' then [] else c ∷ []
strip_slash (c ∷ d ∷ s) = c ∷ strip_slash (d ∷ s)

-- `/^https?:$/.test(protocol ?? "")`
abbrev pub is_http : Option Text → Bool
is_http none = false
is_http (some p) = text_same p (codes "http:") || text_same p (codes "https:")

abbrev pub fallback_url : Text
fallback_url = codes "http://127.0.0.1:8000"

abbrev resolve_browser : Option Browser → Text
resolve_browser none = fallback_url
resolve_browser (some b) =
    if given b.runtime
    then strip_slash (get_or_else b.runtime [])
    else if is_http b.protocol && given b.origin
    then get_or_else b.origin []
    else fallback_url

unfoldable pub resolve_gateway_url : Option Text → Option Browser → Text
resolve_gateway_url from_env browser =
    if given from_env then strip_slash (get_or_else from_env []) else resolve_browser browser

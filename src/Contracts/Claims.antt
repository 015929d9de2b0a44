-- ===== src/Contracts/Claims.antt =====
-- packages/contracts/src/index.ts: the claims in an access token. `atob` and `JSON.parse` together are
-- the parameter `parse`: `none` where either throws, or where the payload is `null`.
use go_platform_starter.Prelude.{
  ℕ, Option, none, some, List, ◌∷◌, map, String, ◌==◌, if◌then◌else◌, Text, split,
}

pub record TokenClaims : Type 0 where
  pub sub : Option Text
  pub email : Option Text
  pub perms : Option (List String)
  pub ver : Option ℕ

-- `s.replace(/-/g, "+").replace(/_/g, "/")`
unfoldable pub from_base64_url : Text → Text
from_base64_url s =
    map (λ c. if c == b'_' then b'/' else c) (map (λ c. if c == b'-' then b'+' else c) s)

-- `parts[1]`, where there are two parts or more.
abbrev pub second_part : List Text → Option Text
second_part (p ∷ q ∷ ps) = some q
second_part _ = none

unfoldable pub decode_claims : (Text → Option TokenClaims) → Text → Option TokenClaims
unfolding from_base64_url
decode_claims parse token = elim (second_part (split b'.' token)) [
  | none ↦ none
  | some payload ↦ parse (from_base64_url payload)
]

-- ===== src/Shell/Expiring.antt =====
-- apps/web/src/shell/Banners.tsx: SessionExpiringBanner, which looks at the access token every five seconds.
-- `atob`, `JSON.parse` and the reading of `exp` together are the parameter `read`: `none` where either throws.
pub mod Warning
use go_platform_starter.Prelude.{
  ℕ, suc, ◌+◌, ◌*◌, Bool, true, false, ◌&&◌, Option, none, some, List, [], ◌∷◌, ltb, if◌then◌else◌,
  Text, is_empty, split, split_from,
}
use go_platform_starter.Contracts.Claims.{from_base64_url, second_part}

-- `exp`, where the token has one that is not 0.
abbrev pub exp_of : Option (Option ℕ) → Option ℕ
exp_of (some (some (suc exp))) = some (suc exp)
exp_of _ = none

-- `ms > 0 && ms < 60_000`
abbrev pub is_near : ℕ → ℕ → Bool
is_near now exp = ltb now (exp * 1000) && ltb (exp * 1000) (now + 60000)

-- The banner's state, given the token's expiry: what cannot be read leaves it as it is.
abbrev pub shown_at : ℕ → Option ℕ → Bool → Bool
shown_at now none shown = shown
shown_at now (some exp) shown = is_near now exp

module _ (read : Text → Option (Option ℕ)) where
  unfoldable pub expiry : Text → Option ℕ
  unfolding split_from from_base64_url
  expiry raw = elim (second_part (split b'.' raw)) [
    | none ↦ none
    | some payload ↦ if is_empty payload then none else exp_of (read (from_base64_url payload))
  ]

  -- One call of `tick`, given the access token and the banner's state.
  unfoldable pub tick : ℕ → Option Text → Bool → Bool
  unfolding expiry
  tick now none shown = false
  tick now (some []) shown = false
  tick now (some (c ∷ raw)) shown = shown_at now (expiry (c ∷ raw)) shown

  unfoldable pub run : List (ℕ × Option Text) → Bool → Bool
  unfolding tick
  run [] shown = shown
  run ((now, token) ∷ ticks) shown = run ticks (tick now token shown)

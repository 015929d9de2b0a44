-- ===== src/Shell/Expiring/Warning.antt =====
-- When the banner is shown.
use go_platform_starter.Prelude.{
  ℕ, ◌+◌, ◌*◌, ◌≤◌, ◌<◌, Bool, true, Option, some, List, [], ◌∷◌, ◌++◌, ◌≡◌, refl, ap, arith, inl,
  inr, Bool-cases, ltb, Text, map,
}
use go_platform_starter.Shell.Expiring.{expiry, is_near, shown_at, tick, run}

-- The times follow one another, the first the time `from`, within `gap`.
abbrev pub IsTicking : ℕ → ℕ → List ℕ → Type 0
IsTicking gap from [] = Unit
IsTicking gap from (now ∷ times) = (from ≤ now) × (now ≤ from + gap) × IsTicking gap now times

abbrev pub last_tick : ℕ → List ℕ → ℕ
last_tick from [] = from
last_tick from (now ∷ times) = last_tick now times

module _ (read : Text → Option (Option ℕ)) where
  tick-near :
      (now exp c : ℕ) (raw : Text) (shown : Bool)
      → expiry read (c ∷ raw) ≡ some exp
      → tick read now (some (c ∷ raw)) shown ≡ is_near now exp
  unfolding tick
  tick-near now exp c raw shown e = ap (λ o. shown_at now o shown) e

  -- Let a token that can be read stay in place, and let the ticks follow one another within five seconds,
  -- from a minute before its expiry at the latest until less than a minute is left: then some tick shows the
  -- banner while 55 seconds are left, whatever was shown before.
  run-warned :
      (c : ℕ) (raw : Text) (exp from : ℕ) (times : List ℕ) (shown : Bool)
      → expiry read (c ∷ raw) ≡ some exp
      → IsTicking 5000 from times
      → from + 60000 ≤ exp * 1000
      → exp * 1000 < last_tick from times + 60000
      → (before : List ℕ) × (now : ℕ) × (after : List ℕ) × (times ≡ before ++ now ∷ after)
        × (now + 55000 ≤ exp * 1000)
        × (run read (map (λ t. (t, some (c ∷ raw))) (before ++ now ∷ [])) shown ≡ true)
  unfolding run
  run-warned c raw exp from [] shown e t early late = absurd (omega arith)
  run-warned c raw exp from (now ∷ times) shown e t early late =
      elim (Bool-cases (ltb (exp * 1000) (now + 60000))) [
        | inl near ↦ (
          [],
          now,
          times,
          refl,
          omega (arith, t.1),
          rw (tick-near now exp c raw shown e) (ground (arith, t.1)),
        )
        | inr not_yet ↦
            let (before, at_last, after, split, soon, seen) =
              run-warned c raw exp now times (tick read now (some (c ∷ raw)) shown) e t.2
                (ground arith) late in
            (now ∷ before, at_last, after, ap (◌∷◌ now) split, soon, seen)
      ]

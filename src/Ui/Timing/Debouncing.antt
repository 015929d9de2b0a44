-- ===== src/Ui/Timing/Debouncing.antt =====
-- What a debounced value waits for.
use go_platform_starter.Prelude.{
  ℕ, ◌+◌, ◌<◌, some, List, [], ◌∷◌, ◌≡◌, refl, arith, inl, inr, Bool-cases, if◌then◌else◌, Key, is,
}
use go_platform_starter.Ui.Timing.{
  Debounced, Moment, rendered, fired, debounce_step, debounced_start, debounced_run,
}

module _ {T : Type 0} ⦃k : Key T⦄ (delay : ℕ) where
  -- From `since`, when the value became what it is, it never stays the same for the delay.
  abbrev pub IsRestless : ℕ → T → List (Moment T) → Type 0
  IsRestless since value [] = Unit
  IsRestless since value (rendered now v ∷ moments) =
      (now < since + delay) × IsRestless (if is v value then since else now) v moments
  IsRestless since value (fired now ∷ moments) =
      (now < since + delay) × IsRestless since value moments

  -- The value shown, the latest value, and the timer that would set it.
  abbrev IsWaiting : ℕ → T → T → Debounced T → Type 0
  IsWaiting since value shown d =
      (d.settled ≡ shown) × (d.value ≡ value) × (d.timer ≡ some (since + delay, value))

  run-IsWaiting :
      (moments : List (Moment T)) (since : ℕ) (value shown : T) (d : Debounced T)
      → IsRestless since value moments
      → IsWaiting since value shown d
      → (debounced_run delay moments d).settled ≡ shown
  unfolding debounced_run debounce_step
  run-IsWaiting [] since value shown d r h = h.0
  run-IsWaiting (rendered now v ∷ moments) since value shown d r h =
      elim (Bool-cases (is v value)) [
        | inl e ↦
            let same = (k.same_iff v value).0 e in
            run-IsWaiting moments since v shown _ (rw e at (r.1))
              (rw (h.1, e) (h.0, ground (arith, same, h.1), ground (arith, same, h.2)))
        | inr e ↦
            run-IsWaiting moments now v shown _ (rw e at (r.1)) (rw (h.1, e) (h.0, refl, refl))
      ]
  run-IsWaiting (fired now ∷ moments) since value shown d r h =
      run-IsWaiting moments since value shown _ r.1 (rw h.2 (ground (arith, r.0, h.0, h.1, h.2)))

  -- While the value never stays the same for the delay, the debounced value stays the first, whatever the
  -- timers do.
  debounced_run-settled :
      (now : ℕ) (value : T) (moments : List (Moment T))
      → IsRestless now value moments
      → (debounced_run delay moments (debounced_start delay now value)).settled ≡ value
  debounced_run-settled now value moments r =
      run-IsWaiting moments now value value (debounced_start delay now value) r (refl, refl, refl)

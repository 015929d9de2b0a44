-- ===== src/Ui/Timing/Throttling.antt =====
-- How often a throttled value changes, and when it has caught up.
use go_platform_starter.Prelude.{
  ℕ, ◌+◌, ◌≤◌, Option, none, some, List, [], ◌∷◌, ◌≡◌, refl, sym, ap, ◌∙◌, arith, leb, inl, inr,
  Bool-cases, if◌then◌else◌, Key, is,
}
use go_platform_starter.Ui.Timing.{
  Throttled, Moment, rendered, fired, update, throttle_step, throttled_start, throttled_run,
}

abbrev pub time_of : {T : Type 0} → Moment T → ℕ
time_of (rendered now value) = now
time_of (fired now) = now

-- The clock does not go back.
abbrev pub IsTimed : {T : Type 0} → ℕ → List (Moment T) → Type 0
IsTimed now [] = Unit
IsTimed now (m ∷ moments) = (now ≤ time_of m) × IsTimed (time_of m) moments

abbrev pub last_time : {T : Type 0} → ℕ → List (Moment T) → ℕ
last_time now [] = now
last_time now (m ∷ moments) = last_time (time_of m) moments

-- The times at which the timer sets the throttled value.
abbrev pub updates_at : {T : Type 0} → Moment T → Option (ℕ × T) → List ℕ → List ℕ
updates_at (fired now) (some (due, value)) rest = if leb due now then now ∷ rest else rest
updates_at m timer rest = rest

-- Each time is at least `interval` after the one before it, and the first after `from`.
abbrev pub IsSpaced : ℕ → ℕ → List ℕ → Type 0
IsSpaced interval from [] = Unit
IsSpaced interval from (t ∷ times) = (from + interval ≤ t) × IsSpaced interval t times

module _ {T : Type 0} ⦃k : Key T⦄ (interval : ℕ) where
  unfoldable pub updates : List (Moment T) → Throttled T → List ℕ
  updates [] d = []
  updates (m ∷ moments) d =
      let rest = updates moments (throttle_step interval m d) in updates_at m d.timer rest

  -- The timer is not due before the interval has passed since the last update.
  abbrev IsDue : ℕ → Option (ℕ × T) → Type 0
  IsDue last none = Unit
  IsDue last (some (due, value)) = last + interval ≤ due

  step-IsDue :
      (now : ℕ) (m : Moment T) (d : Throttled T)
      → d.last ≤ now
      → now ≤ time_of m
      → IsDue d.last d.timer
      → let d' = throttle_step interval m d in (d'.last ≤ time_of m) × IsDue d'.last d'.timer
  unfolding throttle_step
  step-IsDue now (rendered t v) d a b h = elim (Bool-cases (is v d.value)) [
    | inl e ↦ rw e (omega arith, h)
    | inr e ↦ rw e (omega arith, omega arith)
  ]
  step-IsDue now (fired t) d a b h = fire d.timer h
    where
      fire :
          (timer : Option (ℕ × T))
          → IsDue d.last timer
          → let d' = update t timer d in (d'.last ≤ t) × IsDue d'.last d'.timer
      fire none g = (omega arith, h)
      fire (some (due, v)) g = elim (Bool-cases (leb due t)) [
        | inl e ↦ rw e (omega arith, tt)
        | inr e ↦ rw e (omega arith, h)
      ]

  IsSpaced-next :
      (now : ℕ) (m : Moment T) (d : Throttled T) (rest : List ℕ)
      → d.last ≤ now
      → now ≤ time_of m
      → IsDue d.last d.timer
      → IsSpaced interval (throttle_step interval m d).last rest
      → IsSpaced interval d.last (updates_at m d.timer rest)
  unfolding throttle_step
  IsSpaced-next now (rendered t v) d rest a b h r = elim (Bool-cases (is v d.value)) [
    | inl e ↦ rw e at r
    | inr e ↦ rw e at r
  ]
  IsSpaced-next now (fired t) d rest a b h r = fire d.timer h r
    where
      fire :
          (timer : Option (ℕ × T))
          → IsDue d.last timer
          → IsSpaced interval (update t timer d).last rest
          → IsSpaced interval d.last (updates_at (fired t) timer rest)
      fire none g r = r
      fire (some (due, v)) g r = elim (Bool-cases (leb due t)) [
        | inl e ↦ rw e (ground arith, rw e at r)
        | inr e ↦ rw e (rw e at r)
      ]

  updates-from :
      (moments : List (Moment T)) (now : ℕ) (d : Throttled T)
      → d.last ≤ now
      → IsTimed now moments
      → IsDue d.last d.timer
      → IsSpaced interval d.last (updates moments d)
  unfolding updates
  updates-from [] now d a t h = tt
  updates-from (m ∷ moments) now d a t h =
      let (b, g) = step-IsDue now m d a t.0 h in
      IsSpaced-next now m d (updates moments (throttle_step interval m d)) a t.0 h
        (updates-from moments (time_of m) (throttle_step interval m d) b t.1 g)

  -- However often the hook is rendered, and however late its timer fires: while the clock does not go back,
  -- the throttled value is set at times that lie at least the interval apart.
  pub updates-IsSpaced :
      (now : ℕ) (value : T) (moments : List (Moment T))
      → IsTimed now moments
      → IsSpaced interval 0 (updates moments (throttled_start interval now value))
  updates-IsSpaced now value moments t =
      updates-from moments now (throttled_start interval now value) (omega arith) t (omega arith)

-- The value that was rendered last.
abbrev pub last_value : {T : Type 0} → T → List (Moment T) → T
last_value value [] = value
last_value value (rendered now v ∷ moments) = last_value v moments
last_value value (fired now ∷ moments) = last_value value moments

-- The timer, where there is one, sets the value by the time `by`; where there is none, it is shown.
abbrev pub Pending : {T : Type 0} → ℕ → T → T → Option (ℕ × T) → Type 0
Pending by value shown none = shown ≡ value
Pending by value shown (some (due, v)) = (v ≡ value) × (due ≤ by)

module _ {T : Type 0} ⦃k : Key T⦄ (interval : ℕ) where
  step-Pending :
      (now : ℕ) (m : Moment T) (d : Throttled T)
      → now ≤ time_of m
      → Pending (now + interval) d.value d.throttled d.timer
      → let d' = throttle_step interval m d in
        Pending (time_of m + interval) d'.value d'.throttled d'.timer
        × (d'.value ≡ last_value d.value (m ∷ []))
  unfolding throttle_step
  step-Pending now (rendered t v) d a h = elim (Bool-cases (is v d.value)) [
    | inl e ↦ rw e (later d.timer h, sym ((k.same_iff v d.value).0 e))
    | inr e ↦ rw e ((refl, omega arith), refl)
  ]
    where
      later :
          (timer : Option (ℕ × T))
          → Pending (now + interval) d.value d.throttled timer
          → Pending (t + interval) d.value d.throttled timer
      later none g = g
      later (some (due, w)) g = (g.0, omega (arith, g.1))
  step-Pending now (fired t) d a h = fire d.timer h
    where
      fire :
          (timer : Option (ℕ × T))
          → Pending (now + interval) d.value d.throttled timer
          → let d' = update t timer (record d { timer = timer }) in
            Pending (t + interval) d'.value d'.throttled d'.timer × (d'.value ≡ d.value)
      fire none g = (g, refl)
      fire (some (due, v)) g = elim (Bool-cases (leb due t)) [
        | inl e ↦ rw e (g.0, refl)
        | inr e ↦ rw e ((g.0, omega (arith, g.1)), refl)
      ]

  run-Pending :
      (moments : List (Moment T)) (now : ℕ) (d : Throttled T)
      → IsTimed now moments
      → Pending (now + interval) d.value d.throttled d.timer
      → let d' = throttled_run interval moments d in
        Pending (last_time now moments + interval) d'.value d'.throttled d'.timer
        × (d'.value ≡ last_value d.value moments)
  unfolding throttled_run
  run-Pending [] now d t h = (h, refl)
  run-Pending (rendered at v ∷ moments) now d t h =
      let (p, e) = step-Pending now (rendered at v) d t.0 h in
      let (q, f) = run-Pending moments at (throttle_step interval (rendered at v) d) t.1 p in
      (q, f ∙ ap (λ x. last_value x moments) e)
  run-Pending (fired at ∷ moments) now d t h =
      let (p, e) = step-Pending now (fired at) d t.0 h in
      let (q, f) = run-Pending moments at (throttle_step interval (fired at) d) t.1 p in
      (q, f ∙ ap (λ x. last_value x moments) e)

  -- However the hook is rendered before, also with a new value at every moment: once the interval has
  -- passed after the last moment and the timer fires, the throttled value is the one rendered last.
  throttled_run-shown :
      (now t : ℕ) (value : T) (moments : List (Moment T))
      → IsTimed now moments
      → last_time now moments + interval ≤ t
      → (throttle_step interval
          (fired t)
          (throttled_run interval moments (throttled_start interval now value))).throttled
        ≡ last_value value moments
  unfolding throttle_step
  throttled_run-shown now t value moments timed late =
      let start = throttled_start interval now value in
      let (p, e) = run-Pending moments now start timed (refl, omega arith) in
      fire (throttled_run interval moments start) p ∙ e
    where
      fire :
          (d : Throttled T)
          → Pending (last_time now moments + interval) d.value d.throttled d.timer
          → (update t d.timer d).throttled ≡ d.value
      fire d h = by_timer d.timer h
        where
          by_timer :
              (timer : Option (ℕ × T))
              → Pending (last_time now moments + interval) d.value d.throttled timer
              → (update t timer d).throttled ≡ d.value
          by_timer none g = g
          by_timer (some (due, v)) g = ground (arith, g.0, g.1)

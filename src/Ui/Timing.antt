-- ===== src/Ui/Timing.antt =====
-- packages/ui/src/frontend.tsx: useDebouncedValue and useThrottledValue. A hook is rendered with a value at
-- a time, and its timer fires at some time, which has an effect once the timer is due.
pub mod Throttling
pub mod Debouncing
use go_platform_starter.Prelude.{
  ℕ, ◌+◌, ◌-◌, Bool, Option, none, some, List, [], ◌∷◌, leb, if◌then◌else◌, Key, is,
}

-- `value` is the one that the hook was last rendered with; the timer has its time and the value it sets.
pub record Debounced (T : Type 0) : Type 0 where
  pub value : T
  pub settled : T
  pub timer : Option (ℕ × T)

pub record Throttled (T : Type 0) : Type 0 where
  pub value : T
  pub throttled : T
  pub last : ℕ
  pub timer : Option (ℕ × T)

pub data Moment (T : Type 0) : Type 0 where
  rendered : ℕ → T → Moment T
  fired : ℕ → Moment T

module _ {T : Type 0} ⦃k : Key T⦄ where
  -- The effect of useDebouncedValue: the old timer is cleared.
  abbrev pub debounce : ℕ → ℕ → T → Debounced T → Debounced T
  debounce delay now value d = record d { value = value; timer = some (now + delay, value) }

  abbrev pub settle : ℕ → Option (ℕ × T) → Debounced T → Debounced T
  settle now none d = d
  settle now (some (due, value)) d =
      if leb due now then record d { settled = value; timer = none } else d

  unfoldable pub debounce_step : ℕ → Moment T → Debounced T → Debounced T
  debounce_step delay (rendered now value) d =
      if is value d.value then d else debounce delay now value d
  debounce_step delay (fired now) d = settle now d.timer d

  -- The first render, at `now`.
  abbrev pub debounced_start : ℕ → ℕ → T → Debounced T
  debounced_start delay now value =
      debounce delay now value (record { value = value; settled = value; timer = none })

  unfoldable pub debounced_run : ℕ → List (Moment T) → Debounced T → Debounced T
  unfolding debounce_step
  debounced_run delay [] d = d
  debounced_run delay (m ∷ moments) d = debounced_run delay moments (debounce_step delay m d)

  -- The effect of useThrottledValue: `Math.max(0, intervalMs - (Date.now() - last.current))`
  abbrev pub throttle : ℕ → ℕ → T → Throttled T → Throttled T
  throttle interval now value d = record d {
    value = value;
    timer = some (now + (interval - (now - d.last)), value);
  }

  abbrev pub update : ℕ → Option (ℕ × T) → Throttled T → Throttled T
  update now none d = d
  update now (some (due, value)) d =
      if leb due now then record d { last = now; throttled = value; timer = none } else d

  unfoldable pub throttle_step : ℕ → Moment T → Throttled T → Throttled T
  throttle_step interval (rendered now value) d =
      if is value d.value then d else throttle interval now value d
  throttle_step interval (fired now) d = update now d.timer d

  -- The first render; `last` begins with 0.
  abbrev pub throttled_start : ℕ → ℕ → T → Throttled T
  throttled_start interval now value =
      throttle interval now value
        (record { value = value; throttled = value; last = 0; timer = none })

  unfoldable pub throttled_run : ℕ → List (Moment T) → Throttled T → Throttled T
  unfolding throttle_step
  throttled_run interval [] d = d
  throttled_run interval (m ∷ moments) d =
      throttled_run interval moments (throttle_step interval m d)

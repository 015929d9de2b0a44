-- ===== src/Ui/Confirm/Answering.antt =====
-- Which promises of `confirm` are resolved.
use go_platform_starter.Prelude.{
  ℕ, suc, ◌+◌, ◌<◌, ◌≤◌, ◌==◌, Bool, true, false, Option, none, some, List, [], ◌∷◌, ◌≡◌, arith,
  Text, ltb, if◌then◌else◌,
}
use go_platform_starter.Ui.Confirm.{
  ConfirmState, Confirms, no_confirms, confirm, ConfirmEvent, asked, escaped, entered, cancelled,
  accepted, when_open, handle, run,
}

-- How often the promise has been resolved.
abbrev pub resolutions : ℕ → List (ℕ × Bool) → ℕ
resolutions ticket [] = 0
resolutions ticket ((t, ok) ∷ answers) =
    let rest = resolutions ticket answers in if t == ticket then suc rest else rest

abbrev waiting : ℕ → Option ConfirmState → ℕ
waiting ticket none = 0
waiting ticket (some c) = if c.ticket == ticket then 1 else 0

-- The promises so far are resolved or wait at most once each, the others not at all.
abbrev IsFair : Confirms → Type 0
IsFair s =
    (ticket : ℕ)
    → (resolutions ticket s.answers + waiting ticket s.state
        ≤ (if ltb ticket s.calls then 1 else 0))

confirm-IsFair :
    (message : Text) (danger : Bool) (s : Confirms) → IsFair s → IsFair (confirm message danger s)
confirm-IsFair message danger s h ticket = let l = h ticket in ground (arith, l)

when_open-IsFair : (ok : Bool) (s : Confirms) → IsFair s → IsFair (when_open ok s)
when_open-IsFair ok s h ticket = let l = h ticket in ground (arith, l)

handle-IsFair : (e : ConfirmEvent) (s : Confirms) → IsFair s → IsFair (handle e s)
handle-IsFair (asked message danger) s h = confirm-IsFair message danger s h
handle-IsFair escaped s h = when_open-IsFair false s h
handle-IsFair entered s h = when_open-IsFair true s h
handle-IsFair cancelled s h = when_open-IsFair false s h
handle-IsFair accepted s h = when_open-IsFair true s h

run-IsFair : (events : List ConfirmEvent) (s : Confirms) → IsFair s → IsFair (run events s)
unfolding run
run-IsFair [] s h = h
run-IsFair (e ∷ events) s h = run-IsFair events (handle e s) (handle-IsFair e s h)

no_confirms-IsFair : IsFair no_confirms
no_confirms-IsFair ticket = ground arith

-- However `confirm` is called and answered, no promise is resolved twice.
resolutions-run :
    (events : List ConfirmEvent) (ticket : ℕ)
    → resolutions ticket (run events no_confirms).answers ≤ 1
resolutions-run events ticket =
    let l = run-IsFair events no_confirms no_confirms-IsFair ticket in ground (arith, l)

-- The promise has been handed out, and is neither resolved nor waits.
abbrev IsLost : ℕ → Confirms → Type 0
IsLost ticket s =
    (ticket < s.calls) × (resolutions ticket s.answers ≡ 0) × (waiting ticket s.state ≡ 0)

handle-IsLost :
    (ticket : ℕ) (e : ConfirmEvent) (s : Confirms) → IsLost ticket s → IsLost ticket (handle e s)
handle-IsLost ticket (asked message danger) s (l, r, w) = ground arith
handle-IsLost ticket escaped s (l, r, w) = ground arith
handle-IsLost ticket entered s (l, r, w) = ground arith
handle-IsLost ticket cancelled s (l, r, w) = ground arith
handle-IsLost ticket accepted s (l, r, w) = ground arith

run-IsLost :
    (ticket : ℕ) (events : List ConfirmEvent) (s : Confirms)
    → IsLost ticket s
    → IsLost ticket (run events s)
unfolding run
run-IsLost ticket [] s h = h
run-IsLost ticket (e ∷ events) s h =
    run-IsLost ticket events (handle e s) (handle-IsLost ticket e s h)

-- A dialog that is open when `confirm` is called again is never answered: its promise stays unresolved
-- whatever comes after.
resolutions-confirm :
    (before after : List ConfirmEvent) (c : ConfirmState) (message : Text) (danger : Bool)
    → (run before no_confirms).state ≡ some c
    → ◌≡◌ {A = ℕ}
        (resolutions c.ticket (run after (confirm message danger (run before no_confirms))).answers)
        0
resolutions-confirm before after c message danger e =
    let s = run before no_confirms in
    let l = run-IsFair before no_confirms no_confirms-IsFair c.ticket in
    let lost : IsLost c.ticket (confirm message danger s) = ground (arith, l) in
    (run-IsLost c.ticket after (confirm message danger s) lost).1

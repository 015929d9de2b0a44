-- ===== src/Shell/Swipe/Opening.antt =====
-- Which touches open the drawer.
use go_platform_starter.Prelude.{
  ℕ, Bool, true, false, ◌&&◌, none, some, List, [], ◌∷◌, ◌≡◌, ◌↔◌, ◌⊎◌, inl, inr, refl, arith,
  Bool-cases,
}
use go_platform_starter.Shell.Swipe.{
  Point, Touch, started, moved, ended, Swipe, is_edge, is_far, touch, run, untouched,
}

-- The finger is still down from the touch that began.
abbrev pub goes_on : Touch → Bool
goes_on (started width none) = true
goes_on (started width (some p)) = false
goes_on (moved p) = true
goes_on ended = false

-- From a touch that began at the point, a move leads far enough before the touch ends or another begins.
pub data Reaches (from : Point) : List Touch → Type 0 where
  far :
      {p : Point} {events : List Touch}
      → is_far from p ≡ true
      → Reaches from (moved (some p) ∷ events)
  on :
      {e : Touch} {events : List Touch}
      → goes_on e ≡ true
      → Reaches from events
      → Reaches from (e ∷ events)

-- Somewhere a touch begins at the left edge of a narrow window, and reaches far.
pub data HasSwipe : List Touch → Type 0 where
  first :
      (width : ℕ) (p : Point) {events : List Touch}
      → is_edge width p ≡ true
      → Reaches p events
      → HasSwipe (started width (some p) ∷ events)
  later : {e : Touch} {events : List Touch} → HasSwipe events → HasSwipe (e ∷ events)

-- What opens the drawer from a state.
abbrev Opens : Swipe → List Touch → Type 0
Opens s events =
    (s.menu_open ≡ true) ⊎ ((s.tracking ≡ true) × Reaches s.from events) ⊎ HasSwipe events

-- What stands behind a first event that neither moves nor begins a touch.
moves : Touch → Bool
moves (moved (some p)) = true
moves e = false

begins : Touch → Bool
begins (started width (some p)) = true
begins e = false

on_tail :
    {from : Point} {e : Touch} {events : List Touch}
    → moves e ≡ false
    → Reaches from (e ∷ events)
    → (goes_on e ≡ true) × Reaches from events
unfolding moves
on_tail h (far {p} f) = absurd (ground (arith, h))
on_tail h (on g r) = (g, r)

swipe_tail :
    {e : Touch} {events : List Touch} → begins e ≡ false → HasSwipe (e ∷ events) → HasSwipe events
unfolding begins
swipe_tail b (first width p edge r) = absurd (ground (arith, b))
swipe_tail b (later h) = h

move_tail :
    {from p : Point} {events : List Touch}
    → Reaches from (moved (some p) ∷ events)
    → is_far from p ≡ false
    → Reaches from events
move_tail (far f) h = absurd (ground (arith, f, h))
move_tail (on g r) h = r

start_tail :
    {width : ℕ} {p : Point} {events : List Touch}
    → HasSwipe (started width (some p) ∷ events)
    → ((is_edge width p ≡ true) × Reaches p events) ⊎ HasSwipe events
start_tail (first w q edge r) = inl (edge, r)
start_tail (later h) = inr h

Opens-before :
    (e : Touch) (events : List Touch) (s : Swipe) → Opens s (e ∷ events) → Opens (touch e s) events
unfolding touch moves begins
Opens-before (started w none) events s (inl o) = inl o
Opens-before (started w none) events s (inr (inl (t, r))) = inr (inl (t, (on_tail refl r).1))
Opens-before (started w none) events s (inr (inr h)) = inr (inr (swipe_tail refl h))
Opens-before (started w (some q)) events s (inl o) = inl o
Opens-before (started w (some q)) events s (inr (inl (t, r))) =
    absurd (ground (arith, (on_tail refl r).0))
Opens-before (started w (some q)) events s (inr (inr h)) = elim (start_tail h) [
  | inl (edge, r) ↦ inr (inl (edge, r))
  | inr h' ↦ inr (inr h')
]
Opens-before (moved none) events s (inl o) = inl o
Opens-before (moved none) events s (inr (inl (t, r))) = inr (inl (t, (on_tail refl r).1))
Opens-before (moved none) events s (inr (inr h)) = inr (inr (swipe_tail refl h))
Opens-before (moved (some q)) events s o = elim (Bool-cases (s.tracking && is_far s.from q)) [
  | inl e ↦ rw e (inl refl)
  | inr e ↦ rw e (missed e o)
]
  where
    missed :
        (s.tracking && is_far s.from q) ≡ false → Opens s (moved (some q) ∷ events) → Opens s events
    missed e (inl o) = inl o
    missed e (inr (inl (t, r))) = inr (inl (t, move_tail r (ground (arith, e, t))))
    missed e (inr (inr h)) = inr (inr (swipe_tail refl h))
Opens-before ended events s (inl o) = inl o
Opens-before ended events s (inr (inl (t, r))) = absurd (ground (arith, (on_tail refl r).0))
Opens-before ended events s (inr (inr h)) = inr (inr (swipe_tail refl h))

Opens-after :
    (e : Touch) (events : List Touch) (s : Swipe) → Opens (touch e s) events → Opens s (e ∷ events)
unfolding touch
Opens-after e events s (inr (inr h)) = inr (inr (later h))
Opens-after (started w none) events s (inl o) = inl o
Opens-after (started w none) events s (inr (inl (t, r))) = inr (inl (t, on refl r))
Opens-after (started w (some q)) events s (inl o) = inl o
Opens-after (started w (some q)) events s (inr (inl (t, r))) = inr (inr (first w q t r))
Opens-after (moved none) events s (inl o) = inl o
Opens-after (moved none) events s (inr (inl (t, r))) = inr (inl (t, on refl r))
Opens-after (moved (some q)) events s o = elim (Bool-cases (s.tracking && is_far s.from q)) [
  | inl e ↦ inr (inl (ground (arith, e), far (ground (arith, e))))
  | inr e ↦ still (rw e at o)
]
  where
    still : Opens s events → Opens s (moved (some q) ∷ events)
    still (inl o) = inl o
    still (inr (inl (t, r))) = inr (inl (t, on refl r))
    still (inr (inr h)) = inr (inr (later h))
Opens-after ended events s (inl o) = inl o
Opens-after ended events s (inr (inl (t, r))) = absurd (ground (arith, t))

none_left : (s : Swipe) → Opens s [] → s.menu_open ≡ true
none_left s (inl o) = o
none_left s (inr (inl (t, r))) = elim r [ ]
none_left s (inr (inr h)) = elim h [ ]

run_iff : (events : List Touch) (s : Swipe) → ((run events s).menu_open ≡ true) ↔ Opens s events
unfolding run
run_iff [] s = ((λ o. inl o), none_left s)
run_iff (e ∷ events) s = (
  (λ o. Opens-after e events s ((run_iff events (touch e s)).0 o)),
  (λ o. (run_iff events (touch e s)).1 (Opens-before e events s o)),
)

-- The drawer is open after the touches exactly if one of them began less than 24 pixels from the left edge
-- of a window narrower than 1024, and before it ended or another began led more than 60 pixels to the
-- right and less than 50 up or down.
pub run-menu_open_iff :
    (events : List Touch) → ((run events untouched).menu_open ≡ true) ↔ HasSwipe events
run-menu_open_iff events = (
  (λ o. only_swipe ((run_iff events untouched).0 o)),
  (λ h. (run_iff events untouched).1 (inr (inr h))),
)
  where
    only_swipe : Opens untouched events → HasSwipe events
    only_swipe (inl o) = absurd (ground (arith, o))
    only_swipe (inr (inl (t, r))) = absurd (ground (arith, t))
    only_swipe (inr (inr h)) = h

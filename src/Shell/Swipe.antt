-- ===== src/Shell/Swipe.antt =====
-- apps/web/src/shell/DashboardShell.tsx: the swipe from the left edge that opens the drawer of a phone.
pub mod Opening
use go_platform_starter.Prelude.{
  ℕ, ◌+◌, Bool, true, false, ◌&&◌, Option, none, some, List, [], ◌∷◌, ltb, if◌then◌else◌,
}

-- `clientX` and `clientY` of the first touch.
pub record Point : Type 0 where
  pub x : ℕ
  pub y : ℕ

pub data Touch : Type 0 where
  -- with `window.innerWidth`, and the first touch if there is one
  started : ℕ → Option Point → Touch
  moved : Option Point → Touch
  ended : Touch

pub record Swipe : Type 0 where
  pub from : Point
  pub tracking : Bool
  pub menu_open : Bool

abbrev pub is_edge : ℕ → Point → Bool
is_edge width p = ltb width 1024 && ltb p.x 24

-- `dx > 60 && dy < 50`
abbrev pub is_far : Point → Point → Bool
is_far start p = ltb (start.x + 60) p.x && ltb p.y (start.y + 50) && ltb start.y (p.y + 50)

unfoldable pub touch : Touch → Swipe → Swipe
touch (started width none) s = s
touch (started width (some p)) s = record s { from = p; tracking = is_edge width p }
touch (moved none) s = s
touch (moved (some p)) s =
    if s.tracking && is_far s.from p then record s { menu_open = true; tracking = false } else s
touch ended s = record s { tracking = false }

unfoldable pub run : List Touch → Swipe → Swipe
unfolding touch
run [] s = s
run (e ∷ events) s = run events (touch e s)

abbrev pub untouched : Swipe
untouched = record { from = record { x = 0; y = 0 }; tracking = false; menu_open = false }

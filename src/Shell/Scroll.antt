-- ===== src/Shell/Scroll.antt =====
-- apps/web/src/shell/DashboardShell.tsx: the position of each route in the element that scrolls. `room` is the
-- largest `scrollTop` that the content of a route allows; the browser keeps the position within it.
pub mod Restoring
use go_platform_starter.Prelude.{
  ℕ, ◌==◌, Option, none, some, List, [], ◌∷◌, min, if◌then◌else◌, get_or_else, Text, text_same,
}
use go_platform_starter.Specs.Objects.{lookup, put}

-- The route, `scrollTop`, and the positions in the session storage, by route.
pub record Scroller : Type 0 where
  pub path : Text
  pub top : ℕ
  pub saved : List (Text × ℕ)

pub data ScrollEvent : Type 0 where
  scrolled : ℕ → ScrollEvent
  navigated : Text → ScrollEvent

-- `Number(sessionStorage.getItem(key) ?? "0")`
abbrev pub saved_at : Text → List (Text × ℕ) → ℕ
saved_at path saved = get_or_else (lookup path saved) 0

-- The position changes, and the listener saves it.
abbrev pub moved_to : ℕ → Scroller → Scroller
moved_to n s = if n == s.top then s else record s { top = n; saved = put s.path n s.saved }

module _ (room : Text → ℕ) where
  -- `main.scrollTo({ top: n })`, or a scrolling by the user
  unfoldable pub scroll_to : ℕ → Scroller → Scroller
  unfolding put
  scroll_to n s = moved_to (min n (room s.path)) s

  -- The content of another route is there: the browser moves the position within it, the effect's cleanup
  -- saves the position under the old route, and the effect reads that of the new one and scrolls to it.
  unfoldable pub navigate : Text → Scroller → Scroller
  unfolding scroll_to put
  navigate path s =
      let clamped = min s.top (room path) in
      let saved = put s.path clamped s.saved in
      let shown = moved_to clamped (record { path = path; top = s.top; saved = saved }) in
      if text_same s.path path then s else scroll_to (saved_at path saved) shown

  unfoldable pub handle : ScrollEvent → Scroller → Scroller
  unfolding scroll_to navigate
  handle (scrolled n) s = scroll_to n s
  handle (navigated path) s = navigate path s

  unfoldable pub run : List ScrollEvent → Scroller → Scroller
  unfolding handle
  run [] s = s
  run (e ∷ events) s = run events (handle e s)

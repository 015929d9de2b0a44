-- ===== src/Shell/Scroll/Restoring.antt =====
-- Which position a route has when it is shown again.
use go_platform_starter.Prelude.{
  ℕ, ◌==◌, ==_iff, ◌≤◌, false, List, [], ◌∷◌, ◌≡◌, refl, ◌∙◌, ap, arith, inl, inr, Bool-cases, min,
  if◌then◌else◌, Text, text_same, text_same_iff,
}
use go_platform_starter.Specs.Objects.{put, lookup-put}
use go_platform_starter.Shell.Scroll.{
  Scroller, ScrollEvent, scrolled, navigated, saved_at, moved_to, scroll_to, navigate,
}

saved_at-put :
    (p q : Text) (n : ℕ) (saved : List (Text × ℕ))
    → saved_at q (put p n saved) ≡ (if text_same p q then n else saved_at q saved)
saved_at-put p q n saved = ground (arith, lookup-put p q n saved)

-- Where the user has last scrolled to on each route.
pub record Reader : Type 0 where
  pub at_path : Text
  pub position : Text → ℕ

abbrev pub read : ScrollEvent → Reader → Reader
read (scrolled n) r = record r { position = λ q. if text_same r.at_path q then n else r.position q }
read (navigated path) r = record r { at_path = path }

abbrev pub read_all : List ScrollEvent → Reader → Reader
read_all [] r = r
read_all (e ∷ events) r = read_all events (read e r)

-- No scrolling goes beyond the bound.
abbrev pub IsWithin : ℕ → ScrollEvent → Type 0
IsWithin bound (scrolled n) = n ≤ bound
IsWithin bound (navigated path) = Unit

module _ (room : Text → ℕ) (bound : ℕ) (fits : (q : Text) → bound ≤ room q) where
  record Shows (s : Scroller) (r : Reader) : Type 0 where
    same_path : s.path ≡ r.at_path
    top_read : s.top ≡ r.position s.path
    others_saved : (q : Text) → text_same s.path q ≡ false → saved_at q s.saved ≡ r.position q
    in_bound : (q : Text) → r.position q ≤ bound

moved_to-top : (n : ℕ) (s : Scroller) → (moved_to n s).top ≡ n
moved_to-top n s = ground (arith, ==_iff n s.top)

moved_to-path : (n : ℕ) (s : Scroller) → (moved_to n s).path ≡ s.path
moved_to-path n s = ground arith

moved_to-saved_at :
    (n : ℕ) (s : Scroller) (q : Text)
    → text_same s.path q ≡ false
    → saved_at q (moved_to n s).saved ≡ saved_at q s.saved
moved_to-saved_at n s q e = elim (Bool-cases (n == s.top)) [
  | inl same ↦ rw same refl
  | inr new ↦ rw new (saved_at-put s.path q n s.saved ∙ rw e refl)
]

module _ (room : Text → ℕ) (path : Text) (s : Scroller) (e : text_same s.path path ≡ false) where
  -- Going to another route: the position that is read for it, and what is saved for the one left.
  arriving : Scroller
  arriving =
      moved_to (min s.top (room path))
        (record { path = path; top = s.top; saved = put s.path (min s.top (room path)) s.saved })

  navigate-apart :
      navigate room path s
      ≡ scroll_to room (saved_at path (put s.path (min s.top (room path)) s.saved)) arriving
  unfolding navigate arriving
  navigate-apart = rw e refl

  other_way : text_same path s.path ≡ false
  other_way = ground (arith, e, text_same_iff s.path path, text_same_iff path s.path)

  navigate-path : (navigate room path s).path ≡ path
  unfolding scroll_to arriving
  navigate-path = rw navigate-apart (moved_to-path _ arriving ∙ moved_to-path _ _)

  navigate-top :
      (navigate room path s).top
      ≡ min (saved_at path (put s.path (min s.top (room path)) s.saved)) (room path)
  unfolding scroll_to arriving
  navigate-top = rw navigate-apart (
      moved_to-top _ arriving
      ∙ ap (λ p. min (saved_at path (put s.path (min s.top (room path)) s.saved)) (room p))
          (moved_to-path _ _))

  navigate-saved_at : saved_at s.path (navigate room path s).saved ≡ min s.top (room path)
  unfolding scroll_to arriving
  navigate-saved_at = rw navigate-apart (
      moved_to-saved_at _ arriving s.path (rw (moved_to-path _ _) other_way)
      ∙ moved_to-saved_at _ _ s.path other_way
      ∙ saved_at-put s.path s.path (min s.top (room path)) s.saved
      ∙ rw ((text_same_iff s.path s.path).1 refl) refl)

-- A route that is left for another one, and come back to, is shown no further down than the content of the
-- other one allows, wherever it was before.
navigate-navigate-le :
    (room : Text → ℕ) (path : Text) (s : Scroller)
    → text_same s.path path ≡ false
    → (navigate room s.path (navigate room path s)).top ≤ room path
navigate-navigate-le room path s e =
    let there = navigate room path s in
    let apart : text_same there.path s.path ≡ false =
      rw (navigate-path room path s e) (other_way room path s e) in
    let back = navigate-top room s.path there apart in
    let read : saved_at s.path (put there.path (min there.top (room s.path)) there.saved)
        ≡ saved_at s.path there.saved =
      saved_at-put there.path s.path (min there.top (room s.path)) there.saved ∙ rw apart refl in
    omega (arith, back, read, navigate-saved_at room path s e)

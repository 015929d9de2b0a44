-- ===== src/Shell/Shortcuts/Going.antt =====
-- Where the shortcuts lead.
use go_platform_starter.Prelude.{
  ℕ, suc, ◌+◌, ◌≤◌, Bool, true, false, not, ◌&&◌, Option, none, some, List, [], ◌∷◌, ◌≡◌, refl,
  arith, length, filter, if◌then◌else◌, ltb, Text, codes, text_same, text_same_iff,
}
use go_platform_starter.Shell.Shortcuts.{
  KeyDown, Shortcuts, no_shortcuts, target, call_each, own_listener, press, run,
}

-- The key `g`.
abbrev pub starts : KeyDown → Bool
starts k = not k.in_editor && not k.modified && text_same k.key (codes "g")

abbrev pub started : List KeyDown → ℕ
started [] = 0
started (k ∷ keys) = let rest = started keys in if starts k then suc rest else rest

module _ (lower : Text → Text) where
  length-call_each :
      (path : Option Text) (waiting : List ℕ) (visited : List Text)
      → length (call_each path waiting visited) ≤ length waiting + length visited
  length-call_each path [] visited = ground arith
  length-call_each none (w ∷ waiting) visited =
      ground (arith, length-call_each none waiting visited)
  length-call_each (some path) (w ∷ waiting) visited =
      ground (arith, length-call_each (some path) waiting (path ∷ visited))

  length-filter : (p : ℕ → Bool) (ws : List ℕ) → length (filter p ws) ≤ length ws
  length-filter p [] = ground arith
  length-filter p (w ∷ ws) = ground (arith, length-filter p ws)

  own_listener-waiting :
      (k : KeyDown) (s : Shortcuts)
      → (own_listener lower k (record s { waiting = [] })).waiting
        ≡ (if starts k then (k.at + 800) ∷ [] else [])
  own_listener-waiting k s =
      ground (arith, text_same_iff k.key (codes "?"), text_same_iff k.key (codes "g"))

  own_listener-visited :
      (k : KeyDown) (s : Shortcuts) → (own_listener lower k s).visited ≡ s.visited
  own_listener-visited k s = ground arith

  length-press :
      (k : KeyDown) (s : Shortcuts)
      → length (press lower k s).visited + length (press lower k s).waiting
        ≤ length s.visited + length s.waiting + (if starts k then 1 else 0)
  unfolding press
  length-press k s =
      let calls =
        length-call_each (target (lower k.key)) (filter (λ w. ltb k.at w) s.waiting) s.visited in
      let fewer = length-filter (λ w. ltb k.at w) s.waiting in
      rw (own_listener-waiting k s) (ground (arith, calls, fewer))

  length-run :
      (keys : List KeyDown) (s : Shortcuts)
      → length (run lower keys s).visited ≤ length s.visited + length s.waiting + started keys
  unfolding run
  length-run [] s = ground arith
  length-run (k ∷ keys) s = ground (arith, length-run keys (press lower k s), length-press k s)

  -- However the keys are pressed, the shortcuts navigate no more often than `g` is pressed, outside of
  -- editors and without Ctrl or Meta.
  length-run-no_shortcuts :
      (keys : List KeyDown) → length (run lower keys no_shortcuts).visited ≤ started keys
  length-run-no_shortcuts keys = let l = length-run keys no_shortcuts in ground (arith, l)

  one_call :
      (path : Option Text) (b : Bool) (w : ℕ) (visited : List Text)
      → call_each path (if b then w ∷ [] else []) visited
        ≡ (if b then call_each path (0 ∷ []) visited else visited)
  one_call none true w visited = refl
  one_call (some path) true w visited = refl
  one_call none false w visited = refl
  one_call (some path) false w visited = refl

  -- After a `g`, the next key leads to its page when it comes within 800 ms, whether it is typed into an editor
  -- or with Ctrl down; when it comes later, it leads nowhere.
  press-started :
      (g k : KeyDown) (s : Shortcuts)
      → s.waiting ≡ []
      → starts g ≡ true
      → (press lower k (press lower g s)).visited ≡ (
          if ltb k.at (g.at + 800)
          then call_each (target (lower k.key)) (0 ∷ []) s.visited
          else s.visited)
  unfolding press
  press-started g k s none_waits h =
      rw (own_listener-waiting g s, h, none_waits)
        (one_call (target (lower k.key)) (ltb k.at (g.at + 800)) (g.at + 800) s.visited)

-- ===== src/Shell/Shortcuts.antt =====
-- apps/web/src/shell/DashboardShell.tsx: the keyboard shortcuts. `g` sets a handler for the next key, which a
-- timer takes away after 800 ms. Keys come with their times; `lower` is `toLowerCase`.
pub mod Going
use go_platform_starter.Prelude.{
  ℕ, suc, ◌+◌, Bool, true, false, not, ◌&&◌, Option, none, some, List, [], ◌∷◌, ◌++◌, filter,
  if◌then◌else◌, ltb, Text, codes, text_same,
}

-- A key, whether Ctrl or Meta is down, and whether it goes to a control that is edited.
pub record KeyDown : Type 0 where
  pub at : ℕ
  pub key : Text
  pub modified : Bool
  pub in_editor : Bool

-- `paletteOpen`, `helpOpen`, the handlers that wait for a key, by the time at which their timers take them
-- away, and the paths that were navigated to, the newest first.
pub record Shortcuts : Type 0 where
  pub palette_open : Bool
  pub help_open : Bool
  pub waiting : List ℕ
  pub visited : List Text

abbrev pub no_shortcuts : Shortcuts
no_shortcuts = record { palette_open = false; help_open = false; waiting = []; visited = [] }

-- `next`
abbrev pub target : Text → Option Text
target code =
    if text_same code (codes "u")
    then some (codes "/admin/users")
    else if text_same code (codes "r")
    then some (codes "/admin/roles")
    else none

-- One waiting handler takes itself away and calls `next`.
abbrev pub call_each : Option Text → List ℕ → List Text → List Text
call_each path [] visited = visited
call_each none (w ∷ waiting) visited = call_each none waiting visited
call_each (some path) (w ∷ waiting) visited = call_each (some path) waiting (path ∷ visited)

module _ (lower : Text → Text) where
  -- The shell's own listener; the handler that it adds is not called for the same key.
  abbrev pub own_listener : KeyDown → Shortcuts → Shortcuts
  own_listener k s =
      if k.in_editor
      then s
      else if k.modified && text_same (lower k.key) (codes "k")
      then record s { palette_open = not s.palette_open }
      else if text_same k.key (codes "?") && not k.modified
      then record s { help_open = true }
      else if not k.modified && text_same k.key (codes "g")
      then record s { waiting = (k.at + 800) ∷ s.waiting }
      else s

  -- A key: the timers until then, then the listeners in the order in which they were added.
  unfoldable pub press : KeyDown → Shortcuts → Shortcuts
  press k s =
      let old = filter (λ w. ltb k.at w) s.waiting in
      let t = own_listener k (record s { waiting = [] }) in
      record t { visited = call_each (target (lower k.key)) old s.visited }

  unfoldable pub run : List KeyDown → Shortcuts → Shortcuts
  unfolding press
  run [] s = s
  run (k ∷ keys) s = run keys (press k s)

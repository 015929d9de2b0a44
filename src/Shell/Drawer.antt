-- ===== src/Shell/Drawer.antt =====
-- apps/web/src/shell/DashboardShell.tsx: the drawer of a phone, with the keys and the focus while it is open. An
-- element is a number; `native` is where the browser's own Tab leads, with Shift or without. Where nothing has the
-- focus, `document.activeElement` is the body, which is `none` here: it is not null, and its `focus()` does nothing.
pub mod Focus
use go_platform_starter.Prelude.{
  ℕ, Bool, true, false, not, ◌&&◌, ◌==◌, Option, none, some, List, [], ◌∷◌, ltb, if◌then◌else◌,
  get_or_else,
}
use go_platform_starter.Ui.Focus.{last_of}

pub data Key : Type 0 where
  escape other : Key
  tab : Bool → Key

pub data DrawerEvent : Type 0 where
  -- the drawer is asked to open, with `window.innerWidth`
  opened : ℕ → DrawerEvent
  closed : DrawerEvent
  key_down : Key → DrawerEvent
  -- the user, or the page, gives an element the focus
  focused : ℕ → DrawerEvent
  -- the element with the focus loses it to the body
  blurred : DrawerEvent
  -- elements come, go or are disabled: which of them take the focus from now on
  rendered : (ℕ → Bool) → DrawerEvent

-- `menuOpen`, `document.activeElement`, what the effect keeps until its cleanup, `previous`, and which elements
-- take the focus.
pub record Drawer : Type 0 where
  pub menu_open : Bool
  pub active : Option ℕ
  pub effect : Option (Option ℕ)
  pub takes_focus : ℕ → Bool

-- `element.focus()`, on an element or the body: where the focus is afterwards.
abbrev pub focus : Option ℕ → Drawer → Option ℕ
focus none d = d.active
focus (some n) d = if d.takes_focus n then some n else d.active

abbrev is_element : Option ℕ → ℕ → Bool
is_element none n = false
is_element (some a) n = a == n

module _ (native : Bool → Option ℕ → Option ℕ) (panel : ℕ) (nodes : List ℕ) where
  -- Tab under the effect's listener: where the focus is afterwards.
  abbrev pub tab_within : Bool → List ℕ → Drawer → Option ℕ
  tab_within shift [] d = native shift d.active
  tab_within true (first ∷ rest) d =
      if is_element d.active first
      then focus (some (last_of first rest)) d
      else native true d.active
  tab_within false (first ∷ rest) d =
      if is_element d.active (last_of first rest)
      then focus (some first) d
      else native false d.active

  -- `setMenuOpen(false)`, with the cleanup: `previous` is never null, so the menu button is not asked.
  abbrev pub hide : Drawer → Drawer
  hide d = elim d.effect [
    | none ↦ record d { menu_open = false }
    | some previous ↦ record d { menu_open = false; active = focus previous d; effect = none }
  ]

  -- `setMenuOpen(true)`, with the effect.
  abbrev pub show : ℕ → Drawer → Drawer
  show width d =
      if d.menu_open
      then d
      else if ltb width 1024
      then record d { menu_open = true; active = focus (some panel) d; effect = some d.active }
      else record d { menu_open = true }

  abbrev pub press : Key → Drawer → Drawer
  press escape d = elim d.effect [ none ↦ d | some previous ↦ hide d ]
  press other d = d
  press (tab shift) d = elim d.effect [
    | none ↦ record d { active = native shift d.active }
    | some previous ↦ record d { active = tab_within shift nodes d }
  ]

  unfoldable pub handle : DrawerEvent → Drawer → Drawer
  handle (opened width) d = show width d
  handle closed d = hide d
  handle (key_down key) d = press key d
  handle (focused n) d = record d { active = some n }
  handle blurred d = record d { active = none }
  handle (rendered takes_focus) d = record d { takes_focus = takes_focus }

  unfoldable pub run : List DrawerEvent → Drawer → Drawer
  unfolding handle
  run [] d = d
  run (e ∷ events) d = run events (handle e d)

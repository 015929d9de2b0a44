-- ===== src/Ui/Focus.antt =====
-- packages/ui/src/ui-system.tsx: trapTab, which keeps the focus in a dialog. An element is a number; `native`
-- is where the browser's own Tab leads, with Shift or without.
pub mod Cycling
use go_platform_starter.Prelude.{
  ℕ, ◌==◌, Bool, true, false, not, ◌&&◌, Option, none, some, List, [], ◌∷◌, if◌then◌else◌, filter,
}

-- An element that FOCUSABLE selects, and its attributes `hidden` and `aria-hidden`.
pub record Node : Type 0 where
  pub id : ℕ
  pub hidden : Bool
  pub aria_hidden : Bool

abbrev pub ids : List Node → List ℕ
ids [] = []
ids (n ∷ nodes) = if not n.hidden && not n.aria_hidden then n.id ∷ ids nodes else ids nodes

abbrev pub last_of : ℕ → List ℕ → ℕ
last_of a [] = a
last_of a (b ∷ nodes) = last_of b nodes

module _ (native : Bool → ℕ → ℕ) where
  -- Tab, with Shift or without: where the focus is afterwards.
  abbrev pub trap : Bool → ℕ → List ℕ → ℕ → ℕ
  trap shift root [] active = root
  trap true root (first ∷ nodes) active =
      if active == first then last_of first nodes else native true active
  trap false root (first ∷ nodes) active =
      if active == last_of first nodes then first else native false active

  -- `trapTab`, for a key that is Tab or not, in a dialog that is there or not.
  unfoldable pub trap_tab : Bool → Bool → Option (ℕ × List Node) → ℕ → ℕ
  trap_tab false shift dialog active = active
  trap_tab true shift none active = native shift active
  trap_tab true shift (some (root, nodes)) active = trap shift root (ids nodes) active

-- ===== src/Ui/Window/Cover.antt =====
-- The window covers what the viewport shows.
use go_platform_starter.Prelude.{ℕ, ◌+◌, ◌-◌, ◌*◌, ◌/◌, ◌%◌, ◌≤◌, ◌<◌, ◌≡◌, arith}
use go_platform_starter.Ui.Window.{virtual_list}
use native.Mathlib.Nat.{div-add-mod'}

mul_mono : (a b n : ℕ) → a ≤ b → a * n ≤ b * n
mul_mono a b n h = grind arith

-- A row that ends below the top is not before the quotient, and one that begins above the bottom is
-- before the rounded one.
not_before : (q r i h top : ℕ) → q * h + r ≡ top → top < (i + 1) * h → q ≤ i
not_before q r i h top e below = grind (arith, mul_mono (i + 1) q h)

before_end : (q r i h bottom : ℕ) → r < h → q * h + r ≡ bottom + h - 1 → i * h < bottom → i < q
before_end q r i h bottom small e above = grind (arith, mul_mono q i h)

-- Every row of the list that the viewport shows a part of is rendered.
pub virtual_list-covers :
    (count row_height viewport_height scroll_top overscan i : ℕ)
    → 0 < row_height
    → i < count
    → scroll_top < (i + 1) * row_height
    → i * row_height < scroll_top + viewport_height
    → let w = virtual_list count row_height viewport_height scroll_top overscan in
      (w.start ≤ i) × (i < w.end) × (w.end ≤ count)
unfolding virtual_list
virtual_list-covers count row_height viewport_height scroll_top overscan i tall here below above =
    let bottom = scroll_top + viewport_height in
    let first =
      not_before (scroll_top / row_height) (scroll_top % row_height) i row_height scroll_top
        (div-add-mod' scroll_top row_height) below in
    let last =
      before_end ((bottom + row_height - 1) / row_height) ((bottom + row_height - 1) % row_height) i
        row_height bottom (omega arith) (div-add-mod' (bottom + row_height - 1) row_height) above in
    (omega (arith, first), omega (arith, last, here), omega arith)

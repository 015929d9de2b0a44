-- ===== src/Users/Directory/Paging.antt =====
-- The pager stays on the pages that there are.
use go_platform_starter.Prelude.{
  ℕ, zero, suc, ◌+◌, ◌-◌, ◌*◌, ◌/◌, ◌%◌, ◌≤◌, ◌<◌, min, max, ◌≡◌, ap, ◌∙◌, Bool-cases, inl, inr,
  refl, sym, arith, leb, ◌==◌, max,
}
use go_platform_starter.Users.Directory.{
  Directory, page_count, current_page, Control, first, prev, next, last, jump, rows, turn,
}
use native.Mathlib.Nat.{div-add-mod', mul-div_cancel}
use native.Mathlib.Numerals.{sub-one}

pages_of_quotient :
    (total size q r : ℕ)
    → 0 < size
    → r < size
    → q * size + r ≡ total + size - 1
    → (1 ≤ max 1 q) × (total ≤ max 1 q * size) × ((max 1 q - 1) * size < max 1 total)
pages_of_quotient total size zero r h small e = (omega arith, omega arith, omega arith)
pages_of_quotient total size (suc k) r h small e =
    let pages : max 1 (suc k) ≡ suc k = omega arith in
    (omega arith, rw pages (omega arith), rw pages (simp sub-one (omega arith)))

-- The pages cover the total, and the last of them begins within it.
page_count_bounds :
    (total size : ℕ)
    → 0 < size
    → (1 ≤ page_count total size)
      × (total ≤ page_count total size * size)
      × ((page_count total size - 1) * size < max 1 total)
unfolding page_count
page_count_bounds total size h =
    pages_of_quotient total size ((total + size - 1) / size) ((total + size - 1) % size) h
      (omega arith) (div-add-mod' (total + size - 1) size)

-- The page starts at one of the offsets of the pager: a multiple of the page size, below the total.
pub record IsOnPage (parts total : ℕ) (d : Directory) : Type 0 where
  pub some_rows : 0 < d.page_size
  pub index : ℕ
  pub aligned : d.offset ≡ index * (d.page_size * parts)
  pub within : index * d.page_size < max 1 total

mul_mono : (a b n : ℕ) → a ≤ b → a * n ≤ b * n
mul_mono a b n h = grind arith

mul_cancel_lt : (a b n : ℕ) → a * n < b * n → a < b
mul_cancel_lt a b n h = elim (Bool-cases (leb b a)) [
  | inl e ↦ absurd (omega (arith, h, mul_mono b a n (ground (arith, e))))
  | inr e ↦ ground (arith, e)
]

max_mul : (k p : ℕ) → max p (k * p) ≡ max 1 k * p
max_mul zero p = omega arith
max_mul (suc k) p = let more : max 1 (suc k) ≡ suc k = omega arith in rw more (omega arith)

min_mul : (a b p : ℕ) → min (a * p) (b * p) ≡ min a b * p
min_mul a b p = elim (Bool-cases (leb a b)) [
  | inl e ↦
      let first : min a b ≡ a = ground (arith, e) in
      rw first (omega (arith, mul_mono a b p (ground (arith, e))))
  | inr e ↦
      let second : min a b ≡ b = ground (arith, e) in
      rw second (omega (arith, mul_mono b a p (ground (arith, e))))
]

-- The clamping of a page that is typed, of a whole number of parts.
clamped : (pages k p : ℕ) → min (pages * p) (max p (k * p)) ≡ min pages (max 1 k) * p
clamped pages k p = rw (max_mul k p) (min_mul pages (max 1 k) p)

-- A control of the pager that only moves the page.
abbrev moved : Directory → ℕ → Directory
moved d offset = record d { offset = offset }

module _ (parts total : ℕ) (d : Directory) (some_rows : 0 < d.page_size) where
  moved-IsOnPage :
      (i offset : ℕ)
      → offset ≡ i * (d.page_size * parts)
      → i * d.page_size < max 1 total
      → IsOnPage parts total (moved d offset)
  moved-IsOnPage i offset e k = record { some_rows = some_rows; index = i; aligned = e; within = k }

  at_start : IsOnPage parts total (moved d 0)
  at_start = moved-IsOnPage 0 0 (omega arith) (omega arith)

  before :
      (i : ℕ)
      → d.offset ≡ i * (d.page_size * parts)
      → i * d.page_size < max 1 total
      → IsOnPage parts total (moved d (d.offset - d.page_size * parts))
  before zero e k =
      moved-IsOnPage 0 (d.offset - d.page_size * parts) (omega (arith, e)) (omega arith)
  before (suc i) e k =
      moved-IsOnPage i (d.offset - d.page_size * parts) (omega (arith, e)) (omega (arith, k))

  after :
      (i : ℕ)
      → d.offset ≡ i * (d.page_size * parts)
      → d.offset + d.page_size * parts < total * parts
      → IsOnPage parts total (moved d (d.offset + d.page_size * parts))
  after i e k =
      let whole : suc i * d.page_size * parts ≡ d.offset + d.page_size * parts = grind (arith, e) in
      let inside = mul_cancel_lt (suc i * d.page_size) total parts (omega (arith, whole, k)) in
      moved-IsOnPage (suc i) (d.offset + d.page_size * parts) (omega (arith, e))
        (omega (arith, inside))

  -- A whole page that is typed.
  jump_offset : (i : ℕ) → (suc i * parts - parts) * d.page_size ≡ i * (d.page_size * parts)
  jump_offset i =
      let less : suc i * parts - parts ≡ i * parts = omega arith in rw less (grind arith)

  reached :
      (i target : ℕ)
      → target ≡ suc i * parts
      → suc i ≤ page_count total d.page_size
      → IsOnPage parts total (moved d ((target - parts) * d.page_size))
  reached i target e k =
      let (low, cover, top) = page_count_bounds total d.page_size some_rows in
      moved-IsOnPage i ((target - parts) * d.page_size) (rw e (jump_offset i)) (
        omega (
          arith,
          top,
          mul_mono i (page_count total d.page_size - 1) d.page_size (omega (arith, k)),
        ))

  jumped :
      (k page : ℕ)
      → page ≡ k * parts
      → IsOnPage parts total (
          moved d
            ((min (page_count total d.page_size * parts) (max parts page) - parts) * d.page_size))
  jumped k page e =
      let pages = page_count total d.page_size in
      let (low, cover, top) = page_count_bounds total d.page_size some_rows in
      let i = min pages (max 1 k) - 1 in
      let one_more : suc i ≡ min pages (max 1 k) = omega (arith, low) in
      reached i (min (pages * parts) (max parts page))
        (rw e (clamped pages k parts) ∙ ap (λ n. n * parts) (sym one_more))
        (omega (arith, one_more))

-- Every control of the pager, enabled or not, keeps the page on an offset of the pager that lies within the
-- total, where the page that is typed is a whole number; a new number of rows, which must not be 0, goes to the
-- first page.
pub turn-IsOnPage :
    (parts total : ℕ) (c : Control) (d : Directory)
    → ((size : ℕ) → c ≡ rows size → 0 < size)
    → ((page : ℕ) → c ≡ jump page → (k : ℕ) × (page ≡ k * parts))
    → IsOnPage parts total d
    → IsOnPage parts total (turn parts total c d)
unfolding turn
turn-IsOnPage parts total first d ok typed h = elim (Bool-cases (d.offset == 0)) [
  | inl e ↦ rw e h
  | inr e ↦ rw e (at_start parts total d h.some_rows)
]
turn-IsOnPage parts total prev d ok typed h = elim (Bool-cases (d.offset == 0)) [
  | inl e ↦ rw e h
  | inr e ↦ rw e (before parts total d h.some_rows h.index h.aligned h.within)
]
turn-IsOnPage parts total next d ok typed h =
    elim (Bool-cases (leb (total * parts) (d.offset + d.page_size * parts))) [
      | inl e ↦ rw e h
      | inr e ↦ rw e (after parts total d h.some_rows h.index h.aligned (ground arith))
    ]
turn-IsOnPage parts total last d ok typed h =
    elim (Bool-cases
      (leb (page_count total d.page_size) (current_page d.offset (d.page_size * parts)))) [
        | inl e ↦ rw e h
        | inr e ↦
            let (low, cover, top) = page_count_bounds total d.page_size h.some_rows in
            rw e (
              moved-IsOnPage parts total d h.some_rows (page_count total d.page_size - 1)
                ((page_count total d.page_size - 1) * (d.page_size * parts)) refl top)
      ]
turn-IsOnPage parts total (jump page) d ok typed h =
    let (k, e) = typed page refl in jumped parts total d h.some_rows k page e
turn-IsOnPage parts total (rows size) d ok typed h = record {
  some_rows = ok size refl;
  index = 0;
  aligned = omega arith;
  within = omega arith;
}

index_lt :
    (i pages size total : ℕ)
    → 0 < size
    → 1 ≤ pages
    → total ≤ pages * size
    → i * size < max 1 total
    → i < pages
index_lt i pages size total h low cover k = grind (arith, mul_mono pages i size, mul_mono 1 i size)

positive_mul : (a b : ℕ) → 0 < a → 0 < b → 0 < a * b
positive_mul a b h k = grind arith

-- On such an offset the page that is shown has a number from one to the number of pages.
current_page_bounds :
    (parts total : ℕ) (d : Directory)
    → 0 < parts
    → IsOnPage parts total d
    → (1 ≤ current_page d.offset (d.page_size * parts))
      × (current_page d.offset (d.page_size * parts) ≤ page_count total d.page_size)
unfolding current_page
current_page_bounds parts total d some_parts h =
    let (low, cover, top) = page_count_bounds total d.page_size h.some_rows in
    let quotient : d.offset / (d.page_size * parts) ≡ h.index =
      ap (λ n. n / (d.page_size * parts)) h.aligned
      ∙ mul-div_cancel h.index (positive_mul d.page_size parts h.some_rows some_parts) in
    let below : h.index < page_count total d.page_size =
      index_lt h.index (page_count total d.page_size) d.page_size total h.some_rows low cover
        h.within in
    (omega arith, omega (arith, quotient, below))

not_half : (i s : ℕ) → 0 < s → ¬ (1 * s ≡ i * (s * 2))
not_half zero s h e = omega (arith, h, e)
not_half (suc i) s h e = omega (arith, h, e)

-- A typed page and a half, where there is more than one page, leads to where no page begins.
turn-jump_between :
    (total : ℕ) (d : Directory)
    → 0 < d.page_size
    → d.page_size < total
    → ¬ IsOnPage 2 total (turn 2 total (jump 3) d)
unfolding turn
turn-jump_between total d some_rows more h =
    let (low, cover, top) = page_count_bounds total d.page_size some_rows in
    let two =
      mul_cancel_lt 1 (page_count total d.page_size) d.page_size (omega (arith, more, cover)) in
    let one : min (page_count total d.page_size * 2) 3 - 2 ≡ 1 = omega (arith, two) in
    not_half h.index d.page_size some_rows (ap (λ n. n * d.page_size) (sym one) ∙ h.aligned)

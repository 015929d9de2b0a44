-- ===== src/Checks/Coverage/Gating.antt =====
-- Which rows of the profile the gate counts.
use go_platform_starter.Prelude.{
  ℕ, zero, suc, ◌+◌, ◌-◌, ◌≤◌, ◌<◌, ◌==◌, ==_iff, Bool, true, false, ◌||◌, Option, none, some, List,
  [], ◌∷◌, ◌≡◌, ◌↔◌, inl, inr, refl, sym, arith, Bool-cases, get_or_else, includes, ℕ_key, Text,
  is_empty,
}
use go_platform_starter.Specs.Objects.{lookup}
use go_platform_starter.Checks.Coverage.{Row, range, changed_lines, has_line, is_changed_row}
use go_platform_starter.Checks.Coverage.Changed.{IsChanged, changed_lines_iff}

has_line-nil : (numbers : List ℕ) → has_line numbers [] ≡ false
has_line-nil [] = refl
has_line-nil (n ∷ numbers) = has_line-nil numbers

has_line-range :
    (start count : ℕ) (lines : List ℕ)
    → (has_line (range start count) lines ≡ true)
      ↔ ((n : ℕ) × (start ≤ n) × (n < start + count) × (includes n lines ≡ true))
has_line-range start zero lines =
    ((λ h. absurd (ground (arith, h))), (λ h. absurd (omega (arith, h.1, h.2))))
has_line-range start (suc count) lines =
    let rest = has_line-range (start + 1) count lines in
    (
      (λ h. elim (Bool-cases (includes start lines)) [
        | inl e ↦ (start, omega arith, omega arith, e)
        | inr e ↦
            let (n, l, m, k) = rest.0 (rw e at h) in (n, omega (arith, l), omega (arith, m), k)
      ]),
      (λ h. first h.0 h.1 h.2 h.3 rest.1),
    )
  where
    first :
        (n : ℕ)
        → start ≤ n
        → n < start + suc count
        → includes n lines ≡ true
        → (((m : ℕ) × (start + 1 ≤ m) × (m < start + 1 + count) × (includes m lines ≡ true))
            → has_line (range (start + 1) count) lines ≡ true)
        → (includes start lines || has_line (range (start + 1) count) lines) ≡ true
    first n l m k f = elim (Bool-cases (n == start)) [
      | inl e ↦ let at_start = (==_iff n start).0 e in rw (← at_start) (rw k refl)
      | inr e ↦
          rw (f (n, ground (arith, l, e), omega (arith, m), k)) (or_true (includes start lines))
    ]
      where
        or_true : (b : Bool) → (b || true) ≡ true
        or_true b = ground arith

is_changed_row-eq :
    (changed : List (Text × List ℕ)) (row : Row)
    → is_changed_row changed row
      ≡ has_line
          (range row.start (row.end + 1 - row.start))
          (get_or_else (lookup row.file changed) [])
unfolding is_changed_row
is_changed_row-eq changed row = by_lookup (lookup row.file changed)
  where
    numbers : List ℕ
    numbers = range row.start (row.end + 1 - row.start)

    by_lookup :
        (found : Option (List ℕ))
        → elim found [ none ↦ false | some lines ↦ has_line numbers lines ]
          ≡ has_line numbers (get_or_else found [])
    by_lookup none = sym (has_line-nil numbers)
    by_lookup (some lines) = refl

-- A row of the profile is counted by the gate exactly if one of its lines is a changed one of its file: some
-- line of the diff names the file, which is not one that is left out, and before another file is named a
-- hunk has that line.
pub is_changed_row_iff :
    (diff : List Text) (row : Row)
    → is_empty row.file ≡ false
    → (is_changed_row (changed_lines diff) row ≡ true)
      ↔ ((n : ℕ) × (row.start ≤ n) × (n ≤ row.end) × IsChanged row.file n diff)
is_changed_row_iff diff row h =
    let lines = get_or_else (lookup row.file (changed_lines diff)) [] in
    let inside = has_line-range row.start (row.end + 1 - row.start) lines in
    rw (is_changed_row-eq (changed_lines diff) row) (
      (λ c.
          let (n, l, m, k) = inside.0 c in
          (n, l, omega (arith, l, m), (changed_lines_iff row.file n h diff).0 k)),
      (λ c.
          let (n, l, m, k) = c in
          inside.1 (n, l, omega (arith, l, m), (changed_lines_iff row.file n h diff).1 k)),
    )

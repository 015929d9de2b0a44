-- ===== src/Checks/Coverage/Changed.antt =====
-- Which lines of which files a diff changes.
use go_platform_starter.Prelude.{
  ℕ, zero, suc, ◌+◌, ◌≤◌, ◌<◌, Bool, true, false, ◌&&◌, ◌||◌, Option, none, some, List, [], ◌∷◌,
  ◌++◌, ◌≡◌, ◌↔◌, ◌⊎◌, inl, inr, refl, sym, ap, ◌∙◌, arith, Bool-cases, ltb, leb, get_or_else,
  includes, includes-append, ℕ_key, Text, text_same, text_same_iff, is_empty,
}
use go_platform_starter.Specs.Objects.{lookup, put, lookup-put}
use go_platform_starter.Checks.Coverage.{
  hunk, named_file, range, Diff, add_hunk, read_named, read_line, read_diff, changed_lines,
}

-- A hunk of the lines, before any other file is named, has the number `n` in the new file.
pub data IsHunked (n : ℕ) : List Text → Type 0 where
  here :
      {line : Text} {lines : List Text} (start : ℕ) (count : Option ℕ)
      → named_file line ≡ none
      → hunk line ≡ some (start, count)
      → start ≤ n
      → n < start + get_or_else count 1
      → IsHunked n (line ∷ lines)
  below :
      {line : Text} {lines : List Text}
      → named_file line ≡ none
      → IsHunked n lines
      → IsHunked n (line ∷ lines)

-- Somewhere a line names the file, and a hunk under it has the number.
pub data IsChanged (file : Text) (n : ℕ) : List Text → Type 0 where
  under :
      {line : Text} {lines : List Text}
      → named_file line ≡ some file
      → IsHunked n lines
      → IsChanged file n (line ∷ lines)
  later :
      {line : Text} {lines : List Text} → IsChanged file n lines → IsChanged file n (line ∷ lines)

abbrev pub line_in : Text → ℕ → List (Text × List ℕ) → Bool
line_in file n changed = includes n (get_or_else (lookup file changed) [])

abbrev hunk_has : ℕ → Option (ℕ × Option ℕ) → Bool
hunk_has n none = false
hunk_has n (some (start, count)) = includes n (range start (get_or_else count 1))

includes-range :
    (n start count : ℕ) → includes n (range start count) ≡ (leb start n && ltb n (start + count))
includes-range n start zero = ground arith
includes-range n start (suc count) = ground (arith, includes-range n (start + 1) count)

-- What is changed in a file when a line that names none has been read.
line_in-add_hunk :
    (file : Text) (n : ℕ) (found : Option (ℕ × Option ℕ)) (d : Diff)
    → is_empty file ≡ false
    → line_in file n (add_hunk found d).changed
      ≡ (line_in file n d.changed || (text_same d.file file && hunk_has n found))
line_in-add_hunk file n none d h = ground arith
line_in-add_hunk file n (some (start, count)) d h = elim (Bool-cases (is_empty d.file)) [
  | inl e ↦ rw e (no_file e)
  | inr e ↦ rw e (with_file (text_same d.file file) refl)
]
  where
    added : List ℕ
    added = get_or_else (lookup d.file d.changed) [] ++ range start (get_or_else count 1)

    no_file :
        is_empty d.file ≡ true
        → line_in file n d.changed ≡ (
            line_in file n d.changed || (text_same d.file file && hunk_has n (some (start, count))))
    no_file e = ground (arith, e, h, text_same_iff d.file file)

    with_file :
        (same : Bool)
        → text_same d.file file ≡ same
        → line_in file n (put d.file added d.changed) ≡ (
            line_in file n d.changed || (text_same d.file file && hunk_has n (some (start, count))))
    with_file true e =
        rw (lookup-put d.file file added d.changed, e)
          (includes-append n (get_or_else (lookup d.file d.changed) [])
              (range start (get_or_else count 1))
            ∙ ap
                (λ f.
                  includes n (get_or_else (lookup f d.changed) [])
                  || includes n (range start (get_or_else count 1)))
                ((text_same_iff d.file file).0 e))
    with_file false e = rw (lookup-put d.file file added d.changed, e) (ground arith)

module _ (file : Text) (n : ℕ) (some_file : is_empty file ≡ false) where
  -- What makes a number one of the changed ones of the file, from a state on.
  abbrev Counts : Diff → List Text → Type 0
  Counts d lines =
      (line_in file n d.changed ≡ true)
      ⊎ ((d.file ≡ file) × IsHunked n lines)
      ⊎ IsChanged file n lines

  hunk-here :
      (line : Text) (lines : List Text) (found : Option (ℕ × Option ℕ))
      → named_file line ≡ none
      → hunk line ≡ found
      → hunk_has n found ≡ true
      → IsHunked n (line ∷ lines)
  hunk-here line lines none e f h = absurd (ground (arith, h))
  hunk-here line lines (some (start, count)) e f h =
      let inside = includes-range n start (get_or_else count 1) in
      here start count e f (ground (arith, h, inside)) (ground (arith, h, inside))

  under-cases :
      {line : Text} {lines : List Text}
      → IsChanged file n (line ∷ lines)
      → ((named_file line ≡ some file) × IsHunked n lines) ⊎ IsChanged file n lines
  under-cases (under e h) = inl (e, h)
  under-cases (later h) = inr h

  here-cases :
      {line : Text} {lines : List Text}
      → IsHunked n (line ∷ lines)
      → (named_file line ≡ none) × ((hunk_has n (hunk line) ≡ true) ⊎ IsHunked n lines)
  here-cases (here start count e f l m) =
      (e, inl (rw f (ground (arith, l, m, includes-range n start (get_or_else count 1)))))
  here-cases (below e h) = (e, inr h)

  named-before :
      (g line : Text) (lines : List Text) (d : Diff)
      → named_file line ≡ some g
      → Counts d (line ∷ lines)
      → Counts (record d { file = g }) lines
  named-before g line lines d e (inl c) = inl c
  named-before g line lines d e (inr (inl (f, h))) = absurd (ground (arith, e, (here-cases h).0))
  named-before g line lines d e (inr (inr c)) = elim (under-cases c) [
    | inl (f, h) ↦ inr (inl (ground (arith, e, f), h))
    | inr c' ↦ inr (inr c')
  ]

  named-after :
      (g line : Text) (lines : List Text) (d : Diff)
      → named_file line ≡ some g
      → Counts (record d { file = g }) lines
      → Counts d (line ∷ lines)
  named-after g line lines d e (inl c) = inl c
  named-after g line lines d e (inr (inl (f, h))) = inr (inr (under (e ∙ ap some f) h))
  named-after g line lines d e (inr (inr c)) = inr (inr (later c))

  added :
      (line : Text) (d : Diff)
      → line_in file n (add_hunk (hunk line) d).changed
        ≡ (line_in file n d.changed || (text_same d.file file && hunk_has n (hunk line)))
  added line d = line_in-add_hunk file n (hunk line) d some_file

  add_hunk-file : (found : Option (ℕ × Option ℕ)) (d : Diff) → (add_hunk found d).file ≡ d.file
  add_hunk-file none d = refl
  add_hunk-file (some (start, count)) d = ground arith

  unnamed-before :
      (line : Text) (lines : List Text) (d : Diff)
      → named_file line ≡ none
      → Counts d (line ∷ lines)
      → Counts (add_hunk (hunk line) d) lines
  unnamed-before line lines d e (inl c) = inl (rw (added line d, c) refl)
  unnamed-before line lines d e (inr (inl (f, h))) = elim ((here-cases h).1) [
    | inl has ↦ inl (rw (added line d, (text_same_iff d.file file).1 f, has) (ground arith))
    | inr h' ↦ inr (inl (add_hunk-file (hunk line) d ∙ f, h'))
  ]
  unnamed-before line lines d e (inr (inr c)) = elim (under-cases c) [
    | inl (f, h) ↦ absurd (ground (arith, e, f))
    | inr c' ↦ inr (inr c')
  ]

  either-of :
      (line : Text) (lines : List Text) (d : Diff)
      → named_file line ≡ none
      → (line_in file n d.changed || (text_same d.file file && hunk_has n (hunk line))) ≡ true
      → Counts d (line ∷ lines)
  either-of line lines d e h = elim (Bool-cases (line_in file n d.changed)) [
    | inl c ↦ inl c
    | inr c ↦
        let both : (text_same d.file file && hunk_has n (hunk line)) ≡ true = rw c at h in
        inr (
          inl (
            (text_same_iff d.file file).0 (ground (arith, both)),
            hunk-here line lines (hunk line) e refl (ground (arith, both)),
          ))
  ]

  unnamed-after :
      (line : Text) (lines : List Text) (d : Diff)
      → named_file line ≡ none
      → Counts (add_hunk (hunk line) d) lines
      → Counts d (line ∷ lines)
  unnamed-after line lines d e (inl c) = either-of line lines d e (rw (added line d) at c)
  unnamed-after line lines d e (inr (inl (f, h))) =
      inr (inl (sym (add_hunk-file (hunk line) d) ∙ f, below e h))
  unnamed-after line lines d e (inr (inr c)) = inr (inr (later c))

  read_line-Counts :
      (line : Text) (lines : List Text) (d : Diff)
      → Counts d (line ∷ lines) ↔ Counts (read_line line d) lines
  unfolding read_line
  read_line-Counts line lines d = by_name (named_file line) refl
    where
      by_name :
          (named : Option Text)
          → named_file line ≡ named
          → Counts d (line ∷ lines) ↔ Counts (read_named named line d) lines
      by_name none e = (unnamed-before line lines d e, unnamed-after line lines d e)
      by_name (some g) e = (named-before g line lines d e, named-after g line lines d e)

  nothing_left : (d : Diff) → Counts d [] → line_in file n d.changed ≡ true
  nothing_left d (inl c) = c
  nothing_left d (inr (inl (f, h))) = elim h [ ]
  nothing_left d (inr (inr c)) = elim c [ ]

  read_diff_iff :
      (lines : List Text) (d : Diff)
      → (line_in file n (read_diff lines d).changed ≡ true) ↔ Counts d lines
  unfolding read_diff
  read_diff_iff [] d = ((λ c. inl c), nothing_left d)
  read_diff_iff (line ∷ lines) d =
      let step = read_line-Counts line lines d in
      let rest = read_diff_iff lines (read_line line d) in
      ((λ c. step.1 (rest.0 c)), (λ c. rest.1 (step.0 c)))

  pub changed_lines_iff :
      (lines : List Text) → (line_in file n (changed_lines lines) ≡ true) ↔ IsChanged file n lines
  unfolding changed_lines
  changed_lines_iff lines =
      let whole = read_diff_iff lines (record { file = []; changed = [] }) in
      ((λ c. only (whole.0 c)), (λ c. whole.1 (inr (inr c))))
    where
      only : Counts (record { file = []; changed = [] }) lines → IsChanged file n lines
      only (inl c) = absurd (ground (arith, c))
      only (inr (inl (f, h))) = absurd (ground (arith, some_file, rw (← f) at some_file))
      only (inr (inr c)) = c

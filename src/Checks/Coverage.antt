-- ===== src/Checks/Coverage.antt =====
-- scripts/check-coverage.mjs: the gate on the coverage of the changed lines, given the lines of the diff and the
-- rows of the profile. A percentage is kept as a fraction.
pub mod Changed
pub mod Gating
use go_platform_starter.Prelude.{
  ℕ, zero, suc, ◌+◌, ◌-◌, ◌*◌, ◌==◌, Bool, true, false, not, ◌&&◌, ◌||◌, Option, none, some, List,
  [], ◌∷◌, ◌++◌, map, filter, any, drop, ltb, leb, if◌then◌else◌, get_or_else, Text, codes,
  text_same, is_empty, starts_with, ends_with, has_text, includes, ℕ_key,
}
use go_platform_starter.Specs.Objects.{lookup, put}

-- A row of the profile.
pub record Row : Type 0 where
  pub file : Text
  pub start : ℕ
  pub end : ℕ
  pub statements : ℕ
  pub count : ℕ

abbrev is_digit : ℕ → Bool
is_digit c = leb b'0' c && leb c b'9'

-- `(\d+)`, greedy: the number, where there is a digit, and the rest
abbrev more_digits : ℕ → Text → ℕ × Text
more_digits n [] = (n, [])
more_digits n (c ∷ s) =
    let longer = more_digits (n * 10 + (c - b'0')) s in if is_digit c then longer else (n, c ∷ s)

abbrev number : Text → Option (ℕ × Text)
number [] = none
number (c ∷ s) = if is_digit c then some (more_digits (c - b'0') s) else none

-- `(?:,(\d+))?`
abbrev after_comma : Text → Option (ℕ × Text) → Option ℕ × Text
after_comma s none = (none, s)
after_comma s (some (n, rest)) = (some n, rest)

abbrev comma_number : Text → Option ℕ × Text
comma_number [] = (none, [])
comma_number (c ∷ s) = if c == b',' then after_comma (c ∷ s) (number s) else (none, c ∷ s)

-- The text behind a prefix.
abbrev behind : Text → Text → Option Text
behind [] s = some s
behind (c ∷ p) [] = none
behind (c ∷ p) (d ∷ s) = if c == d then behind p s else none

infixl 5 ◌>>=◌
abbrev ◌>>=◌ : {A B : Type 0} → Option A → (A → Option B) → Option B
none >>= f = none
some a >>= f = f a

-- `/^@@ -\d+(?:,\d+)? \+(\d+)(?:,(\d+))? @@/`: the start, and the count
abbrev pub hunk : Text → Option (ℕ × Option ℕ)
hunk line = do
  old ← behind (codes "@@ -") line
  (old_start, more) ← number old
  let (old_count, left) = comma_number more
  new ← behind (codes " +") left
  (start, rest) ← number new
  let (count, end) = comma_number rest
  done ← behind (codes " @@") end
  some (start, count)

-- `replaceAll("\\", "/")`
abbrev slashed : Text → Text
slashed s = map (λ c. if c == 92 then b'/' else c) s

-- Files whose lines the gate leaves out.
abbrev pub is_left_out : Text → Bool
is_left_out file =
    ends_with (codes "_test.go") file
    || ends_with (codes "/main.go") file
    || has_text (codes "/gen/") file

-- The file that a line names, empty where it is left out; `none` for any other line.
unfoldable pub named_file : Text → Option Text
unfolding starts_with has_text
named_file line =
    if not (starts_with (codes "+++ b/") line)
    then none
    else if is_left_out (slashed (drop 6 line))
    then some []
    else some (slashed (drop 6 line))

-- The numbers from `start` on, `count` of them.
abbrev pub range : ℕ → ℕ → List ℕ
range start zero = []
range start (suc count) = start ∷ range (start + 1) count

-- `file` and `changedLines`; the lines of a file are a list for a set.
pub record Diff : Type 0 where
  pub file : Text
  pub changed : List (Text × List ℕ)

abbrev pub add_hunk : Option (ℕ × Option ℕ) → Diff → Diff
add_hunk none d = d
add_hunk (some (start, count)) d = if is_empty d.file then d else record d {
  changed =
      put d.file (get_or_else (lookup d.file d.changed) [] ++ range start (get_or_else count 1))
        d.changed;
}

abbrev pub read_named : Option Text → Text → Diff → Diff
read_named none line d = add_hunk (hunk line) d
read_named (some file) line d = record d { file = file }

unfoldable pub read_line : Text → Diff → Diff
unfolding named_file put
read_line line d = read_named (named_file line) line d

unfoldable pub read_diff : List Text → Diff → Diff
unfolding read_line
read_diff [] d = d
read_diff (line ∷ lines) d = read_diff lines (read_line line d)

-- `changedLines`, of the lines of the diff
unfoldable pub changed_lines : List Text → List (Text × List ℕ)
unfolding read_diff
changed_lines lines = (read_diff lines (record { file = []; changed = [] })).changed

abbrev pub has_line : List ℕ → List ℕ → Bool
has_line [] lines = false
has_line (n ∷ numbers) lines = includes n lines || has_line numbers lines

-- The test of `changedRows`.
unfoldable pub is_changed_row : List (Text × List ℕ) → Row → Bool
is_changed_row changed row = elim (lookup row.file changed) [
  | none ↦ false
  | some lines ↦ has_line (range row.start (row.end + 1 - row.start)) lines
]

abbrev pub total : List Row → ℕ
total [] = 0
total (row ∷ rows) = row.statements + total rows

abbrev pub covered : List Row → ℕ
covered [] = 0
covered (row ∷ rows) = (if ltb 0 row.count then row.statements else 0) + covered rows

-- `percent < minimum`, where the percentage of nothing is 100
abbrev pub is_below : ℕ → List Row → Bool
is_below minimum rows =
    if total rows == 0 then ltb 100 minimum else ltb (covered rows * 100) (minimum * total rows)

abbrev is_none : List (Text × List ℕ) → Bool
is_none [] = true
is_none (_ ∷ _) = false

-- Whether the script ends with an error at its end.
unfoldable pub rejects : ℕ → List Text → List Row → Bool
unfolding changed_lines is_changed_row
rejects minimum diff rows =
    let changed = changed_lines diff in
    not (is_none changed) && is_below minimum (filter (is_changed_row changed) rows)

-- ===== src/Users/Csv/RoundTrip.antt =====
-- What is exported is read back.
use go_platform_starter.Prelude.{
  ℕ, true, false, ◌||◌, List, [], ◌∷◌, ◌++◌, append_assoc, append-nil, ◌≡◌, refl, sym, ap, ◌∙◌,
  arith, ◌==◌, any, All, Text, is_empty, trim, lacks, Bool-cases, inl, inr,
}
use go_platform_starter.Users.Csv.Reading.{grown, scan-enclosed, scan_nil, csv_rows-table}
use go_platform_starter.Users.Csv.{
  quote, is_special, csv_cell, csv_text, Parser, push, is_filled, end_row, next_is, scan,
  new_parser, csv_rows,
}

-- A cell that comes back as it was: it has no space at its ends, and a carriage return stands in it
-- only beside a character for which the cell is quoted.
pub record IsPortable (cell : Text) : Type 0 where
  pub trimmed : trim cell ≡ cell
  pub unbroken : (any is_special cell || lacks b'\r' cell) ≡ true

scan_plain_step :
    (p : Parser) (c : ℕ) (rest : Text)
    → p.quoted ≡ false
    → is_special c ≡ false
    → (c == b'\r') ≡ false
    → scan false p (c ∷ rest) ≡ scan false (push c p) rest
unfolding scan
scan_plain_step p c rest out plain line = ground arith

scan_plain :
    (t rest : Text) (p : Parser)
    → p.quoted ≡ false
    → any is_special t ≡ false
    → lacks b'\r' t ≡ true
    → scan false p (t ++ rest) ≡ scan false (grown p t) rest
scan_plain [] rest p out h k = rw append-nil
scan_plain (c ∷ t) rest p out h k =
    scan_plain_step p c (t ++ rest) out (ground arith) (ground arith)
    ∙ scan_plain t rest (push c p) out (ground arith) (ground arith)
    ∙ rw append_assoc

scan-csv_cell :
    (t rest : Text) (p : Parser)
    → p.quoted ≡ false
    → IsPortable t
    → next_is quote rest ≡ false
    → scan false p (csv_cell t ++ rest) ≡ scan false (grown p t) rest
unfolding csv_cell
scan-csv_cell t rest p out h k = elim (Bool-cases (any is_special t)) [
  | inl special ↦ rw special (scan-enclosed t rest p out k)
  | inr plain ↦ rw plain (scan_plain t rest p out plain (ground (arith, h.unbroken)))
]

-- A row that the export keeps: its cells are portable, and one of them is not empty.
pub record IsExportable (row : List Text) : Type 0 where
  pub portable : All IsPortable row
  pub filled : is_filled row ≡ true

-- The parser reads back every exported table whose rows have a cell that is not empty and whose cells
-- have no space at their ends and no bare carriage return: quotation marks, commas and line breaks in
-- a cell come back as they were.
pub csv_rows-csv_text :
    (table : List (List Text)) → All IsExportable table → csv_rows (csv_text table) ≡ table
csv_rows-csv_text =
    csv_rows-table csv_cell IsPortable (λ t h. h.trimmed) scan-csv_cell IsExportable
      (λ row h. h.portable) (λ row h. h.filled)

scan_return :
    (p : Parser) (rest : Text)
    → p.quoted ≡ false
    → next_is b'\n' rest ≡ false
    → scan false p (b'\r' ∷ rest) ≡ scan false (end_row p) rest
unfolding scan
scan_return p rest out h = ground arith

any-append_plain :
    (t u : Text)
    → any is_special t ≡ false
    → any is_special u ≡ false
    → any is_special (t ++ b'\r' ∷ u) ≡ false
any-append_plain [] u h k = ground arith
any-append_plain (c ∷ t) u h k = ground (arith, any-append_plain t u)

not_newline : (u : Text) → any is_special u ≡ false → next_is b'\n' u ≡ false
not_newline [] h = refl
not_newline (c ∷ u) h = ground arith

-- A cell with a bare carriage return is exported with no quotation marks and read back as two rows,
-- whatever stands before and behind it: here a table of one row of one such cell.
csv_rows_bare_return :
    (t u : Text)
    → any is_special t ≡ false
    → any is_special u ≡ false
    → lacks b'\r' t ≡ true
    → lacks b'\r' u ≡ true
    → is_empty (trim t) ≡ false
    → is_empty (trim u) ≡ false
    → csv_rows (csv_text (((t ++ b'\r' ∷ u) ∷ []) ∷ [])) ≡ (trim t ∷ []) ∷ (trim u ∷ []) ∷ []
unfolding csv_rows csv_cell
csv_rows_bare_return t u ht hu rt ru ft fu =
    let plain = any-append_plain t u ht hu in
    let second = grown (end_row (grown new_parser t)) u in
    rw plain (
      ap (λ p. (end_row p).rows)
        (scan_plain t (b'\r' ∷ u) new_parser refl ht rt
          ∙ scan_return (grown new_parser t) u refl (not_newline u hu)
          ∙ ap (scan false (end_row (grown new_parser t))) (sym (append-nil u))
          ∙ scan_plain u [] (end_row (grown new_parser t)) refl hu ru
          ∙ scan_nil second)
      ∙ ground arith)

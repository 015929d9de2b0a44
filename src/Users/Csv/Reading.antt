-- ===== src/Users/Csv/Reading.antt =====
-- Reading back a table whose cells are written in some way, such that the parser takes each for its text.
use go_platform_starter.Prelude.{
  ℕ, true, false, not, ◌&&◌, List, [], ◌∷◌, ◌++◌, map, append_assoc, append-nil, ◌≡◌, refl, sym, ap,
  ◌∙◌, arith, All, Text, trim, join, ◌≢◌,
}
use go_platform_starter.Users.Csv.{
  quote, doubled, Parser, push, end_cell, is_filled, end_row, next_is, scan, csv_rows,
}

-- The parser with `t` behind its cell.
abbrev pub grown : Parser → Text → Parser
grown p t = record p { cell = p.cell ++ t }

scan_quoted_step :
    (p : Parser) (c : ℕ) (rest : Text)
    → p.quoted ≡ true
    → scan false p (doubled (c ∷ []) ++ rest) ≡ scan false (push c p) rest
unfolding scan doubled
scan_quoted_step p c rest inside = ground arith

doubled-cons :
    (c : ℕ) (t rest : Text) → doubled (c ∷ t) ++ rest ≡ doubled (c ∷ []) ++ (doubled t ++ rest)
unfolding doubled
doubled-cons c t rest = ground arith

scan-doubled :
    (t rest : Text) (p : Parser)
    → p.quoted ≡ true
    → scan false p (doubled t ++ rest) ≡ scan false (grown p t) rest
scan-doubled [] rest p inside = rw append-nil (unfold doubled in refl)
scan-doubled (c ∷ t) rest p inside =
    ap (scan false p) (doubled-cons c t rest)
    ∙ scan_quoted_step p c (doubled t ++ rest) inside
    ∙ scan-doubled t rest (push c p) inside
    ∙ rw append_assoc

-- A quotation mark that opens or closes a quoted cell.
scan-quote :
    (p : Parser) (rest : Text)
    → (p.quoted && next_is quote rest) ≡ false
    → scan false p (quote ∷ rest) ≡ scan false (record p { quoted = not p.quoted }) rest
unfolding scan
scan-quote p rest h = ground arith

-- A text between quotation marks, its own doubled.
abbrev pub enclosed : Text → Text
enclosed t = quote ∷ (doubled t ++ quote ∷ [])

pub scan-enclosed :
    (t rest : Text) (p : Parser)
    → p.quoted ≡ false
    → next_is quote rest ≡ false
    → scan false p (enclosed t ++ rest) ≡ scan false (grown p t) rest
scan-enclosed t rest p out k =
    let opened = record p { quoted = true } in
    ap (λ s. scan false p (quote ∷ s)) (append_assoc (doubled t) (quote ∷ []) rest)
    ∙ scan-quote p (doubled t ++ quote ∷ rest) (ground arith)
    ∙ ap (λ b. scan false (record p { quoted = b }) (doubled t ++ quote ∷ rest)) (ground arith)
    ∙ scan-doubled t (quote ∷ rest) opened refl
    ∙ scan-quote (grown opened t) rest (ground arith)
    ∙ ap (λ b. scan false (record p { cell = p.cell ++ t; quoted = b }) rest) (sym out)

scan_comma :
    (p : Parser) (rest : Text)
    → p.quoted ≡ false
    → scan false p (b',' ∷ rest) ≡ scan false (end_cell p) rest
unfolding scan
scan_comma p rest out = ground arith

scan_newline :
    (p : Parser) (rest : Text)
    → p.quoted ≡ false
    → scan false p (b'\n' ∷ rest) ≡ scan false (end_row p) rest
unfolding scan
scan_newline p rest out = ground arith

-- The parser behind the line of a row.
abbrev line_end : Parser → List Text → Parser
line_end p [] = p
line_end p (t ∷ []) = grown p t
line_end p (t ∷ u ∷ row) = line_end (end_cell (grown p t)) (u ∷ row)

line_end-quoted : (row : List Text) (p : Parser) → (line_end p row).quoted ≡ p.quoted
line_end-quoted [] p = refl
line_end-quoted (t ∷ []) p = refl
line_end-quoted (t ∷ u ∷ row) p = line_end-quoted (u ∷ row) (end_cell (grown p t))

-- The parser between two lines.
abbrev between : List (List Text) → Parser
between rows = record { rows = rows; row = []; cell = []; quoted = false }

row-ne-nil : (row : List Text) → is_filled row ≡ true → row ≢ []
row-ne-nil row h = ground arith

pub scan_nil : (p : Parser) → scan false p [] ≡ p
unfolding scan
scan_nil p = refl

end_row_nil : (rows : List (List Text)) → (end_row (between rows)).rows ≡ rows
unfolding trim
end_row_nil rows = refl

module _ (encode : Text → Text) (IsRead : Text → Type 0)
    (trimmed : (t : Text) → IsRead t → trim t ≡ t)
    (reads : (t rest : Text) (p : Parser)
      → p.quoted ≡ false
      → IsRead t
      → next_is quote rest ≡ false
      → scan false p (encode t ++ rest) ≡ scan false (grown p t) rest) where
  abbrev line : List Text → Text
  line row = join (b',' ∷ []) (map encode row)

  scan-line :
      (row : List Text) (rest : Text) (p : Parser)
      → p.quoted ≡ false
      → All IsRead row
      → next_is quote rest ≡ false
      → scan false p (line row ++ rest) ≡ scan false (line_end p row) rest
  scan-line [] rest p out h k = refl
  scan-line (t ∷ []) rest p out h k = reads t rest p out h.0 k
  scan-line (t ∷ u ∷ row) rest p out h k =
      ap (scan false p) (append_assoc (encode t) (b',' ∷ line (u ∷ row)) rest)
      ∙ reads t (b',' ∷ (line (u ∷ row) ++ rest)) p out h.0 refl
      ∙ scan_comma (grown p t) (line (u ∷ row) ++ rest) out
      ∙ scan-line (u ∷ row) rest (end_cell (grown p t)) out h.1 k

  end_row-line_end :
      (row : List Text) (p : Parser)
      → p.cell ≡ []
      → p.quoted ≡ false
      → All IsRead row
      → row ≢ []
      → is_filled (p.row ++ row) ≡ true
      → end_row (line_end p row) ≡ between (p.rows ++ (p.row ++ row) ∷ [])
  end_row-line_end [] p empty out h ne filled = absurd (ne refl)
  end_row-line_end (t ∷ []) p empty out h ne filled = ground (arith, trimmed t h.0)
  end_row-line_end (t ∷ u ∷ row) p empty out h ne filled =
      let q = end_cell (grown p t) in
      let cell : q.row ≡ p.row ++ t ∷ [] = ground (arith, trimmed t h.0) in
      let whole : q.row ++ u ∷ row ≡ p.row ++ t ∷ u ∷ row =
        ap (λ r. r ++ u ∷ row) cell ∙ append_assoc p.row (t ∷ []) (u ∷ row) in
      end_row-line_end (u ∷ row) q refl out h.1 (ground arith) (ap is_filled whole ∙ filled)
      ∙ ap (λ r. between (p.rows ++ r ∷ [])) whole

  module _ (IsRow : List Text → Type 0) (cells : (row : List Text) → IsRow row → All IsRead row)
      (filled : (row : List Text) → IsRow row → is_filled row ≡ true) where
    end_row-line :
        (row : List Text) (rows : List (List Text))
        → IsRow row
        → end_row (line_end (between rows) row) ≡ between (rows ++ row ∷ [])
    end_row-line row rows h =
        end_row-line_end row (between rows) refl refl (cells row h) (row-ne-nil row (filled row h))
          (filled row h)

    scan-table :
        (table rows : List (List Text))
        → All IsRow table
        → (end_row (scan false (between rows) (join (b'\n' ∷ []) (map line table)))).rows
          ≡ rows ++ table
    scan-table [] rows h =
        ap (λ p. (end_row p).rows) (scan_nil (between rows))
        ∙ end_row_nil rows
        ∙ sym (append-nil rows)
    scan-table (r ∷ []) rows h =
        ap (λ s. (end_row (scan false (between rows) s)).rows) (sym (append-nil (line r)))
        ∙ ap (λ q. (end_row q).rows)
            (scan-line r [] (between rows) refl (cells r h.0) refl
              ∙ scan_nil (line_end (between rows) r))
        ∙ ap (λ q. q.rows) (end_row-line r rows h.0)
    scan-table (r ∷ q ∷ table) rows h =
        let more = join (b'\n' ∷ []) (map line (q ∷ table)) in
        let ended = line_end (between rows) r in
        ap (λ p. (end_row p).rows)
          (scan-line r (b'\n' ∷ more) (between rows) refl (cells r h.0) refl
            ∙ scan_newline ended more (line_end-quoted r (between rows))
            ∙ ap (λ p. scan false p more) (end_row-line r rows h.0))
        ∙ scan-table (q ∷ table) (rows ++ r ∷ []) h.1
        ∙ append_assoc rows (r ∷ []) (q ∷ table)

    -- A table is read back from its text.
    pub csv_rows-table :
        (table : List (List Text))
        → All IsRow table
        → csv_rows (join (b'\n' ∷ []) (map line table)) ≡ table
    unfolding csv_rows
    csv_rows-table table h = scan-table table [] h

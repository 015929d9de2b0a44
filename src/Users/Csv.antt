-- ===== src/Users/Csv.antt =====
-- apps/web-admin-users/src/UsersPage.tsx: `csvCell`, the export of rows, and `parseCsv`.
pub mod Reading
pub mod RoundTrip
use go_platform_starter.Prelude.{
  ℕ, Bool, true, false, not, ◌&&◌, ◌||◌, Option, none, some, List, [], ◌∷◌, ◌++◌, map, ◌==◌,
  if◌then◌else◌, any, find_index, get_elem?, Text, codes, text_same, is_empty, trim, join,
}

abbrev pub quote : ℕ
quote = b'"'

-- `[",\n]`
abbrev pub is_special : ℕ → Bool
is_special c = c == quote || c == b',' || c == b'\n'

-- `text.replace(/"/g, '""')`
unfoldable pub doubled : Text → Text
doubled [] = []
doubled (c ∷ s) = if c == quote then quote ∷ quote ∷ doubled s else c ∷ doubled s

-- `csvCell`, of a text.
unfoldable pub csv_cell : Text → Text
unfolding doubled
csv_cell t = if any is_special t then quote ∷ (doubled t ++ quote ∷ []) else t

-- Rows of cells as the export joins them.
abbrev pub csv_line : List Text → Text
csv_line row = join (b',' ∷ []) (map csv_cell row)

abbrev pub csv_text : List (List Text) → Text
csv_text rows = join (b'\n' ∷ []) (map csv_line rows)

-- The variables of the loop of `parseCsv`, but for the index.
pub record Parser : Type 0 where
  pub rows : List (List Text)
  pub row : List Text
  pub cell : Text
  pub quoted : Bool

abbrev pub push : ℕ → Parser → Parser
push c p = record p { cell = p.cell ++ c ∷ [] }

-- `row.push(cell.trim()); cell = ""`
abbrev pub end_cell : Parser → Parser
end_cell p = record p { row = p.row ++ trim p.cell ∷ []; cell = [] }

-- `row.some(Boolean)`
abbrev pub is_filled : List Text → Bool
is_filled row = any (λ cell. not (is_empty cell)) row

-- `row.push(cell.trim()); if (row.some(Boolean)) rows.push(row)`
abbrev pub end_row : Parser → Parser
end_row p =
    let row = p.row ++ trim p.cell ∷ [] in
    record p { rows = if is_filled row then p.rows ++ row ∷ [] else p.rows; row = []; cell = [] }

abbrev next_is : ℕ → Text → Bool
next_is c [] = false
next_is c (d ∷ s) = d == c

-- One round of the loop, for the character `char` with `rest` behind it; the flag is whether the
-- round also takes the next character (`index += 1`).
unfoldable pub step : ℕ → Text → Parser → Parser × Bool
step char rest p =
    if char == quote && (p.quoted && next_is quote rest)
    then (push quote p, true)
    else if char == quote
    then (record p { quoted = not p.quoted }, false)
    else if char == b',' && not p.quoted
    then (end_cell p, false)
    else if (char == b'\n' || char == b'\r') && not p.quoted
    then (end_row p, char == b'\r' && next_is b'\n' rest)
    else (push char p, false)

-- The loop; the flag says that the first character has been taken already.
unfoldable pub scan : Bool → Parser → Text → Parser
unfolding step
scan taken p [] = p
scan taken p (char ∷ rest) =
    let (p', more) = if taken then (p, false) else step char rest p in scan more p' rest

abbrev pub new_parser : Parser
new_parser = record { rows = []; row = []; cell = []; quoted = false }

-- The rows that the loop and the lines behind it find.
unfoldable pub csv_rows : Text → List (List Text)
unfolding scan
csv_rows source = (end_row (scan false new_parser source)).rows

pub record ImportRow : Type 0 where
  pub email : Text
  pub password : Text
  pub display_name : Text
  pub avatar_url : Text

-- `lower` is `toLowerCase`.
module _ (lower : Text → Text) where
  -- `values[indexOf(name)] ?? ""`
  unfoldable pub column : List Text → Text → List Text → Text
  column headers name values =
      elim (find_index (λ header. text_same (lower header) (lower name)) headers) [
        | none ↦ []
        | some i ↦ elim (get_elem? values i) [ none ↦ [] | some v ↦ v ]
      ]

  abbrev row_of : List Text → List Text → ImportRow
  row_of headers values = record {
    email = column headers (codes "email") values;
    password = column headers (codes "password") values;
    display_name = column headers (codes "displayName") values;
    avatar_url = column headers (codes "avatarUrl") values;
  }

  abbrev rows_of : List (List Text) → List ImportRow
  rows_of [] = []
  rows_of (headers ∷ values) = map (row_of headers) values

  -- `parseCsv`
  unfoldable pub parse_csv : Text → List ImportRow
  unfolding csv_rows column
  parse_csv source = rows_of (csv_rows source)

-- ===== src/Roles/Sheet/Reading.antt =====
-- What the exported matrix says, to one who reads it.
use go_platform_starter.Prelude.{
  true, false, List, [], ◌∷◌, map, ◌≡◌, refl, arith, All, Text, Text_key, trim, is_empty, includes,
  Bool-cases, inl, inr,
}
use go_platform_starter.Users.Csv.{is_filled, csv_rows}
use go_platform_starter.Users.Csv.Reading.{scan-enclosed, csv_rows-table}
use go_platform_starter.Roles.{Role}
use go_platform_starter.Roles.Sheet.{mark, sheet_row, sheet, sheet_cell, export_csv}

-- A name without a space at its ends.
abbrev pub IsTrim : Text → Type 0
IsTrim name = trim name ≡ name

abbrev IsRow : List Text → Type 0
IsRow row = All IsTrim row × (is_filled row ≡ true)

names-IsTrim :
    (roles : List Role)
    → All (λ role. IsTrim role.name) roles
    → All IsTrim (map (λ role. role.name) roles)
names-IsTrim [] h = tt
names-IsTrim (role ∷ roles) h = (h.0, names-IsTrim roles h.1)

mark-IsTrim : (permission : Text) (role : Role) → IsTrim (mark permission role)
unfolding trim
mark-IsTrim permission role = elim (Bool-cases (includes permission role.permissions)) [
  | inl e ↦ rw e refl
  | inr e ↦ rw e refl
]

marks-IsTrim : (permission : Text) (roles : List Role) → All IsTrim (map (mark permission) roles)
marks-IsTrim permission [] = tt
marks-IsTrim permission (role ∷ roles) =
    (mark-IsTrim permission role, marks-IsTrim permission roles)

rows-IsRow :
    (roles : List Role) (catalog : List Text)
    → All (λ name. IsTrim name × (is_empty name ≡ false)) catalog
    → All IsRow (map (sheet_row roles) catalog)
rows-IsRow roles [] h = tt
rows-IsRow roles (name ∷ catalog) h =
    (((h.0.0, marks-IsTrim name roles), ground (arith, h.0.1)), rows-IsRow roles catalog h.1)

-- The matrix is read back from the text by the parser of the users page: a row of the names of the roles, and for
-- each permission its name with a yes or a no for each role, where no name has a space at its ends and no
-- permission is without a name. Commas, quotation marks and line breaks in the names are kept.
pub csv_rows-export_csv :
    (roles : List Role) (catalog : List Text)
    → All (λ role. IsTrim role.name) roles
    → All (λ name. IsTrim name × (is_empty name ≡ false)) catalog
    → csv_rows (export_csv roles catalog) ≡ sheet roles catalog
unfolding export_csv
csv_rows-export_csv roles catalog h k =
    csv_rows-table sheet_cell IsTrim (λ t e. e) (λ t rest p out e. scan-enclosed t rest p out) IsRow
      (λ row r. r.0) (λ row r. r.1) (sheet roles catalog)
      ((((unfold trim in refl), names-IsTrim roles h), refl), rows-IsRow roles catalog k)

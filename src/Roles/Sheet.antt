-- ===== src/Roles/Sheet.antt =====
-- apps/web-admin-roles/src/RolesPage.tsx: `exportCsv`, the matrix of roles and permissions as a table. A permission
-- of the catalog is its name.
pub mod Reading
use go_platform_starter.Prelude.{
  List, [], ◌∷◌, ◌++◌, map, if◌then◌else◌, Text, Text_key, codes, includes, join,
}
use go_platform_starter.Users.Csv.{quote, doubled}
use go_platform_starter.Roles.{Role}

abbrev pub header : List Role → List Text
header roles = codes "permission" ∷ map (λ role. role.name) roles

-- "yes" or "no", of a role.
abbrev pub mark : Text → Role → Text
mark permission role = if includes permission role.permissions then codes "yes" else codes "no"

abbrev pub sheet_row : List Role → Text → List Text
sheet_row roles permission = permission ∷ map (mark permission) roles

-- `[header, ...rows]`
abbrev pub sheet : List Role → List Text → List (List Text)
sheet roles catalog = header roles ∷ map (sheet_row roles) catalog

abbrev pub sheet_cell : Text → Text
sheet_cell cell = quote ∷ (doubled cell ++ quote ∷ [])

-- The text that is downloaded.
unfoldable pub export_csv : List Role → List Text → Text
unfolding doubled
export_csv roles catalog =
    join (b'\n' ∷ []) (map (λ row. join (b',' ∷ []) (map sheet_cell row)) (sheet roles catalog))

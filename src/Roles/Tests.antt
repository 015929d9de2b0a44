-- ===== src/Roles/Tests.antt =====
-- Examples of the theorems on the roles page, at concrete roles.
use mathlib.Core.List.{Memᴰ}
use go_platform_starter.Prelude.{filter}
use go_platform_starter.Users.Csv.{csv_rows}
use go_platform_starter.Roles.Sheet.{sheet, export_csv}
use go_platform_starter.Roles.Sheet.Reading.{csv_rows-export_csv}
use go_platform_starter.Prelude.{
  ℕ, Bool, true, false, leb, map, fold_case, trim, Option, some, List, [], ◌∷◌, ◌≡◌, ◌↔◌, refl,
  arith, length, includes, Text, Text_key, ℕ_key, codes, ◌==◌, if◌then◌else◌,
}
use go_platform_starter.QueryClient.{QueryClient, map_option}
use go_platform_starter.Prelude.{map, fold_case, trim}
use go_platform_starter.Roles.Markup.{Fragment, strong, code, render_line}
use go_platform_starter.Roles.Markup.Writing.{AreMarks, fragments_of, render_line-line_of}
use go_platform_starter.Roles.{Role, RoleBody}
use go_platform_starter.Roles.Matrix.{roles_key, matrix_request, mutate, roll_back}
use go_platform_starter.Roles.Matrix.Rollback.{box, matrix_shows_request}
use go_platform_starter.Roles.Assignment.{load_users, users}
use go_platform_starter.Roles.Assignment.Loading.{serving, load_users-serving}
use go_platform_starter.Roles.Listing.{by_name, found_roles, listed}
use go_platform_starter.Roles.Listing.Sorting.{IsCollation, IsRanked, Answers, listed-IsRanked}

abbrev read_users : Text
read_users = codes "user:read:any"

abbrev editor : Role
editor = record {
  id = 2;
  name = codes "editor";
  description = [];
  color = codes "#6366f1";
  icon = codes "shield";
  archived = false;
  permissions = read_users ∷ [];
  created_at = codes "2024-01-01";
  user_count = 4;
  system = false;
}

abbrev role_list : List Role
role_list = record editor { id = 1; permissions = [] } ∷ editor ∷ []

-- A cache that is a function, in which the query 0 stands under the prefix.
abbrev function_client : QueryClient (List Role)
function_client = record {
  Cache = ℕ → Option (List Role);
  keys = λ _. 0 ∷ [];
  get_data = λ k c. c k;
  set_data = λ j d c k. if j == k then some d else c k;
  update_all = λ f c k. if includes k (0 ∷ []) then map_option f (c k) else c k;
  get_data-set_data = λ j k d c. refl;
  get_data-update_all = λ f k c. refl;
}

abbrev full_cache : ℕ → Option (List Role)
full_cache _ = some role_list

abbrev clicked_cache : ℕ → Option (List Role)
clicked_cache = (mutate function_client editor read_users full_cache).1

matrix_shows_request_example :
    (box (clicked_cache roles_key) 1 read_users ≡ false)
    × ((matrix_request editor read_users).0 ≡ 2)
    × (includes read_users (matrix_request editor read_users).1.permissions
        ≡ box (clicked_cache roles_key) 2 read_users)
    × (function_client.get_data 3 (
          roll_back function_client
            (mutate function_client editor read_users full_cache).0
            clicked_cache)
        ≡ some role_list)
matrix_shows_request_example =
    matrix_shows_request function_client full_cache role_list editor read_users 3 1 read_users refl
      refl

abbrev body : RoleBody
body = record {
  name = codes "editor";
  description = [];
  color = codes "#6366f1";
  icon = codes "shield";
  archived = false;
  permissions = [];
}

abbrev numbers : List ℕ
numbers = 3 ∷ 1 ∷ 2 ∷ []

load_users-serving_example : load_users (serving numbers) 1 ≡ users numbers
load_users-serving_example = load_users-serving numbers 1 (omega arith)

abbrev by_length : Text → Text → Bool
by_length s t = leb (length s) (length t)

by_length-IsCollation : IsCollation by_length
by_length-IsCollation = record { total = λ s t h. ground arith; trans = λ s t u h k. ground arith }

abbrev lower : Text → Text
lower = map fold_case

listed-IsRanked_example :
    let shown = listed lower by_length (codes "ed") by_name role_list in
    IsRanked lower by_length by_length-IsCollation by_name shown
    × (Memᴰ editor shown ↔ (Memᴰ editor role_list × Answers lower (codes "ed") editor))
    × (length (filter (λ _. true) shown)
        ≡ length (filter (λ _. true) (found_roles lower (codes "ed") role_list)))
listed-IsRanked_example =
    listed-IsRanked lower by_length by_length-IsCollation (codes "ed") by_name role_list editor
      (λ _. true)

abbrev marks : List (Fragment × Text)
marks = (strong (codes "all"), codes " of ") ∷ (code (codes "user:read"), codes ".") ∷ []

marks-AreMarks : AreMarks marks
marks-AreMarks = (((refl, refl), (refl, refl)), (((refl, refl), (refl, refl)), tt))

render_line-line_of_example :
    render_line (codes "Reads **all** of `user:read`.") ≡ fragments_of (codes "Reads ") marks
render_line-line_of_example = render_line-line_of (codes "Reads ") marks (refl, refl) marks-AreMarks

-- A name with a comma and a quotation mark.
abbrev catalog : List Text
catalog = codes "users:read" ∷ codes "a,\"b" ∷ []

csv_rows-export_csv_example : csv_rows (export_csv role_list catalog) ≡ sheet role_list catalog
unfolding trim
csv_rows-export_csv_example =
    csv_rows-export_csv role_list catalog (refl, (refl, tt)) ((refl, refl), ((refl, refl), tt))

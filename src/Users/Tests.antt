-- ===== src/Users/Tests.antt =====
-- Examples of the theorems on the directory of users, at concrete tables, pages and backends.
use go_platform_starter.Prelude.{◌++◌, decimal}
use go_platform_starter.Users.Labels.{ip_description}
use go_platform_starter.Users.Labels.Addresses.{ip_description-octets}
use go_platform_starter.Prelude.{
  ℕ, Option, none, some, List, [], ◌∷◌, ◌≡◌, refl, arith, ◌==◌, if◌then◌else◌, includes, ℕ_key,
  Text, codes, trim, All,
}
use go_platform_starter.QueryClient.{QueryClient, map_option}
use go_platform_starter.Users.Csv.{csv_text, csv_rows}
use go_platform_starter.Users.Csv.RoundTrip.{IsExportable, csv_rows-csv_text}
use go_platform_starter.Users.Directory.{
  Profile, Directory, asc, created_at, UserFilters, Presence, jump, turn,
}
use go_platform_starter.Users.Directory.Paging.{IsOnPage, turn-IsOnPage}
use go_platform_starter.Users.Deletion.{UserPage}

abbrev table : List (List Text)
table = (codes "a,b" ∷ codes "say \"hi\"" ∷ []) ∷ (codes "x" ∷ [] ∷ []) ∷ []

table-IsExportable : All IsExportable table
unfolding trim
table-IsExportable = (
  record {
    portable = (
      record { trimmed = refl; unbroken = refl },
      (record { trimmed = refl; unbroken = refl }, tt),
    );
    filled = refl;
  },
  (
    record {
      portable = (
        record { trimmed = refl; unbroken = refl },
        (record { trimmed = refl; unbroken = refl }, tt),
      );
      filled = refl;
    },
    tt,
  ),
)

csv_rows-csv_text_example : csv_rows (csv_text table) ≡ table
csv_rows-csv_text_example = csv_rows-csv_text table table-IsExportable

abbrev no_filters : UserFilters
no_filters = record {
  query = [];
  status = Presence.all;
  role_id = 0;
  registered_from = [];
  registered_to = [];
}

abbrev second_page : Directory
second_page = record {
  offset = 40;
  page_size = 20;
  sort_field = created_at;
  sort_direction = asc;
  filters = no_filters;
  presets = [];
  selected_ids = 4 ∷ [];
  active_row = none;
}

second_page-IsOnPage : IsOnPage 2 45 second_page
second_page-IsOnPage = record {
  some_rows = omega arith;
  index = 1;
  aligned = refl;
  within = omega arith;
}

-- Page 3 is typed, in halves.
turn-IsOnPage_example : IsOnPage 2 45 (turn 2 45 (jump 6) second_page)
turn-IsOnPage_example =
    turn-IsOnPage 2 45 (jump 6) second_page (λ size e. absurd (ground arith))
      (λ page e. (3, ground (arith, e))) second_page-IsOnPage

abbrev ann : Profile
ann = record {
  id = 4;
  email = codes "a@b.co";
  display_name = codes "Ann";
  role_ids = 1 ∷ 2 ∷ 1 ∷ [];
}

-- A cache that is a function, in which the queries 1 and 2 stand under the prefix.
abbrev FunctionCache : Type 0
FunctionCache = ℕ → Option UserPage

abbrev function_client : QueryClient UserPage
function_client = record {
  Cache = FunctionCache;
  keys = λ _. 1 ∷ 2 ∷ [];
  get_data = λ k c. c k;
  set_data = λ j d c k. if j == k then some d else c k;
  update_all = λ f c k. if includes k (1 ∷ 2 ∷ []) then map_option f (c k) else c k;
  get_data-set_data = λ j k d c. refl;
  get_data-update_all = λ f k c. refl;
}

abbrev full_cache : FunctionCache
full_cache _ = some (record { items = ann ∷ []; total = 1 })

ip_description-octets_example :
    ip_description (some (decimal 172 ++ b'.' ∷ (decimal 20 ++ b'.' ∷ codes "0.7")))
    ≡ codes "Private or loopback network address"
ip_description-octets_example =
    ip_description-octets 172 20 (codes "0.7") (omega arith) (omega arith)

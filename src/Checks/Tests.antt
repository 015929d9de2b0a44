-- ===== src/Checks/Tests.antt =====
-- Examples of the theorems on the scripts that guard the repository.
use go_platform_starter.Checks.Coverage.{Row, changed_lines, is_changed_row}
use go_platform_starter.Checks.Coverage.Changed.{IsChanged}
use go_platform_starter.Checks.Coverage.Gating.{is_changed_row_iff}
use go_platform_starter.Prelude.{List, [], ◌∷◌, ◌++◌, ◌≡◌, ◌↔◌, refl, Text, codes}
use go_platform_starter.Prelude.{ℕ, zero, suc, ◌<◌, ◌≤◌, true, some, all, get_or_else, starts_with}
use mathlib.Core.List.{Memᴰ}
use go_platform_starter.Checks.Retention.{Version, is_ephemeral, cutoff, candidates}
use go_platform_starter.Checks.Retention.Sparing.{as_new, candidates-spare}
use go_platform_starter.Specs.Objects.{lookup}
use go_platform_starter.Checks.Migrations.{File, snapshot, expected_from, verify}
use go_platform_starter.Checks.Migrations.Verifying.{IsDistinct, verify_iff}

abbrev sixteen : Text
sixteen = codes "0123456789abcdef"

abbrev up : File
up = (
  codes "services/user/migrations/000001_users.up.sql",
  sixteen ++ (sixteen ++ (sixteen ++ sixteen)),
)

abbrev down : File
down = (
  codes "services/user/migrations/000001_users.down.sql",
  sixteen ++ (sixteen ++ (sixteen ++ codes "fedcba9876543210")),
)

abbrev files : List File
files = up ∷ down ∷ []

files-IsDistinct : IsDistinct files
files-IsDistinct = (refl, (refl, tt))

verify_iff_example :
    (verify (snapshot (up ∷ [])) files ≡ [])
    ↔ ((path : Text) → lookup path (expected_from [] (snapshot (up ∷ []))) ≡ lookup path files)
verify_iff_example = verify_iff (snapshot (up ∷ [])) files files-IsDistinct

-- Twenty-one versions of the same age, one of them only tagged for a pull request.
abbrev released : ℕ → Version
released id = record { id = id; updated_at = 7; tags = some (codes "v1" ∷ []) }

abbrev preview : Version
preview = record { id = 99; updated_at = 5; tags = some (codes "pr-12" ∷ codes "sha-abc" ∷ []) }

abbrev copies : ℕ → List Version
copies zero = preview ∷ []
copies (suc n) = released n ∷ copies n

preview-Mem : Memᴰ preview (candidates 3000000000 (copies 20))
unfolding candidates cutoff starts_with
preview-Mem = Memᴰ.head refl

candidates-spare_example :
    Memᴰ preview (copies 20)
    × (preview.updated_at < cutoff 3000000000)
    × (all is_ephemeral (get_or_else preview.tags []) ≡ true)
    × (21 ≤ as_new preview (copies 20))
candidates-spare_example = candidates-spare 3000000000 (copies 20) preview preview-Mem

abbrev diff : List Text
diff =
    codes "+++ b/services/auth/login.go"
    ∷ codes "@@ -3 +10,2 @@ func login"
    ∷ codes "+++ b/services/auth/main.go"
    ∷ codes "@@ -1,2 +1,9 @@"
    ∷ []

abbrev login_row : Row
login_row = record {
  file = codes "services/auth/login.go";
  start = 11;
  end = 14;
  statements = 3;
  count = 0;
}

is_changed_row_iff_example :
    (is_changed_row (changed_lines diff) login_row ≡ true)
    ↔ ((n : ℕ) × (11 ≤ n) × (n ≤ 14) × IsChanged (codes "services/auth/login.go") n diff)
is_changed_row_iff_example = is_changed_row_iff diff login_row refl

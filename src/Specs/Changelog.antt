-- ===== src/Specs/Changelog.antt =====
-- scripts/api-changelog.mjs. An operation is the JSON text of its description.
pub mod Reporting
use go_platform_starter.Prelude.{
  ℕ, ◌-◌, Bool, true, false, not, ◌&&◌, Option, none, some, List, [], ◌∷◌, ◌++◌, map, any, filter,
  leb, if◌then◌else◌, Text, codes, text_same,
}
use go_platform_starter.Specs.Objects.{lookup, put}

pub data Method : Type 0 where
  get head post put_method patch delete : Method

abbrev pub method_name : Method → Text
method_name get = codes "get"
method_name head = codes "head"
method_name post = codes "post"
method_name put_method = codes "put"
method_name patch = codes "patch"
method_name delete = codes "delete"

abbrev pub methods : List Method
methods = get ∷ head ∷ post ∷ put_method ∷ patch ∷ delete ∷ []

-- `spec.paths`: the members of each path item, by name.
abbrev pub Paths : Type 0
Paths = List (Text × List (Text × Text))

abbrev upper_letter : ℕ → ℕ
upper_letter c = if leb b'a' c && leb c b'z' then c - 32 else c

-- `${method.toUpperCase()} ${path}`
abbrev pub operation_key : Method → Text → Text
operation_key method path = map upper_letter (method_name method) ++ b' ' ∷ path

-- The entries that one path gives, as pairs.
abbrev pub path_operations : List Method → Text → List (Text × Text) → List (Text × Text)
path_operations [] path item = []
path_operations (method ∷ ms) path item =
    let rest = path_operations ms path item in
    elim (lookup (method_name method) item) [
      | none ↦ rest
      | some op ↦ (operation_key method path, op) ∷ rest
    ]

-- `new Map(entries)`, after the entries of `acc`
abbrev pub to_map : List (Text × Text) → List (Text × Text) → List (Text × Text)
to_map [] acc = acc
to_map ((k, v) ∷ entries) acc = to_map entries (put k v acc)

abbrev pub all_operations : Paths → List (Text × Text)
all_operations [] = []
all_operations ((path, item) ∷ paths) = path_operations methods path item ++ all_operations paths

-- `operations`
unfoldable pub operations : Paths → List (Text × Text)
unfolding put
operations paths = to_map (all_operations paths) []

abbrev pub has : Text → List (Text × Text) → Bool
has k o = elim (lookup k o) [ none ↦ false | some _ ↦ true ]

abbrev pub keys : List (Text × Text) → List Text
keys [] = []
keys ((k, _) ∷ o) = k ∷ keys o

-- `before.get(key) !== after.get(key)`
abbrev pub differ : Option Text → Option Text → Bool
differ none none = false
differ none (some _) = true
differ (some _) none = true
differ (some a) (some b) = not (text_same a b)

abbrev pub added : List (Text × Text) → List (Text × Text) → List Text
added before after = filter (λ k. not (has k before)) (keys after)

abbrev pub removed : List (Text × Text) → List (Text × Text) → List Text
removed before after = filter (λ k. not (has k after)) (keys before)

abbrev pub changed : List (Text × Text) → List (Text × Text) → List Text
changed before after =
    filter (λ k. has k before && differ (lookup k before) (lookup k after)) (keys after)

-- The three lists that are printed, and the exit code.
pub record Report : Type 0 where
  pub additions : List Text
  pub removals : List Text
  pub changes : List Text
  pub exit_code : ℕ

unfoldable pub changelog : Paths → Paths → Report
unfolding operations
changelog previous current =
    let before = operations previous in
    let after = operations current in
    let gone = removed before after in
    record {
      additions = added before after;
      removals = gone;
      changes = changed before after;
      exit_code = elim gone [ [] ↦ 0 | _ ∷ _ ↦ 2 ];
    }

-- ===== src/Specs/Contract.antt =====
-- scripts/check-contracts.mjs: the checks of the whole description, against the calls of the pages, the generated
-- types, the package and the error codes of the services, which are given as they are read from the files.
pub mod Accepting
use go_platform_starter.Prelude.{
  ℕ, Bool, true, false, not, ◌&&◌, ◌||◌, Option, none, some, List, [], ◌∷◌, ◌++◌, map, any, ltb,
  if◌then◌else◌, get_or_else, Text, Text_key, codes, text_same, is_empty, has_text, starts_with,
  includes, sort_by, String,
}
use go_platform_starter.Specs.Objects.{lookup}
use go_platform_starter.Specs.Operation.{Response, Operation}
use go_platform_starter.Specs.Operation.Lint.{Failure, operation_failures}
use go_platform_starter.Specs.Compose.{PathItem, methods}

-- A call `api.METHOD("path")` in a file.
pub record Call : Type 0 where
  pub method : Text
  pub path : Text
  pub file : Text

-- What the script reads of the description: the names of its schemas and security schemes, how many webhooks
-- and servers it has, whether the register operation has links, and the codes of ErrorCode.
pub record Description : Type 0 where
  pub openapi : Text
  pub version : Option Text
  pub paths : List (Text × PathItem)
  pub schemas : List Text
  pub schemes : List Text
  pub webhooks : ℕ
  pub servers : ℕ
  pub links : Bool
  pub error_codes : List Text

-- The generated types, the version of the package, the source of the client, and the codes of the Go file.
pub record Repository : Type 0 where
  pub generated : Text
  pub package_version : Option Text
  pub client : Text
  pub go_codes : List Text

pub data Drift : Type 0 where
  unknown_call : Call → Drift
  not_generated missing_schema missing_scheme : Text → Drift
  broken : Text → Text → Failure → Drift
  duplicate_id : Text → Text → Text → Drift
  no_webhooks few_servers no_link versions_differ unsafe_cast codes_differ : Drift

-- `spec.paths?.[call.path]?.[call.method]`
abbrev pub find_operation : List (Text × PathItem) → Text → Text → Option Operation
find_operation paths path method = elim (lookup path paths) [
  | none ↦ none
  | some item ↦ lookup method item
]

abbrev pub is_called : List (Text × PathItem) → Call → Bool
is_called paths c = elim (find_operation paths c.path c.method) [ none ↦ false | some _ ↦ true ]

-- One failure where a test fails.
abbrev pub unless : Bool → Drift → List Drift
unless true d = []
unless false d = d ∷ []

abbrev pub failures_of : {A : Type 0} → (A → Bool) → (A → Drift) → List A → List Drift
failures_of test drift [] = []
failures_of test drift (a ∷ xs) = unless (test a) (drift a) ++ failures_of test drift xs

-- `generated.includes(`"${path}"`)`
abbrev pub is_generated : Text → Text → Bool
is_generated generated path = has_text (b'"' ∷ (path ++ b'"' ∷ [])) generated

-- The operations in the order of the two loops, each with its path and method.
abbrev pub Entry : Type 0
Entry = Text × Text × Operation

abbrev item_entries : Text → PathItem → List Text → List Entry
item_entries path item [] = []
item_entries path item (method ∷ ms) = elim (lookup method item) [
  | none ↦ item_entries path item ms
  | some op ↦ (path, method, op) ∷ item_entries path item ms
]

abbrev pub entries : List (Text × PathItem) → List Entry
entries [] = []
entries ((path, item) ∷ paths) = item_entries path item methods ++ entries paths

abbrev pub broken_all : Text → Text → List Failure → List Drift
broken_all path method [] = []
broken_all path method (f ∷ failures) = broken path method f ∷ broken_all path method failures

-- The id of an operation, where it has one that is not empty.
abbrev pub given_id : Option Text → Option Text
given_id (some (c ∷ id)) = some (c ∷ id)
given_id _ = none

abbrev pub duplicates : Text → Text → Option Text → List Text → List Drift
duplicates path method none seen = []
duplicates path method (some id) seen =
    if includes id seen then duplicate_id path method id ∷ [] else []

-- `operationIds`, with the id added unless it is there
abbrev pub with_id : Option Text → List Text → List Text
with_id none seen = seen
with_id (some id) seen = if includes id seen then seen else id ∷ seen

module _ (has_meta : Option Response → Bool) where
  -- The loop over the operations, with the ids of those before.
  unfoldable pub entry_failures : List Text → List Entry → List Drift
  entry_failures seen [] = []
  entry_failures seen ((path, method, op) ∷ rest) =
      let id = given_id op.operation_id in
      duplicates path method id seen
      ++ (broken_all path method (operation_failures has_meta path method op)
          ++ entry_failures (with_id id seen) rest)

-- The order of code units, in which `sort` puts texts.
abbrev text_leb : Text → Text → Bool
text_leb [] t = true
text_leb (a ∷ s) [] = false
text_leb (a ∷ s) (b ∷ t) =
    let rest = text_leb s t in if ltb a b then true else if ltb b a then false else rest

abbrev pub texts_same : List Text → List Text → Bool
texts_same [] [] = true
texts_same [] (_ ∷ _) = false
texts_same (_ ∷ _) [] = false
texts_same (s ∷ xs) (t ∷ ys) = text_same s t && texts_same xs ys

abbrev pub same_codes : List Text → List Text → Bool
same_codes xs ys = texts_same (sort_by text_leb xs) (sort_by text_leb ys)

abbrev pub same_version : Option Text → Option Text → Bool
same_version none none = true
same_version (some v) (some w) = text_same v w
same_version _ _ = false

abbrev pub required_schemas : List Text
required_schemas =
    codes "BulkResult"
    ∷ codes "AsyncOperation"
    ∷ codes "EnvelopeMeta"
    ∷ codes "ErrorCode"
    ∷ codes "EventEnvelope"
    ∷ []

abbrev pub required_schemes : List Text
required_schemes = codes "bearerAuth" ∷ codes "refreshCookie" ∷ codes "internalSecret" ∷ []

-- The checks after the loops, in their order.
abbrev pub final_failures : Description → Repository → List Drift
final_failures spec repo =
    failures_of (λ name. includes name spec.schemas) missing_schema required_schemas
    ++ (failures_of (λ name. includes name spec.schemes) missing_scheme required_schemes
        ++ (unless (text_same spec.openapi (codes "3.1.0") && ltb 0 spec.webhooks) no_webhooks
            ++ (unless (not (ltb spec.servers 3)) few_servers
                ++ (unless spec.links no_link
                    ++ (unless (same_version spec.version repo.package_version) versions_differ
                        ++ (unless (not (has_text (codes "as unknown as ApiClient") repo.client))
                              unsafe_cast
                            ++ unless (same_codes repo.go_codes spec.error_codes) codes_differ))))))

-- `failures`
unfoldable pub failures :
    (Option Response → Bool) → Description → Repository → List Call → List Drift
unfolding entry_failures has_text
failures has_meta spec repo calls =
    failures_of (is_called spec.paths) unknown_call calls
    ++ (failures_of (is_generated repo.generated) not_generated (map (λ p. p.0) spec.paths)
        ++ (entry_failures has_meta [] (entries spec.paths) ++ final_failures spec repo))

-- ===== src/Specs/Operation/Lint.antt =====
-- scripts/check-contracts.mjs: what is demanded of one operation of the whole description. The JSON text
-- of a response is outside: whether it names the schema EnvelopeMeta is the parameter `has_meta`.
use go_platform_starter.Prelude.{
  Bool, true, false, not, ◌&&◌, Option, none, some, List, [], ◌∷◌, ◌++◌, any, leb, if◌then◌else◌,
  get_or_else, Text, codes, text_same, is_empty, starts_with, drop,
}
use go_platform_starter.Specs.Objects.{lookup}
use go_platform_starter.Specs.Schema.{Value, undefined}
use go_platform_starter.Specs.Operation.{Media, Response, Operation, idempotency_key, is_ref}

pub data Failure : Type 0 where
  missing_id missing_description missing_tags implicit_deprecated : Failure
  missing_error_response missing_key list_without_meta : Failure
  missing_response_description : Text → Failure
  missing_example : Text → Text → Failure
  missing_request_example : Text → Failure

abbrev pub when : Bool → Failure → List Failure
when true f = f ∷ []
when false f = []

-- `if (!text)`
abbrev pub blank : Option Text → Bool
blank none = true
blank (some s) = is_empty s

abbrev pub is_undefined : Value → Bool
is_undefined undefined = true
is_undefined _ = false

-- `media.example === undefined && !media.examples`
abbrev pub unillustrated : Media → Bool
unillustrated m = is_undefined m.example && not m.examples

abbrev pub content_failures : (Text → Failure) → List (Text × Media) → List Failure
content_failures fail [] = []
content_failures fail ((type, m) ∷ content) =
    when (unillustrated m) (fail type) ++ content_failures fail content

abbrev pub response_failures : Text → Response → List Failure
response_failures status r =
    if is_ref r
    then []
    else when (blank r.description) (missing_response_description status)
      ++ content_failures (missing_example status) r.content

abbrev pub all_response_failures : List (Text × Response) → List Failure
all_response_failures [] = []
all_response_failures ((status, r) ∷ rs) = response_failures status r ++ all_response_failures rs

abbrev pub has_no_tags : Option (List Text) → Bool
has_no_tags none = true
has_no_tags (some []) = true
has_no_tags (some (_ ∷ _)) = false

abbrev is_unset : Option Bool → Bool
is_unset none = true
is_unset (some _) = false

-- `operation.responses?.default?.$ref === "#/components/responses/Error"`
abbrev pub has_error_response : Operation → Bool
has_error_response op = elim (lookup (codes "default") (get_or_else op.responses [])) [
  | none ↦ false
  | some r ↦ elim r.ref [
    | none ↦ false
    | some name ↦ text_same name (codes "#/components/responses/Error")
  ]
]

abbrev pub is_key : Option Text → Bool
is_key none = false
is_key (some r) = text_same r idempotency_key

-- `item.$ref === …`, over the parameters
abbrev pub lacks_key : Option (List (Option Text)) → Bool
lacks_key none = true
lacks_key (some parameters) = not (any is_key parameters)

abbrev upper_first : Text → Bool
upper_first [] = false
upper_first (c ∷ _) = leb b'A' c && leb c b'Z'

-- `/^list[A-Z]/`
abbrev pub is_list_id : Option Text → Bool
is_list_id none = false
is_list_id (some id) = starts_with (codes "list") id && upper_first (drop 4 id)

abbrev pub request_failures : Operation → List Failure
request_failures op = content_failures missing_request_example op.request

-- The body of the loop on one operation, but for the ids' being distinct, in the order of the checks.
unfoldable pub operation_failures :
    (Option Response → Bool) → Text → Text → Operation → List Failure
operation_failures has_meta path method op =
    let api = starts_with (codes "/api/v1") path in
    let responses = get_or_else op.responses [] in
    when (blank op.operation_id) missing_id
    ++ when (blank op.description) missing_description
    ++ when (has_no_tags op.tags) missing_tags
    ++ when (is_unset op.deprecated) implicit_deprecated
    ++ when (api && not (has_error_response op)) missing_error_response
    ++ all_response_failures responses
    ++ request_failures op
    ++ when (api && text_same method (codes "post") && lacks_key op.parameters) missing_key
    ++ when (is_list_id op.operation_id && not (has_meta (lookup (codes "200") responses)))
        list_without_meta

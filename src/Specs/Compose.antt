-- ===== src/Specs/Compose.antt =====
-- scripts/compose-specs.mjs: the loop over the services, and the pass over the whole that follows it. A
-- service whose file cannot be read or parsed has no document.

pub mod Merging
pub mod Paths
use go_platform_starter.Prelude.{
  ℕ, Bool, true, false, Option, none, some, List, [], ◌∷◌, ◌++◌, map, any, if◌then◌else◌,
  get_or_else, Text, codes, text_same,
}
use go_platform_starter.Specs.Objects.{lookup, put, put_missing, map_entries}
use go_platform_starter.Specs.Schema.{
  TypeField, untyped, Keywords, Schema, schema, Properties, finished, property, no_parts, no_items,
}
use go_platform_starter.Specs.Example.{Library}
use go_platform_starter.Specs.Operation.{Operation, enrich_operation, refresh_operation}

-- The entries of a path item, by method.
abbrev pub PathItem : Type 0
PathItem = List (Text × Operation)

-- A document's paths and components; those that are no schemas stand as their JSON, by kind.
pub record Document : Type 0 where
  pub paths : List (Text × PathItem)
  pub schemas : Library
  pub others : List (Text × List (Text × Text))

pub record Service : Type 0 where
  pub name : Text
  pub document : Option Document

-- `merged`; a tag is its name and description.
pub record Merged : Type 0 where
  pub tags : List (Text × Text)
  pub paths : List (Text × PathItem)
  pub schemas : Library
  pub others : List (Text × List (Text × Text))

-- `merged` at first; the schemas and other components that it starts with are written out in the source.
abbrev pub initial : Library → List (Text × List (Text × Text)) → Merged
initial schemas others = record { tags = []; paths = []; schemas = schemas; others = others }

abbrev pub methods : List Text
methods =
    codes "get" ∷ codes "head" ∷ codes "post" ∷ codes "put" ∷ codes "patch" ∷ codes "delete" ∷ []

abbrev pub is_method : Text → Bool
is_method method = any (text_same method) methods

abbrev pub enrich_entry : Library → ℕ → Text → Text → Operation → Operation
enrich_entry library fuel service method op =
    if is_method method then enrich_operation library fuel service method op else op

abbrev pub api_path : Text → Text
api_path path = codes "/api/v1" ++ path

-- The loop over a document's paths.
abbrev pub add_paths :
    Library → ℕ → Text → List (Text × PathItem) → List (Text × PathItem) → List (Text × PathItem)
add_paths library fuel service [] merged = merged
add_paths library fuel service ((path, item) ∷ paths) merged =
    add_paths library fuel service paths
      (put (api_path path) (map_entries (enrich_entry library fuel service) item) merged)

-- The loop over the values of one kind: `merged.components[kind][name] ??= value`.
abbrev pub add_missing : {A : Type 0} → List (Text × A) → List (Text × A) → List (Text × A)
add_missing [] merged = merged
add_missing ((name, value) ∷ values) merged = add_missing values (put_missing name value merged)

-- The loop over the kinds.
abbrev pub add_kinds :
    List (Text × List (Text × Text))
    → List (Text × List (Text × Text))
    → List (Text × List (Text × Text))
add_kinds [] merged = merged
add_kinds ((kind, values) ∷ kinds) merged =
    add_kinds kinds (put kind (add_missing values (get_or_else (lookup kind merged) [])) merged)

abbrev pub add_service : ℕ → Service → Merged → Merged
add_service fuel service merged = elim service.document [
  | none ↦ merged
  | some d ↦ record {
    tags = merged.tags ++ (service.name, service.name ++ codes " service operations.") ∷ [];
    paths = add_paths merged.schemas fuel service.name d.paths merged.paths;
    schemas = add_missing d.schemas merged.schemas;
    others = add_kinds d.others merged.others;
  }
]

-- The whole loop, over the services in the order of their names.
unfoldable pub add_services : ℕ → List Service → Merged → Merged
unfolding put put_missing enrich_operation
add_services fuel [] merged = merged
add_services fuel (service ∷ services) merged =
    add_services fuel services (add_service fuel service merged)

abbrev reference : Text → Schema
reference name =
    schema
      (record {
        type = untyped;
        example = none;
        enum = none;
        default = none;
        format = none;
        pattern = none;
        min_length = none;
      })
      (some name) no_parts finished no_items

-- `schema.properties.message = …`, where there is such a property
abbrev with_message : Properties → Properties
with_message finished = finished
with_message (property name s rest) =
    let later = with_message rest in
    if text_same name (codes "message")
    then property name (reference (codes "#/components/schemas/ErrorCode")) rest
    else property name s later

abbrev pub with_error_codes : Text → Schema → Schema
with_error_codes name (schema k r parts properties element) =
    if text_same name (codes "EnvelopeFail")
    then schema k r parts (with_message properties) element
    else schema k r parts properties element

-- `if (!definedTags.has(tag)) definedTags.set(tag, …)`, over an operation's tags
abbrev define_tags : List Text → List (Text × Text) → List (Text × Text)
define_tags [] defined = defined
define_tags (tag ∷ tags) defined =
    define_tags tags (put_missing tag (tag ++ codes " operations.") defined)

-- The inner loop over the methods, as far as it goes for tags.
abbrev item_tags : List Text → PathItem → List (Text × Text) → List (Text × Text)
item_tags [] item defined = defined
item_tags (method ∷ ms) item defined = item_tags ms item (elim (lookup method item) [
  | none ↦ defined
  | some op ↦ define_tags (get_or_else op.tags []) defined
])

abbrev all_tags : List (Text × PathItem) → List (Text × Text) → List (Text × Text)
all_tags [] defined = defined
all_tags ((path, item) ∷ paths) defined = all_tags paths (item_tags methods item defined)

-- `new Map(tags.map((tag) => [tag.name, tag]))`
abbrev tag_map : List (Text × Text) → List (Text × Text) → List (Text × Text)
tag_map [] defined = defined
tag_map ((name, description) ∷ tags) defined = tag_map tags (put name description defined)

abbrev pub refresh_entry : Library → ℕ → Text → Operation → Operation
refresh_entry library fuel method op =
    if is_method method then refresh_operation library fuel op else op

-- What follows the loop: the error codes, then the pass over all operations.
unfoldable pub finish : ℕ → Merged → Merged
unfolding put put_missing refresh_operation
finish fuel merged =
    let library = map_entries with_error_codes merged.schemas in
    record {
      tags = all_tags merged.paths (tag_map merged.tags []);
      paths = map_entries (λ _ item. map_entries (refresh_entry library fuel) item) merged.paths;
      schemas = library;
      others = merged.others;
    }

abbrev pub compose_specs : ℕ → List Service → Merged → Merged
compose_specs fuel services merged = finish fuel (add_services fuel services merged)

-- ===== src/Specs/Tests.antt =====
-- Examples of the theorems on the scripts, at small API descriptions.
use go_platform_starter.Specs.Contract.{Call, Description, Repository, failures}
use go_platform_starter.Specs.Contract.Accepting.{IsSound, failures-nil_iff}
use go_platform_starter.Prelude.{
  ◌<◌, Bool, true, false, Option, none, some, List, [], ◌∷◌, any, ◌≡◌, ◌↔◌, inr, refl, arith, All,
  Text, codes, text_same, split_from, starts_with,
}
use go_platform_starter.Specs.Schema.{
  Value, undefined, TypeName, string, TypeField, typed, untyped, Keywords, Schema, schema, no_parts,
  Properties, finished, property, no_items,
}
use go_platform_starter.Specs.Example.{
  Library, lookup_schema, ref_name, example_in, choose, example_for,
}
use go_platform_starter.Specs.Example.Endings.{refs, Ends, IsRanked, example_for-Ends}
use go_platform_starter.Specs.Example.Types.{has_type, IsTyped, example_for-has_type}
use go_platform_starter.Specs.Objects.{lookup}
use go_platform_starter.Specs.Operation.{
  Media, Response, Operation, enrich_operation, refresh_operation,
}
use go_platform_starter.Specs.Operation.Lint.{operation_failures}
use go_platform_starter.Specs.Operation.Passing.{operation_failures-enrich_operation}
use go_platform_starter.Specs.Compose.{PathItem, Service, initial, api_path, compose_specs}
use go_platform_starter.Specs.Compose.Paths.{last_composed, compose_specs-lookup}
use go_platform_starter.Specs.Changelog.{get, Paths, changelog}
use go_platform_starter.Specs.Changelog.Reporting.{changelog_lem}

abbrev untold : TypeField → Keywords
untold type = record {
  type = type;
  example = none;
  enum = none;
  default = none;
  format = none;
  pattern = none;
  min_length = none;
}

abbrev name_schema : Schema
name_schema = schema (untold (typed string)) none no_parts finished no_items

abbrev user_ref : Text
user_ref = codes "#/components/schemas/User"

abbrev to_user : Schema
to_user = schema (untold untyped) (some user_ref) no_parts finished no_items

abbrev user_properties : Properties
user_properties = property (codes "name") name_schema finished

abbrev user_schema : Schema
user_schema = schema (untold (typed TypeName.object)) none no_parts user_properties no_items

abbrev library : Library
library = (codes "User", user_schema) ∷ []

no_refs : (name : Text) (s : Schema) → lookup_schema name library ≡ some s → refs s ≡ []
unfolding refs
no_refs name s found = ground arith

user_rank : IsRanked library
user_rank = record { rank = λ _. 0; below = λ name s found. rw (no_refs name s found) tt }

near : All (λ r. user_rank.rank (ref_name r) < 1) (refs to_user)
unfolding refs user_rank
near = (omega arith, tt)

nearer :
    All
      (λ r. user_rank.rank (ref_name r) < 1)
      (refs (schema (untold (typed TypeName.object)) none no_parts user_properties no_items))
unfolding refs
nearer = tt

untold_object : IsTyped TypeName.object (untold (typed TypeName.object))
untold_object = record {
  declared = refl;
  example_typed = λ v e. absurd (ground arith);
  default_typed = λ v e. absurd (ground arith);
  enum_typed = λ vs e. absurd (ground arith);
  formatted = inr refl;
  some_value = refl;
}

example_for-Ends_example : Ends (example_for library true 1 to_user)
example_for-Ends_example = example_for-Ends library true user_rank 1 to_user near

example_for-has_type_example :
    (v : Value) × (example_for library true 1 user_schema ≡ some v)
    × (has_type TypeName.object v ≡ true)
example_for-has_type_example =
    example_for-has_type library true user_rank TypeName.object (untold (typed TypeName.object))
      user_properties no_items 1 untold_object nearer

abbrev plain : Media
plain = record { schema = some to_user; example = undefined; examples = false }

abbrev described_ok : Response
described_ok = record {
  ref = none;
  description = some (codes "The user.");
  headers = [];
  content = (codes "application/json", plain) ∷ [];
}

-- `POST /users` as a service describes it.
abbrev create_user : Operation
create_user = record {
  operation_id = some (codes "createUser");
  tags = none;
  summary = none;
  description = none;
  deprecated = none;
  authenticated = true;
  internal = false;
  security = none;
  parameters = none;
  responses = some ((codes "201", described_ok) ∷ []);
  request = (codes "application/json", plain) ∷ [];
}

abbrev no_meta : Option Response → Bool
no_meta _ = false

operation_failures-enrich_operation_example :
    operation_failures no_meta (codes "/api/v1/users") (codes "post") (
      refresh_operation library 1
        (enrich_operation library 1 (codes "user") (codes "post") create_user))
    ≡ []
unfolding starts_with example_for example_in ref_name split_from choose
operation_failures-enrich_operation_example =
    operation_failures-enrich_operation library 1 no_meta (codes "user") (codes "/api/v1/users")
      (codes "post") create_user

abbrev users_paths : List (Text × PathItem)
users_paths = (codes "/users", (codes "post", create_user) ∷ []) ∷ []

abbrev services : List Service
services =
    record {
      name = codes "auth";
      document = some (record { paths = users_paths; schemas = library; others = [] });
    }
    ∷ record { name = codes "gateway"; document = none }
    ∷ record {
      name = codes "user";
      document = some (record { paths = users_paths; schemas = []; others = [] });
    }
    ∷ []

compose_specs-lookup_example :
    lookup (api_path (codes "/users")) (compose_specs 3 services (initial [] [])).paths
    ≡ last_composed (compose_specs 3 services (initial [] [])).schemas 3 (codes "/users") services
compose_specs-lookup_example = compose_specs-lookup 3 services [] [] (codes "/users")

abbrev before : Paths
before = (codes "/users", (codes "get", codes "1") ∷ (codes "post", codes "2") ∷ []) ∷ []

abbrev now : Paths
now = (codes "/users", (codes "get", codes "3") ∷ []) ∷ []

changelog_lem_example :
    (any (text_same (codes "GET /users")) (changelog before now).additions ≡ false)
    × (any (text_same (codes "GET /users")) (changelog before now).removals ≡ false)
    × (any (text_same (codes "GET /users")) (changelog before now).changes ≡ true)
changelog_lem_example = changelog_lem get (codes "/users") before now

abbrev description : Description
description = record {
  openapi = codes "3.1.0";
  version = some (codes "1.0.0");
  paths = users_paths;
  schemas = codes "BulkResult" ∷ codes "User" ∷ [];
  schemes = codes "bearerAuth" ∷ [];
  webhooks = 1;
  servers = 3;
  links = true;
  error_codes = codes "not_found" ∷ codes "conflict" ∷ [];
}

abbrev repository : Repository
repository = record {
  generated = codes "\"/users\": {";
  package_version = some (codes "1.0.0");
  client = codes "createClient<paths>()";
  go_codes = codes "conflict" ∷ codes "not_found" ∷ [];
}

abbrev page_calls : List Call
page_calls =
    record { method = codes "post"; path = codes "/users"; file = codes "UsersPage.tsx" } ∷ []

failures-nil_iff_example :
    (failures no_meta description repository page_calls ≡ [])
    ↔ IsSound no_meta description repository page_calls
failures-nil_iff_example = failures-nil_iff no_meta description repository page_calls

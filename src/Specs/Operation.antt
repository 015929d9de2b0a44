-- ===== src/Specs/Operation.antt =====
-- scripts/compose-specs.mjs: `enrichOperation`, and what the pass over all paths does with an operation
-- afterwards. A field that is `undefined` or null is `none`.
pub mod Lint
pub mod Passes
pub mod Passing
use go_platform_starter.Prelude.{
  ℕ, zero, suc, ◌+◌, ◌-◌, ◌*◌, Bool, true, false, not, ◌&&◌, ◌||◌, Option, none, some, List, [],
  ◌∷◌, ◌++◌, any, ltb, leb, if◌then◌else◌, get_or_else, Text, codes, text_same, ends_with,
}
use go_platform_starter.Specs.Objects.{lookup, put_missing, map_entries}
use go_platform_starter.Specs.Schema.{Value, undefined, null, Schema}
use go_platform_starter.Specs.Example.{Library, example_for}

-- A media type; `examples` says whether it has the plural field.
pub record Media : Type 0 where
  pub schema : Option Schema
  pub example : Value
  pub examples : Bool

-- A response; a header is given by its reference, or by any text where it is spelt out.
pub record Response : Type 0 where
  pub ref : Option Text
  pub description : Option Text
  pub headers : List (Text × Text)
  pub content : List (Text × Media)

pub record Operation : Type 0 where
  pub operation_id : Option Text
  pub tags : Option (List Text)
  pub summary : Option Text
  pub description : Option Text
  pub deprecated : Option Bool
  -- `x-required-permission` or `x-auth: required`, and `x-internal`
  pub authenticated : Bool
  pub internal : Bool
  -- the names of the schemes
  pub security : Option (List Text)
  -- the references of the parameters, `none` for one that is spelt out
  pub parameters : Option (List (Option Text))
  pub responses : Option (List (Text × Response))
  -- the contents of the request's body
  pub request : List (Text × Media)

abbrev is_digit : ℕ → Bool
is_digit c = leb b'0' c && leb c b'9'

abbrev number_from : ℕ → Text → Option ℕ
number_from acc [] = some acc
number_from acc (c ∷ s) =
    let rest = number_from (acc * 10 + (c - b'0')) s in if is_digit c then rest else none

-- `Number(status) < 400`, of a text of digits or of one that is no number, such as `default`.
abbrev pub is_success : Text → Bool
is_success status = elim (number_from 0 status) [ none ↦ false | some n ↦ ltb n 400 ]

-- `value ??= …`, of an example.
abbrev pub or_example : Value → Value → Value
or_example undefined other = other
or_example null other = other
or_example v other = v

abbrev pub idempotency_key : Text
idempotency_key = codes "#/components/parameters/IdempotencyKey"

-- `parameter.$ref?.endsWith("/IdempotencyKey")`
abbrev pub is_key_like : Option Text → Bool
is_key_like none = false
is_key_like (some r) = ends_with (codes "/IdempotencyKey") r

abbrev pub with_key : List (Option Text) → List (Option Text)
with_key parameters =
    if any is_key_like parameters then parameters else parameters ++ some idempotency_key ∷ []

abbrev pub error_response : Response
error_response = record {
  ref = some (codes "#/components/responses/Error");
  description = none;
  headers = [];
  content = [];
}

-- The five headers, as `response.headers[header] ??= …`.
abbrev with_headers : List (Text × Text) → List (Text × Text)
with_headers headers = put_missing (codes "Sunset") (codes "#/components/headers/Sunset") (
    put_missing (codes "Deprecation") (codes "#/components/headers/Deprecation") (
      put_missing (codes "X-RateLimit-Reset") (codes "#/components/headers/RateLimitReset") (
        put_missing (codes "X-RateLimit-Remaining")
          (codes "#/components/headers/RateLimitRemaining")
          (put_missing (codes "X-RateLimit-Limit") (codes "#/components/headers/RateLimitLimit")
            headers))))

-- `${operation.summary}.`
abbrev pub sentence : Option Text → Text
sentence none = codes "undefined."
sentence (some s) = s ++ codes "."

abbrev pub or_else {ℓ} : {A : Type ℓ} → Option A → Option A → Option A
or_else none b = b
or_else (some a) b = some a

-- `response.$ref`, as a condition
abbrev pub is_ref : Response → Bool
is_ref r = elim r.ref [ none ↦ false | some _ ↦ true ]

abbrev secured : Operation → Option (List Text)
secured op =
    if op.internal
    then some (codes "internalSecret" ∷ [])
    else if op.authenticated
    then or_else op.security (some (codes "bearerAuth" ∷ []))
    else op.security

abbrev pub keyed : Text → Operation → Option (List (Option Text))
keyed method op =
    if text_same method (codes "post")
    then some (with_key (get_or_else op.parameters []))
    else op.parameters

-- `library` is `merged.components.schemas` at the time, and `fuel` bounds how deep references go.
module _ (library : Library) (fuel : ℕ) where
  -- `exampleFor(media.schema, success)`
  abbrev pub media_example : Bool → Media → Value
  media_example success media = elim media.schema [
    | none ↦ undefined
    | some s ↦ get_or_else (example_for library success fuel s) undefined
  ]

  -- `media.example ??= exampleFor(…)`, and `media.example = exampleFor(…)`
  abbrev pub illustrate : Bool → Media → Media
  illustrate success media = record media {
    example = or_example media.example (media_example success media);
  }

  abbrev pub replace_example : Bool → Media → Media
  replace_example success media = record media { example = media_example success media }

  abbrev pub enrich_response : Text → Response → Response
  enrich_response status r = if is_ref r then r else record r {
    headers = with_headers r.headers;
    content = map_entries (λ _ m. illustrate (is_success status) m) r.content;
  }

  -- `enrichOperation`
  unfoldable pub enrich_operation : Text → Text → Operation → Operation
  unfolding put_missing example_for
  enrich_operation service method op =
      let summary = or_else op.summary op.operation_id in
      record {
        operation_id = op.operation_id;
        tags = or_else op.tags (some (service ∷ []));
        summary = summary;
        description = or_else op.description (some (sentence summary));
        deprecated = some (get_or_else op.deprecated false);
        authenticated = op.authenticated;
        internal = op.internal;
        security = secured op;
        parameters = keyed method op;
        responses = some (
            put_missing (codes "default") error_response
              (map_entries enrich_response (get_or_else op.responses [])));
        request = map_entries (λ _ m. illustrate true m) op.request;
      }

  abbrev pub refresh_response : Text → Response → Response
  refresh_response status r = if is_ref r then r else record r {
    content = map_entries (λ _ m. replace_example (is_success status) m) r.content;
  }

  -- The pass over all operations once the components are all there.
  unfoldable pub refresh_operation : Operation → Operation
  unfolding example_for
  refresh_operation op = record op {
    responses = elim op.responses [
      | none ↦ none
      | some rs ↦ some (map_entries refresh_response rs)
    ];
    request = map_entries (λ _ m. replace_example true m) op.request;
  }

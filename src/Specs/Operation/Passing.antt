-- ===== src/Specs/Operation/Passing.antt =====
-- scripts/compose-specs.mjs against scripts/check-contracts.mjs: what the second still finds in an operation
-- that the first has been through.
use go_platform_starter.Prelude.{
  ℕ, Bool, true, false, not, ◌&&◌, Option, none, some, List, [], ◌∷◌, ◌++◌, append-nil, any, ◌≡◌,
  refl, ap, arith, if◌then◌else◌, get_or_else, Text, codes, text_same, text_same_iff, is_empty,
  starts_with,
}
use go_platform_starter.Specs.Objects.{
  lookup, put, put_missing, map_entries, lookup-put_missing, lookup-map_entries,
}
use go_platform_starter.Specs.Example.{Library}
use go_platform_starter.Specs.Operation.{
  Media, Response, Operation, error_response, is_key_like, idempotency_key, is_ref, with_key, keyed,
  or_else, sentence, is_success, media_example, illustrate, replace_example, enrich_response,
  refresh_response, enrich_operation, refresh_operation,
}
use go_platform_starter.Specs.Operation.Lint.{
  Failure, when, blank, content_failures, all_response_failures, operation_failures, missing_id,
  missing_description, missing_tags, missing_error_response, missing_key, list_without_meta,
  missing_response_description, missing_example, is_key, missing_request_example, is_undefined,
  is_list_id, has_error_response, has_no_tags, lacks_key,
}

-- A description that is there and empty, tags that are there and empty.
abbrev pub is_emptied : Option Text → Bool
is_emptied none = false
is_emptied (some s) = is_empty s

abbrev pub is_untagged : Option (List Text) → Bool
is_untagged none = false
is_untagged (some []) = true
is_untagged (some (_ ∷ _)) = false

-- The service's own `default` response is the standard error, where it has one.
abbrev pub has_own_default : List (Text × Response) → Bool
has_own_default rs = elim (lookup (codes "default") rs) [
  | none ↦ true
  | some r ↦ elim r.ref [
    | none ↦ false
    | some name ↦ text_same name (codes "#/components/responses/Error")
  ]
]

-- Some parameter refers to a key by another name than the lint's.
abbrev pub has_other_key : List (Option Text) → Bool
has_other_key parameters = any is_key_like parameters && not (any is_key parameters)

blank-described :
    (d summary : Option Text) → blank (or_else d (some (sentence summary))) ≡ is_emptied d
blank-described (some d) summary = refl
blank-described none none = refl
blank-described none (some []) = refl
blank-described none (some (_ ∷ _)) = refl

untagged :
    (tags : Option (List Text)) (service : Text)
    → has_no_tags (or_else tags (some (service ∷ []))) ≡ is_untagged tags
untagged none service = refl
untagged (some []) service = refl
untagged (some (_ ∷ _)) service = refl

any-key :
    (parameters : List (Option Text)) → any is_key (parameters ++ some idempotency_key ∷ []) ≡ true
any-key [] = refl
any-key (p ∷ parameters) = ground (arith, any-key parameters)

lacks_key-with_key :
    (parameters : List (Option Text))
    → lacks_key (some (with_key parameters)) ≡ has_other_key parameters
lacks_key-with_key parameters = ground (arith, any-key parameters)

keyed_lem :
    (api : Bool) (method : Text) (op : Operation)
    → (api && text_same method (codes "post") && lacks_key (keyed method op))
      ≡ (api && text_same method (codes "post") && has_other_key (get_or_else op.parameters []))
keyed_lem api method op = ground (arith, lacks_key-with_key (get_or_else op.parameters []))

module _ (library : Library) (fuel : ℕ) where
  -- The media whose schema has no example, and which have no plural examples either.
  abbrev pub bare_content : (Text → Failure) → Bool → List (Text × Media) → List Failure
  bare_content fail success [] = []
  bare_content fail success ((type, m) ∷ content) =
      when (is_undefined (media_example library fuel success m) && not m.examples) (fail type)
      ++ bare_content fail success content

  abbrev pub bare_responses : List (Text × Response) → List Failure
  bare_responses [] = []
  bare_responses ((status, r) ∷ rs) =
      (if is_ref r
        then []
        else when (blank r.description) (missing_response_description status)
          ++ bare_content (missing_example status) (is_success status) r.content)
      ++ bare_responses rs

  replaced_content :
      (fail : Text → Failure) (success : Bool) (content : List (Text × Media))
      → content_failures fail (
          map_entries
            (λ _ m. replace_example library fuel success m)
            (map_entries (λ _ m. illustrate library fuel success m) content))
        ≡ bare_content fail success content
  replaced_content fail success [] = refl
  replaced_content fail success ((type, m) ∷ content) =
      ap
        (λ rest.
          when (is_undefined (media_example library fuel success m) && not m.examples) (fail type)
          ++ rest)
        (replaced_content fail success content)

  replaced_responses :
      (rs : List (Text × Response))
      → all_response_failures (
          map_entries
            (refresh_response library fuel)
            (map_entries (enrich_response library fuel) rs))
        ≡ bare_responses rs
  replaced_responses [] = refl
  replaced_responses ((status, r) ∷ rs) = ground (
    arith,
    replaced_responses rs,
    replaced_content (missing_example status) (is_success status) r.content,
  )

  -- A reference adds no failure where it is appended.
  put_reference :
      (name : Text) (rs : List (Text × Response))
      → lookup name rs ≡ none
      → all_response_failures
          (map_entries (refresh_response library fuel) (put name error_response rs))
        ≡ all_response_failures (map_entries (refresh_response library fuel) rs)
  unfolding put
  put_reference name [] missing = refl
  put_reference name ((other, r) ∷ rs) missing = ground (arith, put_reference name rs)

  put_default :
      (name : Text) (rs : List (Text × Response))
      → all_response_failures
          (map_entries (refresh_response library fuel) (put_missing name error_response rs))
        ≡ all_response_failures (map_entries (refresh_response library fuel) rs)
  unfolding put_missing
  put_default name rs = ground (arith, put_reference name rs)

  abbrev pub composed_response : Text → Option Response → Option Response
  composed_response status none = none
  composed_response status (some r) =
      some (refresh_response library fuel status (enrich_response library fuel status r))

  -- What the source description of an operation leaves for the lint to find.
  abbrev pub remaining_failures : (Option Response → Bool) → Text → Text → Operation → List Failure
  remaining_failures has_meta path method op =
      let api = starts_with (codes "/api/v1") path in
      when (blank op.operation_id) missing_id
      ++ when (is_emptied op.description) missing_description
      ++ when (is_untagged op.tags) missing_tags
      ++ when (api && not (has_own_default (get_or_else op.responses []))) missing_error_response
      ++ bare_responses (get_or_else op.responses [])
      ++ bare_content missing_request_example true op.request
      ++ when
          (api && text_same method (codes "post") && has_other_key (get_or_else op.parameters []))
          missing_key
      ++ when
          (is_list_id op.operation_id
            && not (
                has_meta (
                  composed_response (codes "200")
                    (lookup (codes "200") (get_or_else op.responses [])))))
          list_without_meta

  lookup-refreshed :
      (name : Text) (rs : List (Text × Response))
      → lookup name (
          map_entries (refresh_response library fuel) (
            put_missing
              (codes "default")
              error_response
              (map_entries (enrich_response library fuel) rs)))
        ≡ elim (lookup name rs) [
          | none ↦ if text_same (codes "default") name then some error_response else none
          | some r ↦ some (refresh_response library fuel name (enrich_response library fuel name r))
        ]
  lookup-refreshed name rs = ground (
    arith,
    lookup-map_entries (refresh_response library fuel) name (
        put_missing (codes "default") error_response
          (map_entries (enrich_response library fuel) rs)),
    lookup-put_missing (codes "default") name error_response
        (map_entries (enrich_response library fuel) rs),
    lookup-map_entries (enrich_response library fuel) name rs,
    text_same_iff (codes "default") name,
  )

  refreshed_200 :
      (rs : List (Text × Response))
      → lookup (codes "200") (
          map_entries (refresh_response library fuel) (
            put_missing
              (codes "default")
              error_response
              (map_entries (enrich_response library fuel) rs)))
        ≡ composed_response (codes "200") (lookup (codes "200") rs)
  refreshed_200 rs = ground (arith, lookup-refreshed (codes "200") rs)

  -- Neither pass touches the reference of a response.
  has_error_response_lem :
      (service method : Text) (op : Operation)
      → has_error_response
          (refresh_operation library fuel (enrich_operation library fuel service method op))
        ≡ has_own_default (get_or_else op.responses [])
  unfolding refresh_operation enrich_operation
  has_error_response_lem service method op =
      ground (arith, lookup-refreshed (codes "default") (get_or_else op.responses []))

  -- The lint of an operation that has been through both passes finds exactly what its source leaves: an id
  -- that is missing, a description or tags that are there and empty, a `default` of the service's own that is
  -- not the standard error, responses with no description, media whose schema has no example, a key by
  -- another name, and a list without its meta data.
  pub operation_failures-enrich_operation :
      (has_meta : Option Response → Bool) (service path method : Text) (op : Operation)
      → operation_failures has_meta path method
          (refresh_operation library fuel (enrich_operation library fuel service method op))
        ≡ remaining_failures has_meta path method op
  unfolding operation_failures refresh_operation enrich_operation
  operation_failures-enrich_operation has_meta service path method op = rw (
    has_error_response_lem service method op,
    blank-described op.description (or_else op.summary op.operation_id),
    untagged op.tags service,
    keyed_lem (starts_with (codes "/api/v1") path) method op,
    put_default (codes "default")
        (map_entries (enrich_response library fuel) (get_or_else op.responses [])),
    replaced_responses (get_or_else op.responses []),
    replaced_content missing_request_example true op.request,
    refreshed_200 (get_or_else op.responses []),
    append-nil (
        when (blank op.operation_id) missing_id
        ++ when (is_emptied op.description) missing_description
        ++ when (is_untagged op.tags) missing_tags),
  )

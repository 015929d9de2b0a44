-- ===== src/Specs/Operation/Passes.antt =====
-- scripts/compose-specs.mjs: the second pass over an operation after the first.
use go_platform_starter.Prelude.{
  ℕ, Bool, true, List, [], ◌≡◌, refl, Text, codes, get_or_else, arith, if◌then◌else◌,
}
use go_platform_starter.Specs.Objects.{
  map_entries, put_missing, map_entries-map_entries, map_entries-put_missing,
}
use go_platform_starter.Specs.Example.{Library}
use go_platform_starter.Specs.Operation.{
  Media, Response, Operation, is_ref, is_success, illustrate, replace_example, with_headers,
  error_response, enrich_response, refresh_response, enrich_operation, refresh_operation,
}

-- `before` is the library and fuel at the first pass, `after` at the second.
module _ (before after : Library) (fuel fuel' : ℕ) where
  replaced :
      (success : Bool) (content : List (Text × Media))
      → map_entries
          (λ _ m. replace_example after fuel' success m)
          (map_entries (λ _ m. illustrate before fuel success m) content)
        ≡ map_entries (λ _ m. replace_example after fuel' success m) content
  replaced success content =
      map_entries-map_entries (λ _ m. replace_example after fuel' success m)
        (λ _ m. illustrate before fuel success m) (λ _ m. replace_example after fuel' success m)
        (λ _ m. refl) content

  -- What both passes make of a response.
  abbrev described : Text → Response → Response
  described status r = if is_ref r then r else record r {
    headers = with_headers r.headers;
    content = map_entries (λ _ m. replace_example after fuel' (is_success status) m) r.content;
  }

  refresh-enrich_response :
      (status : Text) (r : Response)
      → refresh_response after fuel' status (enrich_response before fuel status r)
        ≡ described status r
  refresh-enrich_response status r = ground (arith, replaced (is_success status) r.content)

  refreshed_responses :
      (rs : List (Text × Response))
      → map_entries (refresh_response after fuel') (
          put_missing
            (codes "default")
            error_response
            (map_entries (enrich_response before fuel) rs))
        ≡ put_missing (codes "default") error_response (map_entries described rs)
  refreshed_responses rs = rw (
    map_entries-put_missing (refresh_response after fuel') (codes "default") error_response
        (map_entries (enrich_response before fuel) rs),
    map_entries-map_entries (refresh_response after fuel') (enrich_response before fuel) described
        refresh-enrich_response rs,
  )

-- The examples of the first pass do not last: whatever library and fuel it has, the second pass leaves what
-- it would leave if the first had run with the second's.
pub refresh_operation-enrich_operation :
    (before after : Library) (fuel fuel' : ℕ) (service method : Text) (op : Operation)
    → refresh_operation after fuel' (enrich_operation before fuel service method op)
      ≡ refresh_operation after fuel' (enrich_operation after fuel' service method op)
unfolding refresh_operation enrich_operation
refresh_operation-enrich_operation before after fuel fuel' service method op = rw (
  refreshed_responses before after fuel fuel' (get_or_else op.responses []),
  refreshed_responses after after fuel' fuel' (get_or_else op.responses []),
  replaced before after fuel fuel' true op.request,
  replaced after after fuel' fuel' true op.request,
)

-- ===== src/Specs/Compose/Paths.antt =====
-- scripts/compose-specs.mjs: whose operations stand at a path of the whole, and what has become of them.
use go_platform_starter.Prelude.{
  ℕ, Option, none, some, List, [], ◌∷◌, ◌≡◌, refl, ap, sym, arith, if◌then◌else◌, Text, text_same,
  map_some,
}
use go_platform_starter.Specs.Objects.{
  lookup, put, map_entries, lookup-put, lookup-mapped, map_entries-map_entries,
}
use go_platform_starter.Specs.Example.{Library}
use go_platform_starter.Specs.Operation.{Operation, or_else, enrich_operation, refresh_operation}
use go_platform_starter.Specs.Operation.Passes.{refresh_operation-enrich_operation}
use go_platform_starter.Specs.Compose.{
  PathItem, Service, Merged, initial, is_method, api_path, enrich_entry, refresh_entry, add_paths,
  add_service, add_services, finish, compose_specs,
}
use go_platform_starter.Specs.Compose.Merging.{or_else-none, or_else_assoc}

map_some-or_else :
    {A B : Type 0}
    → (f : A → B) (a b : Option A)
    → map_some f (or_else a b) ≡ or_else (map_some f a) (map_some f b)
map_some-or_else f none b = refl
map_some-or_else f (some a) b = refl

-- The last entry by the name, which in an object is the only one.
abbrev pub last_item : Text → List (Text × PathItem) → Option PathItem
last_item path [] = none
last_item path ((other, item) ∷ paths) =
    or_else (last_item path paths) (if text_same other path then some item else none)

lookup-add_paths :
    (library : Library) (fuel : ℕ) (service path : Text) (paths merged : List (Text × PathItem))
    → lookup (api_path path) (add_paths library fuel service paths merged)
      ≡ or_else
          (map_some (map_entries (enrich_entry library fuel service)) (last_item path paths))
          (lookup (api_path path) merged)
lookup-add_paths library fuel service path [] merged = refl
lookup-add_paths library fuel service path ((other, item) ∷ paths) merged = ground (
  arith,
  lookup-add_paths library fuel service path paths
      (put (api_path other) (map_entries (enrich_entry library fuel service) item) merged),
  lookup-put (api_path other) (api_path path) (map_entries (enrich_entry library fuel service) item)
      merged,
)

module _ (after : Library) (fuel : ℕ) where
  -- Both passes with the whole's schemas, over a path item of a service.
  abbrev pub composed_entry : Text → Text → Operation → Operation
  composed_entry service method op =
      if is_method method
      then refresh_operation after fuel (enrich_operation after fuel service method op)
      else op

  refresh_entry-enrich_entry :
      (before : Library) (service method : Text) (op : Operation)
      → refresh_entry after fuel method (enrich_entry before fuel service method op)
        ≡ composed_entry service method op
  refresh_entry-enrich_entry before service method op =
      ground (arith, refresh_operation-enrich_operation before after fuel fuel service method op)

  -- The second pass over what is found at a path.
  abbrev pub refreshed : Option PathItem → Option PathItem
  refreshed = map_some (map_entries (refresh_entry after fuel))

  refreshed-enriched :
      (before : Library) (service : Text) (found : Option PathItem)
      → refreshed (map_some (map_entries (enrich_entry before fuel service)) found)
        ≡ map_some (map_entries (composed_entry service)) found
  refreshed-enriched before service none = refl
  refreshed-enriched before service (some item) = ap some (
      map_entries-map_entries (refresh_entry after fuel) (enrich_entry before fuel service)
        (composed_entry service) (refresh_entry-enrich_entry before service) item)

  -- The path item of the last service that has the path, composed.
  abbrev pub own_composed : Text → Service → Option PathItem
  own_composed path service = elim service.document [
    | none ↦ none
    | some d ↦ map_some (map_entries (composed_entry service.name)) (last_item path d.paths)
  ]

  abbrev pub last_composed : Text → List Service → Option PathItem
  last_composed path [] = none
  last_composed path (service ∷ services) =
      or_else (last_composed path services) (own_composed path service)

  refreshed-add_service :
      (path : Text) (service : Service) (merged : Merged)
      → refreshed (lookup (api_path path) (add_service fuel service merged).paths)
        ≡ or_else (own_composed path service) (refreshed (lookup (api_path path) merged.paths))
  refreshed-add_service path service merged =
      elim (service.document)
        as (λ doc.
          refreshed (
            lookup (api_path path)
              (add_service fuel (record service { document = doc }) merged).paths)
          ≡ or_else (own_composed path (record service { document = doc }))
              (refreshed (lookup (api_path path) merged.paths))) [
                | none ↦ refl
                | some d ↦ rw (
                  lookup-add_paths merged.schemas fuel service.name path d.paths merged.paths,
                  map_some-or_else (map_entries (refresh_entry after fuel))
                      (map_some (map_entries (enrich_entry merged.schemas fuel service.name))
                        (last_item path d.paths))
                      (lookup (api_path path) merged.paths),
                  refreshed-enriched merged.schemas service.name (last_item path d.paths),
                )
              ]

  refreshed-add_services :
      (path : Text) (services : List Service) (merged : Merged)
      → refreshed (lookup (api_path path) (add_services fuel services merged).paths)
        ≡ or_else (last_composed path services) (refreshed (lookup (api_path path) merged.paths))
  unfolding add_services
  refreshed-add_services path [] merged = refl
  refreshed-add_services path (service ∷ services) merged =
      rw
        (
          refreshed-add_services path services (add_service fuel service merged),
          refreshed-add_service path service merged,
        )
        (sym (
          or_else_assoc (last_composed path services) (own_composed path service)
            (refreshed (lookup (api_path path) merged.paths))))

-- A path of the whole has the operations of the last service that describes it, whatever an earlier service
-- says of the same path, and each is enriched and illustrated with the schemas of the finished whole.
pub compose_specs-lookup :
    (fuel : ℕ) (services : List Service) (schemas : Library)
    (others : List (Text × List (Text × Text))) (path : Text)
    → lookup (api_path path) (compose_specs fuel services (initial schemas others)).paths
      ≡ last_composed
          (compose_specs fuel services (initial schemas others)).schemas
          fuel
          path
          services
unfolding finish
compose_specs-lookup fuel services schemas others path =
    let library = (compose_specs fuel services (initial schemas others)).schemas in
    rw
      (
        lookup-mapped (λ _ item. map_entries (refresh_entry library fuel) item) (api_path path)
            (add_services fuel services (initial schemas others)).paths,
        refreshed-add_services library fuel path services (initial schemas others),
      )
      (or_else-none (last_composed library fuel path services))

-- ===== src/Specs/Compose/Merging.antt =====
-- scripts/compose-specs.mjs: whose component, and whose path, the whole has.
use go_platform_starter.Prelude.{
  ℕ, Option, none, some, List, [], ◌∷◌, ◌≡◌, refl, sym, arith, Text, text_same_iff, map_some,
}
use go_platform_starter.Specs.Objects.{lookup, put_missing, lookup-put_missing, lookup-mapped}
use go_platform_starter.Specs.Schema.{Schema}
use go_platform_starter.Specs.Example.{Library}
use go_platform_starter.Specs.Operation.{or_else}
use go_platform_starter.Specs.Compose.{
  Document, Service, Merged, initial, add_missing, add_service, add_services, with_error_codes,
  finish, compose_specs,
}

pub or_else-none : {A : Type 0} → (a : Option A) → or_else a none ≡ a
or_else-none none = refl
or_else-none (some a) = refl

pub or_else_assoc :
    {A : Type 0} → (a b c : Option A) → or_else (or_else a b) c ≡ or_else a (or_else b c)
or_else_assoc none b c = refl
or_else_assoc (some a) b c = refl

lookup-add_missing :
    {A : Type 0}
    → (name : Text) (values merged : List (Text × A))
    → lookup name (add_missing values merged) ≡ or_else (lookup name merged) (lookup name values)
lookup-add_missing name [] merged = ground (arith, or_else-none (lookup name merged))
lookup-add_missing name ((other, value) ∷ values) merged = ground (
  arith,
  lookup-add_missing name values (put_missing other value merged),
  lookup-put_missing other name value merged,
  text_same_iff other name,
)

abbrev own_schema : Text → Option Document → Option Schema
own_schema name none = none
own_schema name (some d) = lookup name d.schemas

lookup-add_service-schemas :
    (name : Text) (fuel : ℕ) (service : Service) (merged : Merged)
    → lookup name (add_service fuel service merged).schemas
      ≡ or_else (lookup name merged.schemas) (own_schema name service.document)
lookup-add_service-schemas name fuel service merged =
    elim (service.document)
      as (λ doc.
        lookup name (add_service fuel (record service { document = doc }) merged).schemas
        ≡ or_else (lookup name merged.schemas) (own_schema name doc)) [
          | none ↦ sym (or_else-none (lookup name merged.schemas))
          | some d ↦ lookup-add_missing name d.schemas merged.schemas
        ]

-- The schema of the first service that has one by the name.
abbrev pub first_schema : Text → List Service → Option Schema
first_schema name [] = none
first_schema name (service ∷ services) =
    or_else (own_schema name service.document) (first_schema name services)

lookup-add_services-schemas :
    (name : Text) (fuel : ℕ) (services : List Service) (merged : Merged)
    → lookup name (add_services fuel services merged).schemas
      ≡ or_else (lookup name merged.schemas) (first_schema name services)
unfolding add_services
lookup-add_services-schemas name fuel [] merged =
    ground (arith, or_else-none (lookup name merged.schemas))
lookup-add_services-schemas name fuel (service ∷ services) merged =
    rw
      (
        lookup-add_services-schemas name fuel services (add_service fuel service merged),
        lookup-add_service-schemas name fuel service merged,
      )
      (or_else_assoc (lookup name merged.schemas) (own_schema name service.document)
        (first_schema name services))

-- A schema of the whole is the one that the script starts with where it has one by the name, else that of
-- the first service which does; only `EnvelopeFail` is changed after that.
compose_specs-schemas :
    (fuel : ℕ) (services : List Service) (schemas : Library)
    (others : List (Text × List (Text × Text))) (name : Text)
    → lookup name (compose_specs fuel services (initial schemas others)).schemas
      ≡ map_some
          (with_error_codes name)
          (or_else (lookup name schemas) (first_schema name services))
unfolding finish
compose_specs-schemas fuel services schemas others name = rw (
  lookup-mapped with_error_codes name (add_services fuel services (initial schemas others)).schemas,
  lookup-add_services-schemas name fuel services (initial schemas others),
)

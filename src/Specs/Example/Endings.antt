-- ===== src/Specs/Example/Endings.antt =====
-- When the recursion of `exampleFor` through the references ends.
use go_platform_starter.Prelude.{
  ℕ, zero, suc, ◌<◌, Bool, Option, none, some, List, [], ◌∷◌, ◌++◌, ◌≡◌, refl, arith, All,
  All-split, Text, Option-cases, inl, inr,
}
use go_platform_starter.Specs.Schema.{
  Value, undefined, obj, arr, Values, TypeName, TypeField, Fields, end, Keywords, Schema, schema,
  Parts, no_parts, all_of, Schemas, last, also, Properties, finished, property, Items, no_items,
  items,
}
use go_platform_starter.Specs.Example.{
  choose, assign, own_fields, has_parts, example_in, example_parts, example_all, example_properties,
  example_items, Library, lookup_schema, ref_name, follow, example_for,
}

-- The references in a schema.
unfoldable mutual
  pub refs : Schema → List Text
  refs (schema k (some name) parts properties list) = name ∷ []
  refs (schema k none parts properties list) =
      refs_parts parts ++ (refs_properties properties ++ refs_items list)

  refs_parts : Parts → List Text
  refs_parts no_parts = []
  refs_parts (all_of ss) = refs_all ss

  refs_all : Schemas → List Text
  refs_all last = []
  refs_all (also s ss) = refs s ++ refs_all ss

  refs_properties : Properties → List Text
  refs_properties finished = []
  refs_properties (property name s rest) = refs s ++ refs_properties rest

  refs_items : Items → List Text
  refs_items no_items = []
  refs_items (items s) = refs s

-- The recursion has ended.
abbrev pub Ends {ℓ} : {A : Type ℓ} → Option A → Type ℓ
Ends {A = A} o = (a : A) × (o ≡ some a)

choose-Ends :
    (success : Bool) (k : Keywords) (parted : Bool) (merged whole listed : Option Value)
    → Ends merged
    → Ends whole
    → Ends listed
    → Ends (choose success k parted merged whole listed)
unfolding choose
choose-Ends success k parted merged whole listed (m, em) (w, ew) (l, el) =
    elim (Option-cases (choose success k parted merged whole listed)) [
      | inl e ↦ absurd (ground arith)
      | inr r ↦ r
    ]

module _ (resolve : Text → Option Value) (success : Bool) where
  abbrev Settles : Text → Type 0
  Settles r = Ends (resolve r)

  mutual
    unfolding refs example_in

    example_in-Ends : (s : Schema) → All Settles (refs s) → Ends (example_in resolve success s)
    example_in-Ends (schema k (some name) parts properties list) h = h.0
    example_in-Ends (schema k none parts properties list) h =
        let (hp, rest) =
          All-split Settles (refs_parts parts) (refs_properties properties ++ refs_items list) h in
        let (ho, hi) = All-split Settles (refs_properties properties) (refs_items list) rest in
        let (ps, ep) = example_parts-Ends parts hp in
        let (os, eo) = example_properties-Ends properties ho in
        let (v, ev) = example_items-Ends list hi in
        choose-Ends success k (has_parts parts) _ _ _ (obj ps, rw ep refl) (obj os, rw eo refl)
          (arr (Values.cons v Values.nil), rw ev refl)

    example_parts-Ends :
        (ps : Parts) → All Settles (refs_parts ps) → Ends (example_parts resolve success ps)
    example_parts-Ends no_parts h = (end, refl)
    example_parts-Ends (all_of ss) h = example_all-Ends ss end h

    example_all-Ends :
        (ss : Schemas) (before : Fields)
        → All Settles (refs_all ss)
        → Ends (example_all resolve success ss before)
    example_all-Ends last before h = (before, refl)
    example_all-Ends (also s ss) before h =
        let (hs, rest) = All-split Settles (refs s) (refs_all ss) h in
        let (v, e) = example_in-Ends s hs in
        rw e (example_all-Ends ss (assign before (own_fields v)) rest)

    example_properties-Ends :
        (ps : Properties)
        → All Settles (refs_properties ps)
        → Ends (example_properties resolve success ps)
    example_properties-Ends finished h = (end, refl)
    example_properties-Ends (property name s rest) h =
        let (hs, hr) = All-split Settles (refs s) (refs_properties rest) h in
        let (v, e) = example_in-Ends s hs in
        let (fs, d) = example_properties-Ends rest hr in (Fields.field name v fs, rw (e, d) refl)

    example_items-Ends :
        (i : Items) → All Settles (refs_items i) → Ends (example_items resolve success i)
    example_items-Ends no_items h = (undefined, refl)
    example_items-Ends (items s) h = example_in-Ends s h

-- Each schema of the library refers only to schemas of a lower rank.
pub record IsRanked (library : Library) : Type 0 where
  pub rank : Text → ℕ
  pub below :
      (name : Text) (s : Schema)
      → lookup_schema name library ≡ some s
      → All (λ r. rank (ref_name r) < rank name) (refs s)

All-imp {ℓ κ ι} :
    {A : Type ℓ} {P : A → Type κ} {Q : A → Type ι}
    → (xs : List A) → ((a : A) → P a → Q a)
    → All P xs
    → All Q xs
All-imp [] f h = tt
All-imp (x ∷ xs) f h = (f x h.0, All-imp xs f h.1)

module _ (library : Library) (success : Bool) (ranked : IsRanked library) where
  open ranked use {rank, below}

  follow-Ends :
      (fuel : ℕ) (r : Text) → rank (ref_name r) < fuel → Ends (follow library success fuel r)
  unfolding follow
  follow-Ends zero r h = absurd (omega arith)
  follow-Ends (suc fuel) r h = elim (Option-cases (lookup_schema (ref_name r) library)) [
    | inl missing ↦ (undefined, rw (missing, follow) refl)
    | inr (s, e) ↦
        rw (e, follow)
          (example_in-Ends (follow library success fuel) success s
            (All-imp (refs s) (λ q l. follow-Ends fuel q (omega arith)) (below (ref_name r) s e)))
  ]

  -- Where no schema of the library refers to itself, not through others either, `exampleFor` gives an
  -- example: it is enough to follow references as deep as the highest rank that the schema refers to.
  pub example_for-Ends :
      (fuel : ℕ) (s : Schema)
      → All (λ r. rank (ref_name r) < fuel) (refs s)
      → Ends (example_for library success fuel s)
  unfolding example_for
  example_for-Ends fuel s h =
      example_in-Ends (follow library success fuel) success s
        (All-imp (refs s) (follow-Ends fuel) h)

-- A schema of the library whose items are a reference to itself: then the recursion has no end, however
-- deep the references are followed.
example_for_endless :
    (library : Library) (success : Bool) (k : Keywords) (r : Text) (fuel : ℕ)
    → k.example ≡ none
    → k.type ≡ TypeField.typed TypeName.array
    → lookup_schema (ref_name r) library
      ≡ some
          (schema k none no_parts finished (items (schema k (some r) no_parts finished no_items)))
    → follow library success fuel r ≡ none
unfolding follow choose example_in
example_for_endless library success k r zero e t h = refl
example_for_endless library success k r (suc fuel) e t h =
    let deeper = example_for_endless library success k r fuel e t h in
    rw (h, follow) (ground (arith, deeper))

-- ===== src/Specs/Example/Types.antt =====
-- An example is of the type that its schema declares.
use go_platform_starter.Prelude.{
  ℕ, ◌<◌, Bool, true, false, Option, none, some, List, ◌≡◌, ◌⊎◌, inl, inr, refl, arith, All, Text,
  Option-cases,
}
use go_platform_starter.Specs.Schema.{
  Value, null, bool, num, str, arr, obj, Fields, TypeName, object, array, string, integer, number,
  boolean, typed, Keywords, schema, no_parts, Properties, Items,
}
use go_platform_starter.Specs.Example.{
  first_value, scalar, choose, or_text, format_example, plain_example, same_type, list_of,
  object_of, example_in, example_for, Library, ref_name,
}
use go_platform_starter.Specs.Example.Endings.{refs, IsRanked, example_for-Ends}

-- The value is of the type.
abbrev pub has_type : TypeName → Value → Bool
has_type object (obj _) = true
has_type array (arr _) = true
has_type string (str _) = true
has_type integer (num _) = true
has_type number (num _) = true
has_type boolean (bool _) = true
has_type TypeName.null_type null = true
has_type _ _ = false

-- The keywords declare the type `t`, which is not that of null alone; the values that they hold are of
-- that type, and a format stands only at a string.
pub record IsTyped (t : TypeName) (k : Keywords) : Type 0 where
  pub declared : k.type ≡ typed t
  pub example_typed : (v : Value) → k.example ≡ some v → has_type t v ≡ true
  pub default_typed : (v : Value) → k.default ≡ some v → has_type t v ≡ true
  pub enum_typed : (vs : List Value) → k.enum ≡ some vs → has_type t (first_value vs) ≡ true
  pub formatted : (t ≡ string) ⊎ (k.format ≡ none)
  pub some_value : same_type t TypeName.null_type ≡ false

-- The types of scalars.
abbrev is_scalar : TypeName → Bool
is_scalar object = false
is_scalar array = false
is_scalar TypeName.null_type = false
is_scalar _ = true

-- The lines behind `default`.
unset_value : Bool → Keywords → Value
unset_value success k = or_text (format_example k) (plain_example success k)

or_text-string :
    (o : Option Text) (v : Value) → has_type string v ≡ true → has_type string (or_text o v) ≡ true
or_text-string none v h = h
or_text-string (some t) v h = refl

unset-has_type :
    (t : TypeName) (success : Bool) (k : Keywords)
    → k.type ≡ typed t
    → (t ≡ string) ⊎ (k.format ≡ none)
    → is_scalar t ≡ true
    → has_type t (unset_value success k) ≡ true
unfolding unset_value
unset-has_type object success k d f s = absurd (ground arith)
unset-has_type array success k d f s = absurd (ground arith)
unset-has_type string success k d f s =
    or_text-string (format_example k) (plain_example success k) (rw d refl)
unset-has_type integer success k d (inl f) s = absurd (ground arith)
unset-has_type integer success k d (inr f) s = rw (d, f) refl
unset-has_type number success k d (inl f) s = absurd (ground arith)
unset-has_type number success k d (inr f) s = rw (d, f) refl
unset-has_type boolean success k d (inl f) s = absurd (ground arith)
unset-has_type boolean success k d (inr f) s = rw (d, f) refl
unset-has_type TypeName.null_type success k d f s = absurd (ground arith)

scalar-has_type :
    (t : TypeName) (success : Bool) (k : Keywords)
    → IsTyped t k
    → is_scalar t ≡ true
    → has_type t (scalar success k) ≡ true
unfolding scalar
scalar-has_type t success k h s = elim (Option-cases k.enum) [
  | inr (vs, e) ↦ elim (Option-cases k.default) [
    | inl d ↦ ground (arith, h.enum_typed vs e)
    | inr (v, d) ↦ ground (arith, h.enum_typed vs e, h.default_typed v d)
  ]
  | inl e ↦ elim (Option-cases k.default) [
    | inr (v, d) ↦ ground (arith, h.default_typed v d)
    | inl d ↦ rw (e, d) (unfold unset_value in unset-has_type t success k h.declared h.formatted s)
  ]
]

choose-has_type :
    (t : TypeName) (success : Bool) (k : Keywords) (v : Value) (merged : Option Value)
    (fs : Option Fields) (item : Option Value)
    → IsTyped t k
    → choose success k false merged (object_of fs) (list_of item) ≡ some v
    → has_type t v ≡ true
unfolding choose
choose-has_type object success k v merged fs item h e =
    ground (arith, h.declared, h.example_typed v)
choose-has_type array success k v merged fs item h e = ground (arith, h.declared, h.example_typed v)
choose-has_type string success k v merged fs item h e =
    ground (arith, h.declared, h.example_typed v, scalar-has_type string success k h refl)
choose-has_type integer success k v merged fs item h e =
    ground (arith, h.declared, h.example_typed v, scalar-has_type integer success k h refl)
choose-has_type number success k v merged fs item h e =
    ground (arith, h.declared, h.example_typed v, scalar-has_type number success k h refl)
choose-has_type boolean success k v merged fs item h e =
    ground (arith, h.declared, h.example_typed v, scalar-has_type boolean success k h refl)
choose-has_type TypeName.null_type success k v merged fs item h e =
    absurd (ground (arith, h.some_value))

-- A schema with no reference and no `allOf`, which declares a type that is not null, has an example of that type,
-- followed as deep as its references are ranked; so long as its own example, its default and the first value of
-- its enumeration, where it has them, are of that type, and it has a format only if it is a string.
pub example_for-has_type :
    (library : Library) (success : Bool) (ranked : IsRanked library) (t : TypeName) (k : Keywords)
    (ps : Properties) (i : Items) (fuel : ℕ)
    → IsTyped t k
    → All (λ r. ranked.rank (ref_name r) < fuel) (refs (schema k none no_parts ps i))
    → (v : Value) × (example_for library success fuel (schema k none no_parts ps i) ≡ some v)
      × (has_type t v ≡ true)
unfolding example_for example_in
example_for-has_type library success ranked t k ps i fuel h deep =
    let (v, e) = example_for-Ends library success ranked fuel (schema k none no_parts ps i) deep in
    (v, e, choose-has_type t success k v _ _ _ h e)

-- ===== src/Specs/Example.antt =====
-- scripts/compose-specs.mjs: `exampleFor`, the example of a schema. A reference is followed by the
-- function `resolve`, so that the recursion on the schema itself is structural.
pub mod Endings
pub mod Types
use go_platform_starter.Prelude.{
  ℕ, zero, suc, ◌-◌, Bool, true, false, not, ◌&&◌, ◌||◌, Option, none, some, List, [], ◌∷◌, ◌++◌,
  if◌then◌else◌, get_or_else, length, Text, codes, text_same, has_text, split, decimal, find,
}
use go_platform_starter.Specs.Schema.{
  Value, undefined, null, bool, num, str, arr, obj, Values, nil, cons, Fields, end, field, TypeName,
  object, array, string, integer, number, boolean, TypeField, untyped, typed, one_of, Keywords,
  Schema, schema, Parts, no_parts, all_of, Schemas, last, also, Properties, finished, property,
  Items, no_items, items,
}

-- `target[name] = value`, which keeps the place of a name that is there.
abbrev pub put_field : Text → Value → Fields → Fields
put_field name v end = field name v end
put_field name v (field other w rest) =
    let deeper = put_field name v rest in
    if text_same other name then field other v rest else field other w deeper

-- The own properties of a value from the index `i` on: a text or an array has its indices.
abbrev pub indexed : ℕ → Values → Fields
indexed i nil = end
indexed i (cons v vs) = field (decimal i) v (indexed (suc i) vs)

abbrev pub characters : ℕ → Text → Fields
characters i [] = end
characters i (c ∷ s) = field (decimal i) (str (c ∷ [])) (characters (suc i) s)

abbrev pub own_fields : Value → Fields
own_fields (obj fs) = fs
own_fields (arr vs) = indexed 0 vs
own_fields (str s) = characters 0 s
own_fields _ = end

-- `Object.assign(target, source)`
abbrev pub assign : Fields → Fields → Fields
assign target end = target
assign target (field name v rest) = assign (put_field name v target) rest

abbrev is_nullish : Value → Bool
is_nullish undefined = true
is_nullish null = true
is_nullish _ = false

abbrev pub first_value : List Value → Value
first_value [] = undefined
first_value (v ∷ _) = v

-- `schema.default ?? schema.enum[0]`
abbrev pub enum_value : Option Value → List Value → Value
enum_value none values = first_value values
enum_value (some v) values = if is_nullish v then first_value values else v

abbrev pub same_type : TypeName → TypeName → Bool
same_type object object = true
same_type array array = true
same_type string string = true
same_type integer integer = true
same_type number number = true
same_type boolean boolean = true
same_type TypeName.null_type TypeName.null_type = true
same_type _ _ = false

-- `schema.type === name`
abbrev pub is_type : TypeField → TypeName → Bool
is_type (typed t) name = same_type t name
is_type _ name = false

abbrev pub is_format : Option Text → Text → Bool
is_format none t = false
is_format (some s) t = text_same s t

-- `schema.pattern?.includes(t)`
abbrev pub pattern_has : Option Text → Text → Bool
pattern_has none t = false
pattern_has (some p) t = has_text t p

-- `repeat` of the letter x.
abbrev pub xs : ℕ → Text
xs zero = []
xs (suc n) = b'x' ∷ xs n

-- `s.padEnd(n, "x")`
abbrev pub pad_end : Text → ℕ → Text
pad_end s n = s ++ xs (n - length s)

-- The text that stands for a string, by its format and pattern, where the type is no other.
abbrev pub text_example : Keywords → Text
text_example k =
    if pattern_has k.pattern (codes "https://")
    then codes "https://example.com/avatar.png"
    else if is_format k.pattern (codes "^[0-9]{6}$")
    then codes "123456"
    else if pattern_has k.pattern (codes ":")
    then codes "user:read:any"
    else pad_end (codes "example") (get_or_else k.min_length 0)

-- The lines behind the formats.
abbrev pub plain_example : Bool → Keywords → Value
plain_example success k =
    if is_type k.type integer || is_type k.type number
    then num 1
    else if is_type k.type boolean
    then bool success
    else str (text_example k)

abbrev pub format_example : Keywords → Option Text
format_example k =
    if is_format k.format (codes "email")
    then some (codes "user@example.com")
    else if is_format k.format (codes "date-time")
    then some (codes "2026-01-01T00:00:00Z")
    else if is_format k.format (codes "date")
    then some (codes "2026-01-01")
    else if is_format k.format (codes "uri")
    then some (codes "https://example.com/resource")
    else if is_format k.format (codes "binary")
    then some (codes "avatar.jpg")
    else none

abbrev pub or_text : Option Text → Value → Value
or_text none v = v
or_text (some t) v = str t

-- The lines behind `schema.type === "array"`.
unfoldable pub scalar : Bool → Keywords → Value
scalar success k = elim k.enum [
  | some values ↦ enum_value k.default values
  | none ↦ elim k.default [
    | some v ↦ v
    | none ↦ or_text (format_example k) (plain_example success k)
  ]
]

abbrev pub has_parts : Parts → Bool
has_parts no_parts = false
has_parts (all_of _) = true

-- The lines behind `$ref`, given what the parts, the properties and the items have for examples.
unfoldable pub choose :
    Bool → Keywords → Bool → Option Value → Option Value → Option Value → Option Value
unfolding scalar
choose success k parted merged whole listed = if parted then merged else elim k.example [
  | some v ↦ some v
  | none ↦
      if is_type k.type object
      then whole
      else if is_type k.type array
      then listed
      else some (scalar success k)
]

-- `[exampleFor(schema.items)]`
abbrev pub list_of : Option Value → Option Value
list_of none = none
list_of (some v) = some (arr (cons v nil))

abbrev pub object_of : Option Fields → Option Value
object_of none = none
object_of (some fs) = some (obj fs)

-- `exampleFor(part) ?? {}` before the examples of the parts behind it.
abbrev pub assign_next : Fields → Option Value → Option Fields
assign_next before none = none
assign_next before (some v) = some (assign before (own_fields v))

abbrev pub add_field : Text → Option Value → Option Fields → Option Fields
add_field name none rest = none
add_field name (some v) none = none
add_field name (some v) (some fs) = some (field name v fs)

-- `none` is a recursion that has not ended.
module _ (resolve : Text → Option Value) (success : Bool) where
  unfoldable mutual
    pub example_in : Schema → Option Value
    example_in (schema k none parts properties list) =
        choose success k (has_parts parts) (object_of (example_parts parts))
          (object_of (example_properties properties)) (list_of (example_items list))
    example_in (schema k (some name) parts properties list) = resolve name

    pub example_parts : Parts → Option Fields
    example_parts no_parts = some end
    example_parts (all_of ss) = example_all ss end

    pub example_all : Schemas → Fields → Option Fields
    example_all last before = some before
    example_all (also s ss) before = elim (assign_next before (example_in s)) [
      | none ↦ none
      | some fs ↦ example_all ss fs
    ]

    pub example_properties : Properties → Option Fields
    example_properties finished = some end
    example_properties (property name s rest) =
        add_field name (example_in s) (example_properties rest)

    pub example_items : Items → Option Value
    example_items no_items = some undefined
    example_items (items s) = example_in s

-- `merged.components.schemas`
abbrev pub Library : Type 0
Library = List (Text × Schema)

abbrev pub lookup_schema : Text → Library → Option Schema
lookup_schema name [] = none
lookup_schema name ((other, s) ∷ library) =
    if text_same other name then some s else lookup_schema name library

abbrev pub last_of : Text → List Text → Text
last_of d [] = d
last_of d (p ∷ ps) = last_of p ps

-- `ref.split("/").at(-1)`
unfoldable pub ref_name : Text → Text
ref_name r = last_of [] (split b'/' r)

module _ (library : Library) (success : Bool) where
  -- Following a reference, with fuel for the references behind it.
  unfoldable pub follow : ℕ → Text → Option Value
  follow zero r = none
  follow (suc fuel) r = elim (lookup_schema (ref_name r) library) [
    | none ↦ some undefined
    | some s ↦ example_in (follow fuel) success s
  ]

  -- `exampleFor`
  unfoldable pub example_for : ℕ → Schema → Option Value
  unfolding follow
  example_for fuel s = example_in (follow fuel) success s

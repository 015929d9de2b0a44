-- ===== src/Specs/Objects.antt =====
-- JavaScript objects as lists of their entries, as the scripts on API descriptions use them.
use go_platform_starter.Prelude.{
  Option, none, some, List, [], ◌∷◌, ◌≡◌, refl, arith, if◌then◌else◌, Text, text_same,
  text_same_iff, get_or_else, map_some,
}

module _ {A : Type 0} where
  -- `o[name]`
  abbrev pub lookup : Text → List (Text × A) → Option A
  lookup name [] = none
  lookup name ((other, a) ∷ o) = if text_same other name then some a else lookup name o

  -- `o[name] = a`
  unfoldable pub put : Text → A → List (Text × A) → List (Text × A)
  put name a [] = (name, a) ∷ []
  put name a ((other, b) ∷ o) =
      let rest = put name a o in if text_same other name then (other, a) ∷ o else (other, b) ∷ rest

  -- `o[name] ??= a`
  unfoldable pub put_missing : Text → A → List (Text × A) → List (Text × A)
  unfolding put
  put_missing name a o = elim (lookup name o) [ none ↦ put name a o | some _ ↦ o ]

  pub lookup-put :
      (name other : Text) (a : A) (o : List (Text × A))
      → lookup other (put name a o) ≡ (if text_same name other then some a else lookup other o)
  unfolding put
  lookup-put name other a [] = refl
  lookup-put name other a ((k, b) ∷ o) = ground (
    arith,
    lookup-put name other a o,
    text_same_iff k name,
    text_same_iff name other,
    text_same_iff k other,
  )

  pub lookup-put_missing :
      (name other : Text) (a : A) (o : List (Text × A))
      → lookup other (put_missing name a o)
        ≡ (if text_same name other then some (get_or_else (lookup name o) a) else lookup other o)
  unfolding put_missing
  lookup-put_missing name other a o =
      ground (arith, lookup-put name other a o, text_same_iff name other)

-- The values of an object changed one by one, with their names.
abbrev pub map_entries : {A B : Type 0} → (Text → A → B) → List (Text × A) → List (Text × B)
map_entries f [] = []
map_entries f ((name, a) ∷ o) = (name, f name a) ∷ map_entries f o

pub lookup-map_entries :
    {A B : Type 0}
    → (f : Text → A → B) (name : Text) (o : List (Text × A))
    → lookup name (map_entries f o)
      ≡ elim (lookup name o) [ none ↦ none | some a ↦ some (f name a) ]
lookup-map_entries f name [] = refl
lookup-map_entries f name ((k, a) ∷ o) =
    ground (arith, lookup-map_entries f name o, text_same_iff k name)

pub map_entries-map_entries :
    {A B C : Type 0}
    → (f : Text → B → C) (g : Text → A → B) (h : Text → A → C)
    → ((name : Text) (a : A) → f name (g name a) ≡ h name a)
    → (o : List (Text × A)) → map_entries f (map_entries g o) ≡ map_entries h o
map_entries-map_entries f g h same [] = refl
map_entries-map_entries f g h same ((k, a) ∷ o) =
    rw (same k a, map_entries-map_entries f g h same o)

map_entries-put :
    {A B : Type 0}
    → (f : Text → A → B) (name : Text) (a : A) (o : List (Text × A))
    → map_entries f (put name a o) ≡ put name (f name a) (map_entries f o)
unfolding put
map_entries-put f name a [] = refl
map_entries-put f name a ((k, b) ∷ o) =
    ground (arith, map_entries-put f name a o, text_same_iff k name)

pub map_entries-put_missing :
    {A B : Type 0}
    → (f : Text → A → B) (name : Text) (a : A) (o : List (Text × A))
    → map_entries f (put_missing name a o) ≡ put_missing name (f name a) (map_entries f o)
unfolding put_missing
map_entries-put_missing f name a o =
    ground (arith, map_entries-put f name a o, lookup-map_entries f name o)

pub lookup-mapped :
    {A B : Type 0}
    → (f : Text → A → B) (name : Text) (o : List (Text × A))
    → lookup name (map_entries f o) ≡ map_some (f name) (lookup name o)
lookup-mapped f name o = ground (arith, lookup-map_entries f name o)

-- ===== src/Prelude/Keys.antt =====
-- Arrays used as sets, as the source uses them: `includes`, `filter(x => x !== a)`, a toggle of one
-- member, and `[...new Set(xs)]`, which keeps the first of equal items in order.
use mathlib.Core.Path.{◌≡◌, refl}
use mathlib.Core.Logic.{◌↔◌}
use mathlib.Core.Bool.{Bool, true, false, not, ◌&&◌, ◌||◌}
use mathlib.Core.List.{List, [], ◌∷◌, ◌++◌}
use native.Mathlib.Omega.{arith}
use Prim.Native.Nat.{ℕ}
use Prim.Native.String.{String}
use text.Mathlib.Text.{◌==◌ as str_eq}
use text.Mathlib.TextEquality.{eq_iff}
use go_platform_starter.Prelude.Tests.{◌==◌ as nat_eq, ==_iff, if◌then◌else◌}
use go_platform_starter.Prelude.Lists.{filter}

-- `===` on the items of an array.
pub record Key {ℓ} (A : Type ℓ) : Type ℓ where
  pub same : A → A → Bool
  pub same_iff : (a b : A) → (same a b ≡ true) ↔ (a ≡ b)

abbrev pub is {ℓ} : {A : Type ℓ} ⦃k : Key A⦄ → A → A → Bool
is ⦃k⦄ = k.same

instance abbrev pub ℕ_key : Key ℕ
ℕ_key = record { same = nat_eq; same_iff = ==_iff }

instance abbrev pub String_key : Key String
String_key = record { same = str_eq; same_iff = eq_iff }

module _ {ℓ} {A : Type ℓ} ⦃k : Key A⦄ where
  is_self : (a : A) → is a a ≡ true
  is_self a = (k.same_iff a a).1 refl

  -- `xs.includes(a)`
  abbrev pub includes : A → List A → Bool
  includes a [] = false
  includes a (x ∷ xs) = is a x || includes a xs

  -- `xs.filter((x) => x !== a)`
  abbrev pub remove : A → List A → List A
  remove a [] = []
  remove a (x ∷ xs) = if is a x then remove a xs else x ∷ remove a xs

  -- `xs.includes(a) ? xs.filter((x) => x !== a) : [...xs, a]`
  unfoldable pub toggle : A → List A → List A
  toggle a xs = if includes a xs then remove a xs else xs ++ a ∷ []

  -- `[...new Set([...seen, ...xs])]`, where `seen` has no duplicates.
  unfoldable pub unique_from : List A → List A → List A
  unique_from seen [] = seen
  unique_from seen (x ∷ xs) = unique_from (if includes x seen then seen else seen ++ x ∷ []) xs

  -- `[...new Set(xs)]`
  abbrev pub unique : List A → List A
  unique xs = unique_from [] xs

  -- No item stands twice.
  abbrev pub distinct : List A → Bool
  distinct [] = true
  distinct (x ∷ xs) = not (includes x xs) && distinct xs

  pub includes-append :
      (a : A) (xs ys : List A) → includes a (xs ++ ys) ≡ (includes a xs || includes a ys)
  includes-append a [] ys = refl
  includes-append a (x ∷ xs) ys = ground (arith, includes-append a xs ys)

  includes-remove :
      (a b : A) (xs : List A) → includes b (remove a xs) ≡ (not (is a b) && includes b xs)
  includes-remove a b [] = ground arith
  includes-remove a b (x ∷ xs) =
      ground (arith, includes-remove a b xs, k.same_iff a x, k.same_iff b x, k.same_iff a b)

  -- A toggle changes the membership of its own item, and of no other.
  pub includes-toggle :
      (a b : A) (xs : List A)
      → includes b (toggle a xs) ≡ (if is a b then not (includes b xs) else includes b xs)
  unfolding toggle
  includes-toggle a b xs =
      ground (
        arith,
        includes-remove a b xs,
        includes-append b xs (a ∷ []),
        k.same_iff a b,
        k.same_iff b a,
      )

  distinct-concat :
      (a : A) (xs : List A)
      → distinct xs ≡ true
      → includes a xs ≡ false
      → distinct (xs ++ a ∷ []) ≡ true
  distinct-concat a [] d h = refl
  distinct-concat a (x ∷ xs) d h =
      ground
        (arith, distinct-concat a xs, includes-append x xs (a ∷ []), k.same_iff a x, k.same_iff x a)

  distinct-remove : (a : A) (xs : List A) → distinct xs ≡ true → distinct (remove a xs) ≡ true
  distinct-remove a [] d = refl
  distinct-remove a (x ∷ xs) d = ground (arith, distinct-remove a xs, includes-remove a x xs)

  distinct-toggle : (a : A) (xs : List A) → distinct xs ≡ true → distinct (toggle a xs) ≡ true
  unfolding toggle
  distinct-toggle a xs d = ground (arith, distinct-remove a xs, distinct-concat a xs d)

  pub includes-unique_from :
      (a : A) (seen xs : List A)
      → includes a (unique_from seen xs) ≡ (includes a seen || includes a xs)
  unfolding unique_from
  includes-unique_from a seen [] = ground arith
  includes-unique_from a seen (x ∷ xs) = ground (
    arith,
    includes-unique_from a (if includes x seen then seen else seen ++ x ∷ []) xs,
    includes-append a seen (x ∷ []),
    k.same_iff a x,
  )

  pub includes-unique : (a : A) (xs : List A) → includes a (unique xs) ≡ includes a xs
  includes-unique a xs = includes-unique_from a [] xs

  pub distinct-unique_from :
      (seen xs : List A) → distinct seen ≡ true → distinct (unique_from seen xs) ≡ true
  unfolding unique_from
  distinct-unique_from seen [] d = d
  distinct-unique_from seen (x ∷ xs) d =
      distinct-unique_from (if includes x seen then seen else seen ++ x ∷ []) xs
        (ground (arith, distinct-concat x seen d))

  pub includes-filter :
      (keep : A → Bool) (a : A) (xs : List A)
      → includes a (filter keep xs) ≡ (keep a && includes a xs)
  includes-filter keep a [] = ground arith
  includes-filter keep a (x ∷ xs) = ground (arith, includes-filter keep a xs, k.same_iff a x)

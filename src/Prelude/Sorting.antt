-- ===== src/Prelude/Sorting.antt =====
-- `Array.prototype.sort` with a comparison: a stable insertion sort.
use mathlib.Core.Bool.{Bool, true, false}
use mathlib.Core.Path.{◌≡◌, refl}
use mathlib.Core.Logic.{◌⊎◌, inl, inr}
use mathlib.Core.List.{List, [], ◌∷◌, Memᴰ}
use mathlib.Core.List.Memᴰ
use native.Mathlib.Omega.{arith}
use go_platform_starter.Prelude.Tests.{if◌then◌else◌}
use go_platform_starter.Prelude.Lists.{All, All-map, filter, length}

-- `before a b` says that a may stand before b: that the comparison is not positive.
module _ {A : Type 0} (before : A → A → Bool) where
  abbrev pub insert_by : A → List A → List A
  insert_by a [] = a ∷ []
  insert_by a (b ∷ xs) =
      let deeper = insert_by a xs in if before a b then a ∷ b ∷ xs else b ∷ deeper

  abbrev pub sort_by : List A → List A
  sort_by [] = []
  sort_by (a ∷ xs) = insert_by a (sort_by xs)

  -- Each item may stand before all behind it.
  abbrev pub IsOrdered : List A → Type 0
  IsOrdered [] = Unit
  IsOrdered (a ∷ xs) = All (λ b. before a b ≡ true) xs × IsOrdered xs

  -- What is counted in a list is there as often after sorting.
  length-filter-insert_by :
      (p : A → Bool) (a : A) (xs : List A)
      → length (filter p (insert_by a xs)) ≡ length (filter p (a ∷ xs))
  length-filter-insert_by p a [] = refl
  length-filter-insert_by p a (b ∷ xs) = ground (arith, length-filter-insert_by p a xs)

  pub length-filter-sort_by :
      (p : A → Bool) (xs : List A) → length (filter p (sort_by xs)) ≡ length (filter p xs)
  length-filter-sort_by p [] = refl
  length-filter-sort_by p (a ∷ xs) =
      ground (arith, length-filter-sort_by p xs, length-filter-insert_by p a (sort_by xs))

  chosen :
      (Q : List A → Type 0) (t : Bool) (xs ys : List A)
      → (t ≡ true → Q xs)
      → (t ≡ false → Q ys)
      → Q (if t then xs else ys)
  chosen Q true xs ys f g = f refl
  chosen Q false xs ys f g = g refl

  insert_by-All : (P : A → Type 0) (a : A) (xs : List A) → P a → All P xs → All P (insert_by a xs)
  insert_by-All P a [] h hs = (h, tt)
  insert_by-All P a (b ∷ xs) h hs =
      chosen (All P) (before a b) (a ∷ b ∷ xs) (b ∷ insert_by a xs) (λ _. (h, hs))
        (λ _. (hs.0, insert_by-All P a xs h hs.1))

  pub sort_by-All : (P : A → Type 0) (xs : List A) → All P xs → All P (sort_by xs)
  sort_by-All P [] h = tt
  sort_by-All P (a ∷ xs) h = insert_by-All P a (sort_by xs) h.0 (sort_by-All P xs h.1)

  insert_by-Mem : (c a : A) (xs : List A) → (c ≡ a) ⊎ Memᴰ c xs → Memᴰ c (insert_by a xs)
  insert_by-Mem c a [] (inl e) = Memᴰ.head e
  insert_by-Mem c a [] (inr m) = absurd (Memᴰ.not-nil m)
  insert_by-Mem c a (b ∷ xs) (inl e) =
      chosen (Memᴰ c) (before a b) (a ∷ b ∷ xs) (b ∷ insert_by a xs) (λ _. Memᴰ.head e)
        (λ _. Memᴰ.tail (insert_by-Mem c a xs (inl e)))
  insert_by-Mem c a (b ∷ xs) (inr m) =
      chosen (Memᴰ c) (before a b) (a ∷ b ∷ xs) (b ∷ insert_by a xs) (λ _. Memᴰ.tail m)
        (λ _. elim (Memᴰ.cases_cons m) [
          | inl e ↦ Memᴰ.head e
          | inr t ↦ Memᴰ.tail (insert_by-Mem c a xs (inr t))
        ])

  pub sort_by-Mem : (c : A) (xs : List A) → Memᴰ c xs → Memᴰ c (sort_by xs)
  sort_by-Mem c [] m = m
  sort_by-Mem c (a ∷ xs) m = elim (Memᴰ.cases_cons m) [
    | inl e ↦ insert_by-Mem c a (sort_by xs) (inl e)
    | inr t ↦ insert_by-Mem c a (sort_by xs) (inr (sort_by-Mem c xs t))
  ]

  module _ (total : (a b : A) → before a b ≡ false → before b a ≡ true)
      (trans : (a b c : A) → before a b ≡ true → before b c ≡ true → before a c ≡ true) where
    insert_by-IsOrdered : (a : A) (xs : List A) → IsOrdered xs → IsOrdered (insert_by a xs)
    insert_by-IsOrdered a [] h = (tt, tt)
    insert_by-IsOrdered a (b ∷ xs) h =
        chosen IsOrdered (before a b) (a ∷ b ∷ xs) (b ∷ insert_by a xs)
          (λ e. (
            (
              e,
              All-map (λ c. before b c ≡ true) (λ c. before a c ≡ true) (λ c k. trans a b c e k) xs
                  h.0,
            ),
            h,
          ))
          (λ e. (
            insert_by-All (λ c. before b c ≡ true) a xs (total a b e) h.0,
            insert_by-IsOrdered a xs h.1,
          ))

    -- Where the comparison is total and transitive, sorting orders.
    pub sort_by-IsOrdered : (xs : List A) → IsOrdered (sort_by xs)
    sort_by-IsOrdered [] = tt
    sort_by-IsOrdered (a ∷ xs) = insert_by-IsOrdered a (sort_by xs) (sort_by-IsOrdered xs)

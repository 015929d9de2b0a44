-- ===== src/Ui/Reorder/Same.antt =====
-- Moving an item loses none and doubles none.
use go_platform_starter.Prelude.{
  ℕ, zero, suc, ◌+◌, ◌≤◌, ◌<◌, Bool, some, List, [], ◌∷◌, ◌++◌, ◌≡◌, refl, arith, length,
  length-append, length-take, length-drop, take, drop, get_elem?, filter,
}
use go_platform_starter.Ui.Reorder.{inserted, move}

-- How many items pass a test.
abbrev pub count : {A : Type 0} → (A → Bool) → List A → ℕ
count p xs = length (filter p xs)

module _ {A : Type 0} (p : A → Bool) where
  count-append : (xs ys : List A) → count p (xs ++ ys) ≡ count p xs + count p ys
  count-append [] ys = omega arith
  count-append (x ∷ xs) ys = ground (arith, count-append xs ys)

  count-split : (n : ℕ) (xs : List A) → count p (take n xs) + count p (drop n xs) ≡ count p xs
  count-split zero xs = omega arith
  count-split (suc n) [] = refl
  count-split (suc n) (x ∷ xs) = ground (arith, count-split n xs)

  count-inserted : (to : ℕ) (a : A) (xs : List A) → count p (inserted to a xs) ≡ count p (a ∷ xs)
  count-inserted to a xs =
      ground (arith, count-append (take to xs) (a ∷ drop to xs), count-split to xs)

  count-spliced :
      (from : ℕ) (a : A) (xs : List A)
      → get_elem? xs from ≡ some a
      → count p (a ∷ (take from xs ++ drop (suc from) xs)) ≡ count p xs
  count-spliced from a [] h = absurd (ground arith)
  count-spliced zero a (x ∷ xs) h = ground arith
  count-spliced (suc from) a (x ∷ xs) h = ground (arith, count-spliced from a xs h)

get_elem?-inserted :
    {A : Type 0}
    → (to : ℕ) (a : A) (xs : List A) → to ≤ length xs
    → get_elem? (inserted to a xs) to ≡ some a
get_elem?-inserted zero a xs h = refl
get_elem?-inserted (suc to) a [] h = absurd (omega arith)
get_elem?-inserted (suc to) a (x ∷ xs) h = get_elem?-inserted to a xs (omega arith)

-- Moving an item within the list gives a list with the same items, each as often as before, and that
-- item at its new place.
move-same :
    {A : Type 0}
    → (p : A → Bool) (from to : ℕ) (a : A) (items : List A) → get_elem? items from ≡ some a
    → from < length items
    → to < length items
    → (next : List A) × (move (some from) (some to) items ≡ some next)
      × (count p next ≡ count p items)
      × (get_elem? next to ≡ some a)
unfolding move
move-same p from to a items found inside room =
    let rest = take from items ++ drop (suc from) items in
    let size = length-append (take from items) (drop (suc from) items) in
    let front = length-take from items in
    let back = length-drop (suc from) items in
    (
      inserted to a rest,
      ground arith,
      ground (arith, count-inserted p to a rest, count-spliced p from a items found),
      get_elem?-inserted to a rest (omega (arith, size, front, back)),
    )

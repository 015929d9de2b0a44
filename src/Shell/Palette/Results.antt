-- ===== src/Shell/Palette/Results.antt =====
-- Which of the matching items the palette shows.
use mathlib.Core.List.{Memᴰ}
use mathlib.Core.List.Memᴰ
use go_platform_starter.Prelude.{
  ℕ, zero, suc, ◌≤◌, true, false, Option, none, some, List, [], ◌∷◌, map, ◌≡◌, ◌⊎◌, inl, inr, refl,
  sym, ◌∙◌, ap, arith, length, take, length-take, length-map, All, IsOrdered, sort_by-All,
  sort_by-Mem, sort_by-IsOrdered, Text, is_empty,
}
use go_platform_starter.Shell.Palette.{
  Item, Scored, haystack_of, fuzzy, scored, ranks_before, sort, filtered,
}

All-at : (P : Scored → Type 0) (c : Scored) (xs : List Scored) → All P xs → Memᴰ c xs → P c
All-at P c [] h m = absurd (Memᴰ.not-nil m)
All-at P c (x ∷ xs) h m = elim (Memᴰ.cases_cons m) [
  | inl e ↦ rw e h.0
  | inr t ↦ All-at P c xs h.1 t
]

ranks_before_total : (a b : Scored) → ranks_before a b ≡ false → ranks_before b a ≡ true
ranks_before_total a b h = ground arith

ranks_before_trans :
    (a b c : Scored) → ranks_before a b ≡ true → ranks_before b c ≡ true → ranks_before a c ≡ true
ranks_before_trans a b c h k = ground arith

behind : (a c : Scored) → ranks_before a c ≡ true → c.1 ≤ a.1
behind a c h = ground arith

-- What stands behind the first `n` is in none of them, which are `n`, and each of these scores as much.
cut :
    (n : ℕ) (c : Scored) (xs : List Scored)
    → IsOrdered ranks_before xs
    → Memᴰ c xs
    → Memᴰ c (take n xs) ⊎ ((length (take n xs) ≡ n) × All (λ a. c.1 ≤ a.1) (take n xs))
cut zero c xs d m = inr (refl, tt)
cut (suc n) c [] d m = absurd (Memᴰ.not-nil m)
cut (suc n) c (x ∷ xs) d m = elim (Memᴰ.cases_cons m) [
  | inl e ↦ inl (Memᴰ.head e)
  | inr t ↦ elim (cut n c xs d.1 t) [
    | inl here ↦ inl (Memᴰ.tail here)
    | inr (full, least) ↦
        inr (ap suc full, (behind x c (All-at (λ a. ranks_before x a ≡ true) c xs d.0 t), least))
  ]
]

scored_step :
    (it x : Item) (s : ℕ) (found : Option ℕ) (rest : List Scored)
    → ((it ≡ x) × (found ≡ some s)) ⊎ Memᴰ (it, s) rest
    → Memᴰ (it, s) (elim found [ none ↦ rest | some s' ↦ (x, s') ∷ rest ])
scored_step it x s none rest (inl (e, f)) = absurd (ground arith)
scored_step it x s none rest (inr m) = m
scored_step it x s (some s') rest (inl (e, f)) = Memᴰ.head (ground arith)
scored_step it x s (some s') rest (inr m) = Memᴰ.tail m

scored_All :
    (P : Scored → Type 0) (x : Item) (found : Option ℕ) (rest : List Scored)
    → All P rest
    → ((s : ℕ) → found ≡ some s → P (x, s))
    → All P (elim found [ none ↦ rest | some s ↦ (x, s) ∷ rest ])
scored_All P x none rest h f = h
scored_All P x (some s) rest h f = (f s refl, h)

All-take : (P : Scored → Type 0) (n : ℕ) (xs : List Scored) → All P xs → All P (take n xs)
All-take P zero xs h = tt
All-take P (suc n) [] h = tt
All-take P (suc n) (x ∷ xs) h = (h.0, All-take P n xs h.1)

nonnegative : (xs : List Scored) → All (λ a. 0 ≤ a.1) xs
nonnegative [] = tt
nonnegative (a ∷ xs) = (omega arith, nonnegative xs)

map-Mem : (it : Item) (s : ℕ) (xs : List Scored) → Memᴰ (it, s) xs → Memᴰ it (map (λ a. a.0) xs)
map-Mem it s [] m = absurd (Memᴰ.not-nil m)
map-Mem it s (x ∷ xs) m = elim (Memᴰ.cases_cons m) [
  | inl e ↦ Memᴰ.head (ap (λ a. a.0) e)
  | inr t ↦ Memᴰ.tail (map-Mem it s xs t)
]

module _ (lower : Text → Text) where
  scored-Mem :
      (query : Text) (it : Item) (s : ℕ) (items : List Item)
      → Memᴰ it items
      → fuzzy lower (haystack_of it) query ≡ some s
      → Memᴰ (it, s) (scored lower query items)
  scored-Mem query it s [] m e = absurd (Memᴰ.not-nil m)
  scored-Mem query it s (x ∷ items) m e =
      scored_step it x s (fuzzy lower (haystack_of x) query) (scored lower query items)
        (elim (Memᴰ.cases_cons m) [
          | inl same ↦ inl (same, ap (λ y. fuzzy lower (haystack_of y) query) (sym same) ∙ e)
          | inr t ↦ inr (scored-Mem query it s items t e)
        ])

  -- Each scored item has its own score.
  abbrev IsScored : Text → Scored → Type 0
  IsScored query a = fuzzy lower (haystack_of a.0) query ≡ some a.1

  scored-IsScored :
      (query : Text) (items : List Item) → All (IsScored query) (scored lower query items)
  scored-IsScored query [] = tt
  scored-IsScored query (x ∷ items) =
      scored_All (IsScored query) x (fuzzy lower (haystack_of x) query) (scored lower query items)
        (scored-IsScored query items) (λ s e. e)

  -- The item is found, with a score of at least `s`.
  abbrev pub IsFound : Text → ℕ → Item → Type 0
  IsFound query s it = (r : ℕ) × (fuzzy lower (haystack_of it) query ≡ some r) × (s ≤ r)

  shown-IsFound :
      (query : Text) (s : ℕ) (xs : List Scored)
      → All (IsScored query) xs
      → All (λ a. s ≤ a.1) xs
      → All (IsFound query s) (map (λ a. a.0) xs)
  shown-IsFound query s [] h k = tt
  shown-IsFound query s (a ∷ xs) h k = ((a.1, h.0, k.0), shown-IsFound query s xs h.1 k.1)

  shown-IsScored :
      (query : Text) (items : List Item)
      → All (IsScored query) (take 10 (sort (scored lower query items)))
  shown-IsScored query items = All-take (IsScored query) 10 (sort (scored lower query items)) (
      sort_by-All ranks_before (IsScored query) (scored lower query items)
        (scored-IsScored query items))

  -- For a query, the palette shows at most ten items, and finds the query in each.
  filtered-IsFound :
      (query : Text) (items : List Item)
      → is_empty query ≡ false
      → (length (filtered lower query items) ≤ 10)
        × All (IsFound query 0) (filtered lower query items)
  unfolding filtered
  filtered-IsFound query items h =
      let taken = take 10 (sort (scored lower query items)) in
      rw h (
        rw
            (
              length-map {A = Scored} {B = Item} (λ a. a.0) taken,
              length-take 10 (sort (scored lower query items)),
            )
            (omega arith),
        shown-IsFound query 0 taken (shown-IsScored query items) (nonnegative taken),
      )

  -- For a query, an item that the search finds is shown, or else ten others are, each of which the search
  -- finds with a score at least as high.
  pub filtered_complete :
      (query : Text) (items : List Item) (it : Item) (s : ℕ)
      → is_empty query ≡ false
      → Memᴰ it items
      → fuzzy lower (haystack_of it) query ≡ some s
      → Memᴰ it (filtered lower query items)
        ⊎ ((length (filtered lower query items) ≡ 10)
            × All (IsFound query s) (filtered lower query items))
  unfolding filtered
  filtered_complete query items it s h m e =
      let sorted = sort (scored lower query items) in
      let placed =
        sort_by-Mem ranks_before (it, s) (scored lower query items)
          (scored-Mem query it s items m e) in
      rw h
        (elim (cut 10 (it, s) sorted
          (sort_by-IsOrdered ranks_before ranks_before_total ranks_before_trans
            (scored lower query items))
          placed) [
            | inl here ↦ inl (map-Mem it s (take 10 sorted) here)
            | inr (full, least) ↦ inr (
              rw (length-map {A = Scored} {B = Item} (λ a. a.0) (take 10 sorted)) full,
              shown-IsFound query s (take 10 sorted) (shown-IsScored query items) least,
            )
          ])

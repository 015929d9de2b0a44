-- ===== src/Roles/Markup/Marking.antt =====
-- What a search marks in a text.
use go_platform_starter.Prelude.{
  ℕ, zero, suc, ◌+◌, true, Option, none, some, [], ◌∷◌, ◌++◌, ◌≡◌, refl, sym, ap, ◌∙◌, arith, inl,
  inr, Bool-cases, map, take-append-drop, take, drop, length, length-map, Text, is_empty,
  starts_with, trim,
}
use go_platform_starter.Roles.Markup.{index_of, sliced, highlight}

drop_add : (i n : ℕ) (t : Text) → drop (i + n) t ≡ drop n (drop i t)
drop_add zero n t = ap (λ m. drop m t) (let e : 0 + n ≡ n = omega arith in e)
drop_add (suc i) zero [] = ap (λ m. drop m []) (let e : suc i + 0 ≡ suc i = omega arith in e)
drop_add (suc i) (suc n) [] =
    ap (λ m. drop m []) (let e : suc i + suc n ≡ suc (i + suc n) = omega arith in e)
drop_add (suc i) n (c ∷ t) =
    ap (λ m. drop m (c ∷ t)) (let e : suc i + n ≡ suc (i + n) = omega arith in e) ∙ drop_add i n t

take-drop-join : (i n : ℕ) (t : Text) → take i t ++ (take n (drop i t) ++ drop (i + n) t) ≡ t
take-drop-join i n t =
    rw (drop_add i n t)
      (ap (λ s. take i t ++ s) (take-append-drop n (drop i t)) ∙ take-append-drop i t)

take-starts : (p s : Text) → starts_with p s ≡ true → take (length p) s ≡ p
unfolding starts_with
take-starts [] s h = refl
take-starts (c ∷ p) [] h = absurd (ground (arith, h))
take-starts (c ∷ p) (d ∷ s) h = ground (arith, h, take-starts p s)

-- What stands in a text from where another is found.
take-index_of : (p s : Text) (i : ℕ) → index_of p s ≡ some i → take (length p) (drop i s) ≡ p
unfolding index_of starts_with
take-index_of [] s i h = refl
take-index_of (a ∷ p) [] i h = absurd (ground (arith, h))
take-index_of (a ∷ p) (c ∷ s) i h = elim (Bool-cases (starts_with (a ∷ p) (c ∷ s))) [
  | inl e ↦ let here : i ≡ 0 = ground (arith, h, e) in rw here (take-starts (a ∷ p) (c ∷ s) e)
  | inr e ↦ later (take-index_of (a ∷ p) s) i (index_of (a ∷ p) s) refl (rw e at h)
]
  where
    later :
        ((j : ℕ) → index_of (a ∷ p) s ≡ some j → take (length (a ∷ p)) (drop j s) ≡ a ∷ p)
        → (i : ℕ) (found : Option ℕ) → index_of (a ∷ p) s ≡ found
        → elim found [ none ↦ none | some j ↦ some (suc j) ] ≡ some i
        → take (length (a ∷ p)) (drop i (c ∷ s)) ≡ a ∷ p
    later ih i none e k = absurd (ground (arith, k))
    later ih i (some j) e k = let next : i ≡ suc j = ground (arith, k) in rw next (ih j e)

map-take : (f : ℕ → ℕ) (n : ℕ) (s : Text) → map f (take n s) ≡ take n (map f s)
map-take f zero s = refl
map-take f (suc n) [] = refl
map-take f (suc n) (c ∷ s) = ap (λ t. f c ∷ t) (map-take f n s)

map-drop : (f : ℕ → ℕ) (n : ℕ) (s : Text) → map f (drop n s) ≡ drop n (map f s)
map-drop f zero s = refl
map-drop f (suc n) [] = refl
map-drop f (suc n) (c ∷ s) = map-drop f n s

-- Where the search marks something, the three parts make up the text, and where letters are put in lower
-- case one by one, the marked part is the query but for the case of its letters.
highlight_lem :
    (fold : ℕ → ℕ) (text query before marked after : Text)
    → highlight (map fold) text query ≡ some (before, marked, after)
    → (before ++ (marked ++ after) ≡ text) × (map fold marked ≡ map fold query)
unfolding highlight
highlight_lem fold text query before marked after h = elim (Bool-cases (is_empty (trim query))) [
  | inl e ↦ absurd (ground (arith, h, e))
  | inr e ↦ by_index (index_of (map fold query) (map fold text)) refl (rw e at h)
]
  where
    by_index :
        (found : Option ℕ)
        → index_of (map fold query) (map fold text) ≡ found
        → sliced text (length query) found ≡ some (before, marked, after)
        → (before ++ (marked ++ after) ≡ text) × (map fold marked ≡ map fold query)
    by_index none e k = absurd (ground (arith, k))
    by_index (some i) e k =
        let first : before ≡ take i text = ground (arith, k) in
        let middle : marked ≡ take (length query) (drop i text) = ground (arith, k) in
        let end : after ≡ drop (i + length query) text = ground (arith, k) in
        (
          rw (first, middle, end) (take-drop-join i (length query) text),
          ap (map fold) middle
              ∙ map-take fold (length query) (drop i text)
              ∙ ap (take (length query)) (map-drop fold i text)
              ∙ ap (λ n. take n (drop i (map fold text))) (sym (length-map fold query))
              ∙ take-index_of (map fold query) (map fold text) i e,
        )

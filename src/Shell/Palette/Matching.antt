-- ===== src/Shell/Palette/Matching.antt =====
-- What the palette's search accepts, and what its scores can be.
use go_platform_starter.Prelude.{
  ℕ, zero, suc, ◌+◌, ◌*◌, ◌≤◌, ◌==◌, true, false, Option, none, some, [], ◌∷◌, ◌≡◌, ◌↔◌, ◌⊎◌, inl,
  inr, refl, sym, ◌∙◌, ap, arith, Option-cases, if◌then◌else◌, length, drop, Text, map_some,
}
use go_platform_starter.Shell.Palette.{index_from, follows, fuzzy_from, fuzzy}

-- The characters of the one stand in the other, in their order.
pub data Within : Text → Text → Type 0 where
  over : {t : Text} → Within [] t
  keep : {c : ℕ} {s t : Text} → Within s t → Within (c ∷ s) (c ∷ t)
  skip : {d : ℕ} {s t : Text} → Within s t → Within s (d ∷ t)

map_some-id : (o : Option ℕ) → map_some (λ j. 0 + j) o ≡ o
map_some-id none = refl
map_some-id (some j) = ap some (omega arith)

-- The first search, from the start of what is left.
index_from-drop :
    (c : ℕ) (h : Text) (hi : ℕ)
    → index_from c h hi ≡ map_some (λ j. hi + j) (index_from c (drop hi h) 0)
index_from-drop c h zero = ground (arith, map_some-id (index_from c h 0))
index_from-drop c [] (suc hi) = refl
index_from-drop c (d ∷ h) (suc hi) = ground (arith, index_from-drop c h hi)

drop-drop : (j hi : ℕ) (h : Text) → drop (suc j) (drop hi h) ≡ drop (suc (hi + j)) h
drop-drop j zero h = let e : suc j ≡ suc (0 + j) = omega arith in ap (λ n. drop n h) e
drop-drop j (suc hi) [] = refl
drop-drop j (suc hi) (d ∷ h) =
    let e : suc (hi + j) ≡ suc hi + j = omega arith in drop-drop j hi h ∙ ap (λ n. drop n h) e

weaken : (c : ℕ) (s t : Text) → Within (c ∷ s) t → Within s t
weaken c s [] w = elim w [ ]
weaken c s (d ∷ t) (keep w) = skip w
weaken c s (d ∷ t) (skip w) = skip (weaken c s t w)

dec_eq : (a b : ℕ) → ((a == b) ≡ true) ⊎ ((a == b) ≡ false)
dec_eq a b = ground arith

-- The first place of a character leaves the most of the text for the rest.
first_place :
    (c : ℕ) (s t : Text)
    → Within (c ∷ s) t
    → (j : ℕ) × (index_from c t 0 ≡ some j) × Within s (drop (suc j) t)
first_place c s [] w = elim w [ ]
first_place c s (d ∷ t) (keep w) = (0, ground arith, w)
first_place c s (d ∷ t) (skip w) =
    let (j, e, rest) = first_place c s t w in
    elim (dec_eq d c) [
      | inl same ↦ (0, ground arith, weaken c s t w)
      | inr differs ↦ (suc j, ground (arith, e), rest)
    ]

placed :
    (c : ℕ) (s t : Text) (j : ℕ)
    → index_from c t 0 ≡ some j
    → Within s (drop (suc j) t)
    → Within (c ∷ s) t
placed c s [] j e w = absurd (ground arith)
placed c s (d ∷ t) zero e w = let same : d ≡ c = ground arith in rw same (keep w)
placed c s (d ∷ t) (suc j) e w = skip (placed c s t j (ground arith) w)

module _ (h : Text) where
  fuzzy_step :
      (c : ℕ) (needle : Text) (hi score i : ℕ) (previous : Option ℕ)
      → index_from c h hi ≡ some i
      → fuzzy_from h (c ∷ needle) hi score previous
        ≡ fuzzy_from h needle (suc i) (score + (if follows previous i then 5 else 0) + 1) (some i)
  fuzzy_step c needle hi score i previous found = rw (found, fuzzy_from) refl

  -- The loop goes through exactly where the needle is within what is left, whatever the score so far.
  fuzzy_from-Within :
      (needle : Text) (hi score : ℕ) (previous : Option ℕ) (r : ℕ)
      → fuzzy_from h needle hi score previous ≡ some r
      → Within needle (drop hi h)
  fuzzy_from-Within [] hi score previous r e = over
  fuzzy_from-Within (c ∷ needle) hi score previous r e =
      elim (Option-cases (index_from c (drop hi h) 0)) [
        | inl missing ↦
            let lost : index_from c h hi ≡ none = rw (index_from-drop c h hi, missing) refl in
            absurd (ground (arith, lost))
        | inr (j, first) ↦
            let found : index_from c h hi ≡ some (hi + j) =
              rw (index_from-drop c h hi, first) refl in
            let rest =
              fuzzy_from-Within needle (suc (hi + j))
                (score + (if follows previous (hi + j) then 5 else 0) + 1) (some (hi + j)) r
                (sym (fuzzy_step c needle hi score (hi + j) previous found) ∙ e) in
            placed c needle (drop hi h) j first (rw (drop-drop j hi h) rest)
      ]

  Within-fuzzy_from :
      (needle : Text) (hi score : ℕ) (previous : Option ℕ)
      → Within needle (drop hi h)
      → (r : ℕ) × (fuzzy_from h needle hi score previous ≡ some r)
  Within-fuzzy_from [] hi score previous w = (score, refl)
  Within-fuzzy_from (c ∷ needle) hi score previous w =
      let (j, e, rest) = first_place c needle (drop hi h) w in
      let found : index_from c h hi ≡ some (hi + j) = rw (index_from-drop c h hi, e) refl in
      let (r, done) =
        Within-fuzzy_from needle (suc (hi + j))
          (score + (if follows previous (hi + j) then 5 else 0) + 1) (some (hi + j))
          (rw (sym (drop-drop j hi h)) rest) in
      (r, fuzzy_step c needle hi score (hi + j) previous found ∙ done)

  -- Each character of the needle adds one to the score, and five more for all but the first at most.
  fuzzy_from-bounds :
      (needle : Text) (hi score : ℕ) (previous : Option ℕ) (r : ℕ)
      → fuzzy_from h needle hi score previous ≡ some r
      → (score + length needle ≤ r) × (r ≤ score + 6 * length needle)
  fuzzy_from-bounds [] hi score previous r e = ground arith
  fuzzy_from-bounds (c ∷ needle) hi score previous r e = elim (Option-cases (index_from c h hi)) [
    | inl missing ↦ absurd (ground (arith, missing))
    | inr (i, found) ↦
        let (least, most) =
          fuzzy_from-bounds needle (suc i) (score + (if follows previous i then 5 else 0) + 1)
            (some i) r (sym (fuzzy_step c needle hi score i previous found) ∙ e) in
        ground (arith, least, most)
  ]

module _ (lower : Text → Text) where
  -- The palette's search finds a text exactly where the characters of the query stand in it in their order,
  -- both in lower case; an empty query finds every text.
  pub fuzzy-Within_iff :
      (haystack needle : Text)
      → ((r : ℕ) × (fuzzy lower haystack needle ≡ some r))
        ↔ ((needle ≡ []) ⊎ Within (lower needle) (lower haystack))
  unfolding fuzzy
  fuzzy-Within_iff haystack [] = ((λ h. inl refl), (λ h. (0, refl)))
  fuzzy-Within_iff haystack (c ∷ needle) = (
    (λ h. inr (fuzzy_from-Within (lower haystack) (lower (c ∷ needle)) 0 0 none h.0 h.1)),
    (λ h. elim h [
      | inl e ↦ absurd (ground arith)
      | inr w ↦ Within-fuzzy_from (lower haystack) (lower (c ∷ needle)) 0 0 none w
    ]),
  )

-- ===== src/Shell/Palette.antt =====
-- apps/web/src/shell/CommandPalette.tsx: the search, and the keys that move through what it finds.
pub mod Matching
pub mod Results
pub mod Keys
use go_platform_starter.Prelude.{
  ℕ, zero, suc, ◌+◌, ◌-◌, ◌==◌, Bool, true, false, Option, none, some, List, [], ◌∷◌, ◌++◌, map,
  if◌then◌else◌, min, length, take, get_elem?, get_or_else, leb, sort_by, Text, codes, map_some,
  join, is_empty,
}

-- `h.indexOf(c, hi)`
abbrev pub index_from : ℕ → Text → ℕ → Option ℕ
index_from c [] hi = none
index_from c (d ∷ h) zero =
    let later = map_some suc (index_from c h zero) in if d == c then some 0 else later
index_from c (d ∷ h) (suc hi) = map_some suc (index_from c h hi)

-- `prevMatch >= 0 && idx - prevMatch === 1`, where `none` is -1
abbrev pub follows : Option ℕ → ℕ → Bool
follows none i = false
follows (some p) i = i == suc p

-- The loop over the needle, from `hi`, `score` and `prevMatch`.
abbrev pub fuzzy_from : Text → Text → ℕ → ℕ → Option ℕ → Option ℕ
fuzzy_from h [] hi score previous = some score
fuzzy_from h (c ∷ needle) hi score previous = elim (index_from c h hi) [
  | none ↦ none
  | some i ↦
      fuzzy_from h needle (suc i) (score + (if follows previous i then 5 else 0) + 1) (some i)
]

pub data Group : Type 0 where
  navigation users roles actions docs : Group

-- An item; what running it does is outside.
pub record Item : Type 0 where
  pub id : Text
  pub label : Text
  pub hint : Option Text
  pub group : Group
  pub to : Option Text
  pub keywords : Option (List Text)

-- `${it.label} ${it.hint ?? ""} ${it.keywords?.join(" ") ?? ""}`
abbrev pub haystack_of : Item → Text
haystack_of it =
    it.label
    ++ b' ' ∷ get_or_else it.hint []
    ++ b' ' ∷ elim it.keywords [ none ↦ [] | some words ↦ join (codes " ") words ]

abbrev pub Scored : Type 0
Scored = Item × ℕ

-- `sort((a, b) => b.score - a.score)`, which keeps the order of equal scores
abbrev pub ranks_before : Scored → Scored → Bool
ranks_before a b = leb b.1 a.1

abbrev pub sort : List Scored → List Scored
sort = sort_by ranks_before

-- `lower` is `toLowerCase`.
module _ (lower : Text → Text) where
  -- `fuzzy`
  unfoldable pub fuzzy : Text → Text → Option ℕ
  fuzzy haystack needle =
      if is_empty needle then some 0 else fuzzy_from (lower haystack) (lower needle) 0 0 none

  -- The scored items that match, in their order.
  abbrev pub scored : Text → List Item → List Scored
  scored query [] = []
  scored query (it ∷ items) =
      let rest = scored query items in
      elim (fuzzy (haystack_of it) query) [ none ↦ rest | some s ↦ (it, s) ∷ rest ]

  -- `filtered`
  unfoldable pub filtered : Text → List Item → List Item
  unfolding fuzzy
  filtered query items =
      if is_empty query then take 10 items else map (λ s. s.0) (take 10 (sort (scored query items)))

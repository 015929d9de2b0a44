-- ===== src/Ui/Reorder.antt =====
-- packages/ui/src/frontend.tsx: `ReorderList`, whose `move` takes an item out and puts it in elsewhere.
pub mod Same
use go_platform_starter.Prelude.{
  ℕ, suc, ◌-◌, Bool, true, false, Option, none, some, List, [], ◌∷◌, ◌++◌, leb, if◌then◌else◌,
  length, take, drop, get_elem?, find_index, ◌||◌, Text, text_same, is_empty,
}

module _ {A : Type 0} where
  -- `next.splice(from, 1)`: the rest, and what was taken out; `none` is -1, which stands for the last.
  abbrev pub spliced : Option ℕ → List A → List A × Option A
  spliced none items = (take (length items - 1) items, get_elem? items (length items - 1))
  spliced (some from) items = (take from items ++ drop (suc from) items, get_elem? items from)

  -- `next.splice(to, 0, moved)`
  abbrev pub inserted : ℕ → A → List A → List A
  inserted to moved rest = take to rest ++ moved ∷ drop to rest

  -- `move`: what `onReorder` is called with, if it is; `none` is a negative index.
  unfoldable pub move : Option ℕ → Option ℕ → List A → Option (List A)
  move from none items = none
  move from (some to) items =
      let (rest, taken) = spliced from items in
      if leb (length items) to
      then none
      else some (elim taken [ none ↦ rest | some moved ↦ inserted to moved rest ])

  -- `drop`, of the key that is dragged and the key that it is dropped on.
  unfoldable pub drop_on : (A → Text) → Option Text → Text → List A → Option (List A)
  unfolding move
  drop_on key_of none target items = none
  drop_on key_of (some source) target items =
      if is_empty source || text_same source target
      then none
      else move (find_index (λ item. text_same (key_of item) source) items)
          (find_index (λ item. text_same (key_of item) target) items) items

-- ===== src/Shell/Palette/Keys.antt =====
-- apps/web/src/shell/CommandPalette.tsx: the active row, and the keys that move it and run it. -1, which
-- `Math.min(i + 1, filtered.length - 1)` gives where nothing is listed, is `none`.
use go_platform_starter.Prelude.{
  ℕ, zero, suc, ◌-◌, ◌<◌, max, Bool, true, false, Option, none, some, List, [], ◌∷◌, ◌≡◌, refl,
  arith, ◌⊎◌, min, length, get_elem?, Text, inl, inr,
}
use go_platform_starter.Shell.Palette.{Item, filtered}

pub data Key : Type 0 where
  escape arrow_down arrow_up enter other_key : Key

pub data Effect : Type 0 where
  navigate : Text → Effect
  run_item : Text → Effect

-- The open palette; `effects` are those so far, the newest first.
pub record Palette : Type 0 where
  pub query : Text
  pub active : Option ℕ
  pub is_open : Bool
  pub effects : List Effect

abbrev pub opened : Palette
opened = record { query = []; active = some 0; is_open = true; effects = [] }

-- `Math.min(i + 1, filtered.length - 1)`
abbrev pub next_row : ℕ → Option ℕ → Option ℕ
next_row zero i = none
next_row (suc n) none = some 0
next_row (suc n) (some i) = some (min (suc i) n)

-- `Math.max(i - 1, 0)`
abbrev pub previous_row : Option ℕ → Option ℕ
previous_row none = some 0
previous_row (some i) = some (i - 1)

abbrev pub effect_of : Item → Effect
effect_of it = elim it.to [ none ↦ run_item it.id | some path ↦ navigate path ]

-- Running an item, by Enter or by a click, which also closes the palette.
abbrev pub choose : Item → Palette → Palette
choose it p = record p { is_open = false; effects = effect_of it ∷ p.effects }

-- `filtered[active]`
abbrev pub row : List Item → Option ℕ → Option Item
row rows none = none
row rows (some i) = get_elem? rows i

abbrev pub enter_row : Option Item → Palette → Palette
enter_row none p = p
enter_row (some it) p = choose it p

-- The handler of keys, with the rows that are listed.
unfoldable pub press : List Item → Key → Palette → Palette
press rows escape p = record p { is_open = false }
press rows arrow_down p = record p { active = next_row (length rows) p.active }
press rows arrow_up p = record p { active = previous_row p.active }
press rows enter p = enter_row (row rows p.active) p
press rows other_key p = p

-- A change of the query, with the effect that it has on the active row.
abbrev pub type_query : Text → Palette → Palette
type_query query p = record p { query = query; active = some 0 }

-- The pointer enters a row that is listed.
abbrev pub hover : ℕ → Palette → Palette
hover i p = record p { active = some i }

-- The active row is one of those listed, or the first.
abbrev IsAt : ℕ → Option ℕ → Type 0
IsAt n none = n ≡ 0
IsAt n (some i) = i < max 1 n

next_row-IsAt : (n : ℕ) (i : Option ℕ) → IsAt n (next_row n i)
next_row-IsAt zero i = refl
next_row-IsAt (suc n) none = omega arith
next_row-IsAt (suc n) (some i) = omega arith

previous_row-IsAt : (n : ℕ) (i : Option ℕ) → IsAt n i → IsAt n (previous_row i)
previous_row-IsAt n none h = omega arith
previous_row-IsAt n (some i) h = omega arith

entered-IsAt :
    (n : ℕ) (p : Palette) (found : Option Item)
    → IsAt n p.active
    → IsAt n (enter_row found p).active
entered-IsAt n p none h = h
entered-IsAt n p (some it) h = h

found_row :
    (rows : List Item) (i : ℕ) → i < length rows → (it : Item) × (get_elem? rows i ≡ some it)
found_row [] i h = absurd (omega arith)
found_row (it ∷ rows) zero h = (it, refl)
found_row (it ∷ rows) (suc i) h = found_row rows i (omega arith)

-- Nothing is listed and no row found, or the active row is found.
entered :
    (listed : List Item) (p : Palette) (i : Option ℕ)
    → IsAt (length listed) i
    → ((listed ≡ []) × (enter_row (row listed i) p ≡ p))
      ⊎ ((it : Item) × (row listed i ≡ some it) × (enter_row (row listed i) p ≡ choose it p))
entered [] p none h = inl (refl, refl)
entered [] p (some i) h = inl (refl, refl)
entered (x ∷ xs) p none h = absurd (omega arith)
entered (x ∷ xs) p (some i) h =
    let (it, e) = found_row (x ∷ xs) i (omega arith) in inr (it, e, rw e refl)

press-IsAt :
    (rows : List Item) (k : Key) (p : Palette)
    → IsAt (length rows) p.active
    → IsAt (length rows) (press rows k p).active
unfolding press
press-IsAt rows escape p h = h
press-IsAt rows arrow_down p h = next_row-IsAt (length rows) p.active
press-IsAt rows arrow_up p h = previous_row-IsAt (length rows) p.active h
press-IsAt rows enter p h = entered-IsAt (length rows) p (row rows p.active) h
press-IsAt rows other_key p h = h

press-query : (rows : List Item) (k : Key) (p : Palette) → (press rows k p).query ≡ p.query
unfolding press
press-query rows k p = ground arith

module _ (lower : Text → Text) (items : List Item) where
  abbrev pub rows : Palette → List Item
  rows p = filtered lower p.query items

  -- What can have become of the palette since it was opened.
  pub data IsReachable : Palette → Type 0 where
    start : IsReachable opened
    pressed : {p : Palette} → (k : Key) → IsReachable p → IsReachable (press (rows p) k p)
    typed : {p : Palette} → (query : Text) → IsReachable p → IsReachable (type_query query p)
    hovered :
        {p : Palette} → (i : ℕ) → i < length (rows p) → IsReachable p → IsReachable (hover i p)

  IsReachable-IsAt : (p : Palette) → IsReachable p → IsAt (length (rows p)) p.active
  IsReachable-IsAt p start = omega arith
  IsReachable-IsAt p (pressed {p = q} k h) =
      rw (press-query (rows q) k q) (press-IsAt (rows q) k q (IsReachable-IsAt q h))
  IsReachable-IsAt p (typed {p = q} query h) = omega arith
  IsReachable-IsAt p (hovered {p = q} i l h) = omega arith

  -- However it was got to: while the palette lists an item, Enter runs one that it lists, the active one, and
  -- closes it; and while it lists none, Enter does nothing.
  press-enter :
      (p : Palette)
      → IsReachable p
      → ((rows p ≡ []) × (press (rows p) enter p ≡ p))
        ⊎ ((it : Item) × (row (rows p) p.active ≡ some it) × (press (rows p) enter p ≡ choose it p))
  unfolding press
  press-enter p h = entered (rows p) p p.active (IsReachable-IsAt p h)

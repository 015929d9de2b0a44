-- ===== src/Ui/Focus/Cycling.antt =====
-- Tab goes round the elements of a dialog.
use go_platform_starter.Prelude.{
  ℕ, zero, suc, ◌-◌, ◌<◌, ◌==◌, ==_iff, Bool, true, false, some, List, [], ◌∷◌, ◌≡◌, ◌≢◌, refl, sym,
  ap, ◌∙◌, arith, inl, inr, Bool-cases, if◌then◌else◌, get_elem?, length, distinct, includes, ℕ_key,
}
use go_platform_starter.Ui.Focus.{Node, ids, last_of, trap, trap_tab}

-- The browser's own Tab leads from an element to the next in the order of the page, and Shift+Tab back.
abbrev pub Follows : (Bool → ℕ → ℕ) → List ℕ → Type 0
Follows native nodes =
    (i a b : ℕ)
    → get_elem? nodes i ≡ some a
    → get_elem? nodes (suc i) ≡ some b
    → (native false a ≡ b) × (native true b ≡ a)

get_elem?-last :
    (a : ℕ) (nodes : List ℕ) → get_elem? (a ∷ nodes) (length nodes) ≡ some (last_of a nodes)
get_elem?-last a [] = refl
get_elem?-last a (b ∷ nodes) = get_elem?-last b nodes

includes-get_elem? :
    (nodes : List ℕ) (i a : ℕ) → get_elem? nodes i ≡ some a → includes a nodes ≡ true
includes-get_elem? [] i a h = absurd (ground (arith, h))
includes-get_elem? (b ∷ nodes) zero a h = ground (arith, h, ==_iff a b)
includes-get_elem? (b ∷ nodes) (suc i) a h = ground (arith, includes-get_elem? nodes i a h)

-- An element stands at one place.
one_place :
    (nodes : List ℕ) (i j a : ℕ)
    → distinct nodes ≡ true
    → get_elem? nodes i ≡ some a
    → get_elem? nodes j ≡ some a
    → i ≡ j
one_place [] i j a d h k = absurd (ground (arith, h))
one_place (b ∷ nodes) zero zero a d h k = refl
one_place (b ∷ nodes) zero (suc j) a d h k =
    absurd (ground (arith, d, h, includes-get_elem? nodes j a k))
one_place (b ∷ nodes) (suc i) zero a d h k =
    absurd (ground (arith, d, k, includes-get_elem? nodes i a h))
one_place (b ∷ nodes) (suc i) (suc j) a d h k =
    ground (arith, one_place nodes i j a (ground (arith, d)) h k)

get_elem?-below :
    (nodes : List ℕ) (i : ℕ) → i < length nodes → (a : ℕ) × (get_elem? nodes i ≡ some a)
get_elem?-below [] i h = absurd (omega (arith, h))
get_elem?-below (a ∷ nodes) zero h = (a, refl)
get_elem?-below (a ∷ nodes) (suc i) h = get_elem?-below nodes i (omega (arith, h))

get_elem?-bound : (nodes : List ℕ) (i a : ℕ) → get_elem? nodes i ≡ some a → i < length nodes
get_elem?-bound [] i a h = absurd (ground (arith, h))
get_elem?-bound (b ∷ nodes) zero a h = omega arith
get_elem?-bound (b ∷ nodes) (suc i) a h = omega (arith, get_elem?-bound nodes i a h)

-- The place after `i` of `n`, and the one before it, going round.
abbrev pub next_place : Bool → ℕ → ℕ → ℕ
next_place false n i = if suc i == n then 0 else suc i
next_place true n i = if i == 0 then n - 1 else i - 1

back_one : (i n : ℕ) → next_place true n (suc i) ≡ i
back_one i n = ground arith

module _ (native : Bool → ℕ → ℕ) where
  trap-forward :
      (root first : ℕ) (nodes : List ℕ) (i a : ℕ)
      → distinct (first ∷ nodes) ≡ true
      → Follows native (first ∷ nodes)
      → get_elem? (first ∷ nodes) i ≡ some a
      → get_elem? (first ∷ nodes) (next_place false (suc (length nodes)) i)
        ≡ some (trap native false root (first ∷ nodes) a)
  trap-forward root first nodes i a d f h = elim (Bool-cases (a == last_of first nodes)) [
    | inl e ↦
        let place =
          one_place (first ∷ nodes) i (length nodes) a d h
            (get_elem?-last first nodes ∙ ground (arith, e, ==_iff a (last_of first nodes))) in
        rw (e, place) (ground (arith, ==_iff (length nodes) (length nodes)))
    | inr e ↦
        let inner = not_last e in
        let (b, at_next) =
          get_elem?-below (first ∷ nodes) (suc i)
            (omega (arith, inner, get_elem?-bound (first ∷ nodes) i a h)) in
        let step : suc i == suc (length nodes) ≡ false = ground (arith, inner) in
        rw (e, step) (at_next ∙ ap some (sym (f i a b h at_next).0))
  ]
    where
      not_last : (a == last_of first nodes) ≡ false → i ≢ length nodes
      not_last e q =
          let end = get_elem?-last first nodes in
          ground (arith, ==_iff a (last_of first nodes), rw (← q) at end)

  trap-back :
      (root first : ℕ) (nodes : List ℕ) (i a : ℕ)
      → distinct (first ∷ nodes) ≡ true
      → Follows native (first ∷ nodes)
      → get_elem? (first ∷ nodes) i ≡ some a
      → get_elem? (first ∷ nodes) (next_place true (suc (length nodes)) i)
        ≡ some (trap native true root (first ∷ nodes) a)
  trap-back root first nodes zero a d f h =
      let last : suc (length nodes) - 1 ≡ length nodes = omega arith in
      rw ((==_iff a first).1 (ground (arith, h)), last) (get_elem?-last first nodes)
  trap-back root first nodes (suc i) a d f h =
      let (b, before) =
        get_elem?-below (first ∷ nodes) i
          (omega (arith, get_elem?-bound (first ∷ nodes) (suc i) a h)) in
      let inner : (a == first) ≡ false = elim (Bool-cases (a == first)) [
        | inl e ↦ absurd (
            omega (
              arith,
              one_place (first ∷ nodes) (suc i) 0 a d h (ap some (sym ((==_iff a first).0 e))),
            ))
        | inr e ↦ e
      ] in
      rw (inner, back_one i (suc (length nodes))) (before ∙ ap some (sym (f i b a before h).1))

  -- Let the elements of a dialog that can have the focus be different ones that follow one another in the
  -- order of the page. With the focus on one of them, Tab leads to the next and Shift+Tab to the one before,
  -- from the last to the first and from the first to the last.
  trap_tab-cycles :
      (shift : Bool) (root i a : ℕ) (nodes : List Node)
      → distinct (ids nodes) ≡ true
      → Follows native (ids nodes)
      → get_elem? (ids nodes) i ≡ some a
      → get_elem? (ids nodes) (next_place shift (length (ids nodes)) i)
        ≡ some (trap_tab native true shift (some (root, nodes)) a)
  unfolding trap_tab
  trap_tab-cycles shift root i a nodes = cycles shift (ids nodes)
    where
      cycles :
          (shift : Bool) (nodes : List ℕ)
          → distinct nodes ≡ true
          → Follows native nodes
          → get_elem? nodes i ≡ some a
          → get_elem? nodes (next_place shift (length nodes) i)
            ≡ some (trap native shift root nodes a)
      cycles shift [] d f h = absurd (ground (arith, h))
      cycles true (first ∷ nodes) d f h = trap-back root first nodes i a d f h
      cycles false (first ∷ nodes) d f h = trap-forward root first nodes i a d f h

-- ===== src/Prelude/Members.antt =====
-- Members of lists: what filtering and cutting keep of them.
use Prim.Native.Nat.{ℕ, zero, suc}
use mathlib.Core.Path.{◌≡◌, refl}
use mathlib.Core.Logic.{◌⊎◌, ◌↔◌, inl, inr}
use mathlib.Core.Bool.{Bool, true, false}
use mathlib.Core.List.{List, [], ◌∷◌, Memᴰ}
use mathlib.Core.List.Memᴰ
use native.Mathlib.Omega.{arith}
use go_platform_starter.Prelude.Tests.{if◌then◌else◌, Bool-cases}
use go_platform_starter.Prelude.Lists.{any, filter, take, drop, All}

module _ {A : Type 0} where
  pub All-at : (P : A → Type 0) (a : A) (xs : List A) → All P xs → Memᴰ a xs → P a
  All-at P a [] h m = absurd (Memᴰ.not-nil m)
  All-at P a (x ∷ xs) h m = elim (Memᴰ.cases_cons m) [
    | inl e ↦ rw e h.0
    | inr t ↦ All-at P a xs h.1 t
  ]

  kept :
      (keep : A → Bool) (a : A) (t : Bool) (x : A) (rest : List A)
      → (keep x ≡ t)
      → Memᴰ a (if t then x ∷ rest else rest)
      → ((a ≡ x) × (keep a ≡ true)) ⊎ Memᴰ a rest
  kept keep a true x rest k m = elim (Memᴰ.cases_cons m) [ inl e ↦ inl (e, rw e k) | inr t ↦ inr t ]
  kept keep a false x rest k m = inr m

  pub filter-Mem_left :
      (keep : A → Bool) (a : A) (xs : List A)
      → Memᴰ a (filter keep xs)
      → Memᴰ a xs × (keep a ≡ true)
  filter-Mem_left keep a [] m = absurd (Memᴰ.not-nil m)
  filter-Mem_left keep a (x ∷ xs) m = elim (kept keep a (keep x) x (filter keep xs) refl m) [
    | inl h ↦ (Memᴰ.head h.0, h.1)
    | inr t ↦ let h = filter-Mem_left keep a xs t in (Memᴰ.tail h.0, h.1)
  ]

  keeps :
      (a : A) (t : Bool) (x : A) (rest : List A)
      → ((a ≡ x) × (t ≡ true)) ⊎ Memᴰ a rest
      → Memᴰ a (if t then x ∷ rest else rest)
  keeps a true x rest (inl h) = Memᴰ.head h.0
  keeps a true x rest (inr m) = Memᴰ.tail m
  keeps a false x rest (inl h) = absurd (ground (arith, h.1))
  keeps a false x rest (inr m) = m

  pub filter-Mem_right :
      (keep : A → Bool) (a : A) (xs : List A) → Memᴰ a xs → keep a ≡ true → Memᴰ a (filter keep xs)
  filter-Mem_right keep a [] m k = m
  filter-Mem_right keep a (x ∷ xs) m k = elim (Memᴰ.cases_cons m) [
    | inl e ↦ keeps a (keep x) x (filter keep xs) (inl (e, rw (← e) k))
    | inr t ↦ keeps a (keep x) x (filter keep xs) (inr (filter-Mem_right keep a xs t k))
  ]

  pub drop-Mem : (n : ℕ) (a : A) (xs : List A) → Memᴰ a (drop n xs) → Memᴰ a xs
  drop-Mem zero a xs m = m
  drop-Mem (suc n) a [] m = m
  drop-Mem (suc n) a (x ∷ xs) m = Memᴰ.tail (drop-Mem n a xs m)

  pub take-drop-Mem :
      (n : ℕ) (a : A) (xs : List A) → Memᴰ a xs → Memᴰ a (take n xs) ⊎ Memᴰ a (drop n xs)
  take-drop-Mem zero a xs m = inr m
  take-drop-Mem (suc n) a [] m = inl m
  take-drop-Mem (suc n) a (x ∷ xs) m = elim (Memᴰ.cases_cons m) [
    | inl e ↦ inl (Memᴰ.head e)
    | inr t ↦ elim (take-drop-Mem n a xs t) [ inl h ↦ inl (Memᴰ.tail h) | inr h ↦ inr h ]
  ]

  -- What holds of every member holds of all.
  pub All-of : (P : A → Type 0) (xs : List A) → ((a : A) → Memᴰ a xs → P a) → All P xs
  All-of P [] h = tt
  All-of P (x ∷ xs) h = (h x (Memᴰ.head refl), All-of P xs (λ a m. h a (Memᴰ.tail m)))

  -- Some item passes a test exactly if a member does.
  pub any-Mem_iff :
      (test : A → Bool) (xs : List A)
      → (any test xs ≡ true) ↔ ((a : A) × Memᴰ a xs × (test a ≡ true))
  any-Mem_iff test [] = ((λ h. absurd (ground arith)), (λ h. absurd (Memᴰ.not-nil h.1)))
  any-Mem_iff test (x ∷ xs) =
      let rest = any-Mem_iff test xs in
      (
        (λ h. elim (Bool-cases (test x)) [
          | inl e ↦ (x, Memᴰ.head refl, e)
          | inr e ↦ let (a, m, k) = rest.0 (ground (arith, h, e)) in (a, Memᴰ.tail m, k)
        ]),
        (λ h.
            let (a, m, k) = h in
            elim (Memᴰ.cases_cons m) [
              | inl e ↦ ground (arith, e, k)
              | inr t ↦ ground (arith, rest.1 (a, t, k))
            ]),
      )

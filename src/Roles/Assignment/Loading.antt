-- ===== src/Roles/Assignment/Loading.antt =====
-- All users are loaded, page by page.
use go_platform_starter.Prelude.{
  ℕ, zero, suc, ◌+◌, ◌*◌, ◌≤◌, ◌<◌, Bool, false, not, Option, some, List, [], ◌∷◌, ◌++◌, ◌≡◌, inl,
  inr, refl, ap, arith, leb, ◌==◌, if◌then◌else◌, length, length-take, length-drop, take, drop,
  ℕ_key, includes, includes-append, includes-unique, includes-filter, Bool-cases,
}
use go_platform_starter.Roles.Assignment.{
  Page, users, is_empty_page, load_from, load_users, assigned_role_ids,
}

-- A backend that serves pages of fifty of a fixed list, with its length for the total.
abbrev pub serving : {A : Type 0} → List A → ℕ → Option (Page A)
serving all offset =
    some (record { items = some (take 50 (drop offset all)); total = some (length all) })

module _ {A : Type 0} where
  take-nil : (n : ℕ) → ◌≡◌ {A = List A} (take n []) []
  take-nil zero = refl
  take-nil (suc n) = refl

  take-add : (m n : ℕ) (xs : List A) → take m xs ++ take n (drop m xs) ≡ take (m + n) xs
  take-add zero n xs = let e : 0 + n ≡ n = omega arith in rw e refl
  take-add (suc m) n [] = let e : suc m + n ≡ suc (m + n) = omega arith in rw e (take-nil n)
  take-add (suc m) n (x ∷ xs) =
      let e : suc m + n ≡ suc (m + n) = omega arith in rw e (ap (λ l. x ∷ l) (take-add m n xs))

  take-all : (n : ℕ) (xs : List A) → length xs ≤ n → take n xs ≡ xs
  take-all zero [] h = refl
  take-all zero (x ∷ xs) h = absurd (omega arith)
  take-all (suc n) [] h = refl
  take-all (suc n) (x ∷ xs) h = ap (λ l. x ∷ l) (take-all n xs (omega arith))

  load_from-serving :
      (all : List A) (fuel offset : ℕ)
      → offset ≤ length all
      → length all < offset + 50 * fuel
      → load_from (serving all) fuel offset (take offset all) ≡ users all
  unfolding load_from
  load_from-serving all zero offset h k = absurd (omega arith)
  load_from-serving all (suc fuel) offset h k =
      let next = take-add offset 50 all in
      let size = length-take (offset + 50) all in
      elim (Bool-cases (leb (length all) (offset + 50))) [
        | inl last ↦
            let full = take-all (offset + 50) all (ground arith) in
            rw next (ground (arith, size, full))
        | inr more ↦
            let page = length-take 50 (drop offset all) in
            let left = length-drop offset all in
            let some_more : (is_empty_page (take 50 (drop offset all))) ≡ false = ground arith in
            let go = load_from-serving all fuel (offset + 50) (ground arith) (ground arith) in
            rw next (ground (arith, size, go, some_more))
      ]

-- All the users that a backend of a fixed list has are loaded, each once and in order: a number of
-- rounds beyond a fiftieth of them is enough.
pub load_users-serving :
    {A : Type 0}
    → (all : List A) (fuel : ℕ) → length all < 50 * fuel
    → load_users (serving all) fuel ≡ users all
unfolding load_users
load_users-serving all fuel h = load_from-serving all fuel 0 (omega arith) (omega arith)

-- Assigning a role sends for a user the roles that the user has and that role; removing it sends the
-- others.
includes-assigned_role_ids :
    (add : Bool) (role r : ℕ) (current : List ℕ)
    → includes r (assigned_role_ids add role current)
      ≡ (if r == role then add else includes r current)
unfolding assigned_role_ids
includes-assigned_role_ids add role r current = ground (
  arith,
  includes-unique r (current ++ role ∷ []),
  includes-append r current (role ∷ []),
  includes-filter (λ id. not (id == role)) r current,
)

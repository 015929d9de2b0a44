-- ===== src/Roles/Listing/Opening.antt =====
-- Which roles are open, and where the arrow keys lead.
use native.Mathlib.Nat.{add-mod_right, mod-eq_of_lt, mod_self}
use go_platform_starter.Prelude.{
  ℕ, ◌+◌, ◌-◌, ◌<◌, ◌%◌, ◌==◌, Bool, true, false, not, List, [], ◌∷◌, ◌++◌, ◌≡◌, arith,
  if◌then◌else◌, filter, ◌⊎◌, ◌≢◌, inl, inr, ap, sym, ◌∙◌,
}
use go_platform_starter.Roles.Listing.{holds, toggle_open, arrow_left, arrow_right, next_button}

holds-append :
    (id other : ℕ) (ids : List ℕ)
    → holds id (ids ++ other ∷ []) ≡ (if other == id then true else holds id ids)
holds-append id other [] = ground arith
holds-append id other (x ∷ ids) = ground (arith, holds-append id other ids)

holds-without :
    (id other : ℕ) (ids : List ℕ)
    → holds id (filter (λ v. not (v == other)) ids) ≡ (if other == id then false else holds id ids)
holds-without id other [] = ground arith
holds-without id other (x ∷ ids) = ground (arith, holds-without id other ids)

-- Toggling a role opens it where it is closed and closes it where it is open. The others stay as they are
-- where several may be open, and are closed where only one may.
holds-toggle_open :
    (multi_open : Bool) (id other : ℕ) (current : List ℕ)
    → holds other (toggle_open multi_open id current) ≡ (
        if id == other
        then not (holds id current)
        else if multi_open
        then holds other current
        else false)
unfolding toggle_open
holds-toggle_open multi_open id other current =
    ground (arith, holds-append other id current, holds-without other id current)

-- An arrow and the opposite one lead back to the same button.
next_button-back :
    (n index : ℕ) → index < n → next_button n arrow_left (next_button n arrow_right index) ≡ index
next_button-back n index h = elim (dec_eq (index + 1) n) [
  | inl e ↦
      let front : (index + 1 + n) % n ≡ 0 =
        add-mod_right (index + 1) n ∙ ap (λ k. k % n) e ∙ mod_self n in
      let back : index ≡ 0 + n - 1 = omega arith in
      rw front (ap (λ k. k % n) (sym back) ∙ mod-eq_of_lt h)
  | inr l ↦
      let front : (index + 1 + n) % n ≡ index + 1 =
        add-mod_right (index + 1) n ∙ mod-eq_of_lt {n = index + 1} {m = n} (omega arith) in
      let back : index + 1 + n - 1 ≡ index + n = omega arith in
      rw front (ap (λ k. k % n) back ∙ add-mod_right index n ∙ mod-eq_of_lt h)
]
  where
    dec_eq : (a b : ℕ) → (a ≡ b) ⊎ (a ≢ b)
    dec_eq a b = ground arith

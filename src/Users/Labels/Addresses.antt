-- ===== src/Users/Labels/Addresses.antt =====
-- Which IPv4 addresses are called private.
use go_platform_starter.Prelude.{
  ℕ, zero, suc, ◌<◌, ◌==◌, ==_iff, Bool, true, false, not, ◌&&◌, ◌||◌, some, ◌∷◌, ◌++◌, map, drop,
  ◌≡◌, refl, arith, inl, inr, Bool-cases, leb, if◌then◌else◌, Text, codes, is_empty, text_same,
  starts_with, fold_case, decimal,
}
use go_platform_starter.Users.Labels.{starts_in_range, is_private, ip_description}

-- A test that holds of all numbers below one.
abbrev all_below : ℕ → (ℕ → Bool) → Bool
all_below zero f = true
all_below (suc n) f = f n && all_below n f

all_below_lem : (n : ℕ) (f : ℕ → Bool) → all_below n f ≡ true → (k : ℕ) → k < n → f k ≡ true
all_below_lem zero f h k l = absurd (omega (arith, l))
all_below_lem (suc n) f h k l = elim (Bool-cases (k == n)) [
  | inl e ↦ rw ((==_iff k n).0 e) (ground (arith, h))
  | inr e ↦ all_below_lem n f (ground (arith, h)) k (ground (arith, l, e))
]

-- An octet in decimal, with a dot and the rest behind it, in lower case.
abbrev dotted : ℕ → Text → Text
dotted n rest = map fold_case (decimal n ++ b'.' ∷ rest)

abbrev same : Bool → Bool → Bool
same true b = b
same false b = not b

same-eq : (a b : Bool) → same a b ≡ true → a ≡ b
same-eq a b h = ground (arith, h)

module _ (rest : Text) (n : ℕ) (l : n < 256) where
  is_loopback : starts_with (codes "127.") (dotted n rest) ≡ (n == 127)
  unfolding starts_with decimal
  is_loopback = same-eq _ _ (
      all_below_lem 256 (λ k. same (starts_with (codes "127.") (dotted k rest)) (k == 127)) refl n
        l)

  is_ten : starts_with (codes "10.") (dotted n rest) ≡ (n == 10)
  unfolding starts_with decimal
  is_ten =
      same-eq _ _ (
        all_below_lem 256 (λ k. same (starts_with (codes "10.") (dotted k rest)) (k == 10)) refl n
          l)

  is_168 : starts_with (codes "168.") (dotted n rest) ≡ (n == 168)
  unfolding starts_with decimal
  is_168 = same-eq _ _ (
      all_below_lem 256 (λ k. same (starts_with (codes "168.") (dotted k rest)) (k == 168)) refl n
        l)

  is_sixteen : starts_in_range (dotted n rest) ≡ (leb 16 n && leb n 31)
  unfolding starts_with decimal
  is_sixteen = same-eq _ _ (
      all_below_lem 256 (λ k. same (starts_in_range (dotted k rest)) (leb 16 k && leb k 31)) refl n
        l)

  -- What no octet but the one begins with.
  not_192 : (n == 192) ≡ false → starts_with (codes "192.168.") (dotted n rest) ≡ false
  unfolding starts_with decimal
  not_192 h =
      let some_octet =
        all_below_lem 256 (λ k. (k == 192) || not (starts_with (codes "192.168.") (dotted k rest)))
          refl n l in
      ground (arith, h, some_octet)

  is_172 : starts_with (codes "172.") (dotted n rest) ≡ (n == 172)
  unfolding starts_with decimal
  is_172 = same-eq _ _ (
      all_below_lem 256 (λ k. same (starts_with (codes "172.") (dotted k rest)) (k == 172)) refl n
        l)

  abbrev is_six : Text → Bool
  is_six s = text_same s (codes "::1") || starts_with (codes "fc") s || starts_with (codes "fd") s

  not_six : is_six (dotted n rest) ≡ false
  unfolding starts_with decimal
  not_six = same-eq _ _ (all_below_lem 256 (λ k. same (is_six (dotted k rest)) false) refl n l)

  some_text : is_empty (decimal n ++ b'.' ∷ rest) ≡ false
  unfolding decimal
  some_text =
      same-eq _ _
        (all_below_lem 256 (λ k. same (is_empty (decimal k ++ b'.' ∷ rest)) false) refl n l)

-- RFC 1918, and the loopback addresses of IPv4.
abbrev pub is_reserved : ℕ → ℕ → Bool
is_reserved a b =
    a == 127 || a == 10 || (a == 192 && b == 168) || (a == 172 && (leb 16 b && leb b 31))

module _ (a b : ℕ) (rest : Text) (k : a < 256) (l : b < 256) where
  abbrev behind : Text
  behind = decimal b ++ b'.' ∷ rest

  is_home : starts_with (codes "192.168.") (dotted a behind) ≡ (a == 192 && b == 168)
  is_home = elim (Bool-cases (a == 192)) [
    | inl e ↦ rw ((==_iff a 192).0 e) (unfold starts_with decimal in is_168 rest b l)
    | inr e ↦ rw (not_192 behind a k e, e) refl
  ]

  is_office :
      (starts_with (codes "172.") (dotted a behind) && starts_in_range (drop 4 (dotted a behind)))
      ≡ (a == 172 && (leb 16 b && leb b 31))
  is_office = elim (Bool-cases (a == 172)) [
    | inl e ↦ rw ((==_iff a 172).0 e) (unfold starts_with decimal in is_sixteen rest b l)
    | inr e ↦ rw (is_172 behind a k, e) refl
  ]

  is_private-eq : is_private (dotted a behind) ≡ is_reserved a b
  is_private-eq =
      let six = not_six behind a k in
      rw (is_loopback behind a k, is_ten behind a k, is_home, is_office) (ground (arith, six))

  -- An IPv4 address is called private or of the loopback exactly if its first two octets are those of RFC 1918
  -- or the first is 127, and public otherwise, whatever the text behind the two octets.
  pub ip_description-octets : ip_description (some (decimal a ++ b'.' ∷ behind)) ≡ (
      if is_reserved a b
      then codes "Private or loopback network address"
      else codes "Public network address")
  unfolding ip_description
  ip_description-octets = rw (some_text behind a k, is_private-eq) refl

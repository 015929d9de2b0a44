-- ===== src/Users/Passwords/Accepted.antt =====
-- A random password meets the rules that the login pages have for passwords.
use native.Mathlib.Nat.{mod-lt}
use go_platform_starter.Prelude.{
  ℕ, zero, suc, ◌<◌, ◌%◌, ◌==◌, Bool, true, List, [], ◌∷◌, map, ◌≡◌, ◌∙◌, arith, length, length-map,
  any, get_elem?, get_or_else, All, Text,
}
use go_platform_starter.Auth.Validation.{valid_password}
use go_platform_starter.Users.Passwords.{alphabet, letter, random_password}

-- The character is one of the text's.
abbrev pub is_in : Text → ℕ → Bool
is_in text c = any (λ d. d == c) text

found-is_in :
    (text : Text) (i : ℕ) → i < length text → is_in text (get_or_else (get_elem? text i) 0) ≡ true
found-is_in [] i h = absurd (omega arith)
found-is_in (c ∷ text) zero h = ground arith
found-is_in (c ∷ text) (suc i) h = ground (arith, found-is_in text i)

letters-is_in : (bytes : List ℕ) → All (λ c. is_in alphabet c ≡ true) (map letter bytes)
letters-is_in [] = tt
letters-is_in (byte ∷ bytes) =
    (found-is_in alphabet (byte % length alphabet) (mod-lt byte (omega arith)), letters-is_in bytes)

-- Of sixteen bytes, whatever they are, the password is twenty characters of the alphabet and the fixed
-- beginning, and the login pages accept it, whatever they take for a symbol.
random_password-accepted :
    (has_symbol : Text → Bool) (bytes : List ℕ)
    → ◌≡◌ {A = ℕ} (length bytes) 16
    → (valid_password has_symbol (random_password bytes) ≡ true)
      × All (λ c. is_in alphabet c ≡ true) (map letter bytes)
unfolding valid_password random_password
random_password-accepted has_symbol bytes sixteen =
    let size : ◌≡◌ {A = ℕ} (length (map letter bytes)) 16 = length-map letter bytes ∙ sixteen in
    (ground (arith, size), letters-is_in bytes)

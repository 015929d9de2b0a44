-- ===== src/Auth/Validation.antt =====
-- apps/web-auth/src/auth-ui.tsx: addresses and passwords. `lower` is `toLowerCase`, and `has_symbol`
-- is `/[^\p{L}\p{N}]/u.test`, both by the Unicode tables of the browser.
pub mod Address
pub mod Strength
use go_platform_starter.Prelude.{
  ℕ, ◌+◌, Bool, true, false, not, ◌&&◌, ◌||◌, List, [], ◌∷◌, leb, ltb, ◌==◌, if◌then◌else◌, length,
  any, filter, Text, is_empty, is_space, trim,
}
use go_platform_starter.Prelude.Regex.{Regex, unit, seq, plus, test}

abbrev pub password_max : ℕ
password_max = 72

abbrev pub is_lower : ℕ → Bool
is_lower c = leb b'a' c && leb c b'z'

abbrev pub is_upper : ℕ → Bool
is_upper c = leb b'A' c && leb c b'Z'

-- `\d`
abbrev pub is_digit : ℕ → Bool
is_digit c = leb b'0' c && leb c b'9'

-- `\w`
abbrev pub is_word : ℕ → Bool
is_word c = is_lower c || is_upper c || is_digit c || c == b'_'

-- `[^\s@]`
abbrev pub is_plain : ℕ → Bool
is_plain c = not (is_space c || c == b'@')

-- `/^[^\s@]+@[^\s@]+\.[^\s@]+$/`
abbrev pub email_pattern : Regex
email_pattern = seq (plus (unit is_plain)) (
    seq (unit (λ c. c == b'@'))
      (seq (plus (unit is_plain)) (seq (unit (λ c. c == b'.')) (plus (unit is_plain)))))

module _ (lower : Text → Text) where
  unfoldable pub normalize_email : Text → Text
  normalize_email value = lower (trim value)

  unfoldable pub valid_email : Text → Bool
  unfolding normalize_email
  valid_email value = test email_pattern (normalize_email value)

-- `tests.filter(Boolean).length`
abbrev pub count_true : List Bool → ℕ
count_true tests = length (filter (λ b. b) tests)

unfoldable pub password_strength : Text → ℕ
password_strength value =
    if is_empty value
    then 0
    else count_true (
        leb 8 (length value)
        ∷ leb 12 (length value)
        ∷ (any is_lower value && any is_upper value)
        ∷ any is_digit value
        ∷ any (λ c. not (is_word c || is_space c)) value
        ∷ [])

unfoldable pub valid_password : (Text → Bool) → Text → Bool
valid_password has_symbol value =
    let classes =
      count_true
        (any is_lower value ∷ any is_upper value ∷ any is_digit value ∷ has_symbol value ∷ []) in
    leb 12 (length value) && leb (length value) password_max && leb 3 classes

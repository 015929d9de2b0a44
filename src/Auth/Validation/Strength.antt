-- ===== src/Auth/Validation/Strength.antt =====
-- How the meter of a password and its acceptance agree.
use go_platform_starter.Prelude.{◌≤◌, Bool, true, ◌≡◌, arith, length, Text}
use go_platform_starter.Auth.Validation.{password_strength, valid_password}

module _ (has_symbol : Text → Bool) (value : Text) where
  -- A password that is accepted has 12 to 72 code units and shows a strength of three or more.
  pub valid_password_bounds :
      valid_password has_symbol value ≡ true
      → (12 ≤ length value) × (length value ≤ 72) × (3 ≤ password_strength value)
  unfolding valid_password password_strength
  valid_password_bounds h = (ground arith, ground arith, ground arith)

  -- A password of full strength, five, that is not too long is accepted, whatever the Unicode test says
  -- of it.
  password_strength_full :
      password_strength value ≡ 5 → length value ≤ 72 → valid_password has_symbol value ≡ true
  unfolding valid_password password_strength
  password_strength_full h k = ground arith

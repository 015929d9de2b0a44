-- ===== src/Auth/Reset/Sending.antt =====
-- Which passwords the form sends, and what a failure leaves.
use go_platform_starter.Prelude.{◌≤◌, Bool, true, some, [], ◌≡◌, arith, Text, text_same_iff, length}
use go_platform_starter.Auth.Validation.{valid_password}
use go_platform_starter.Auth.Validation.Strength.{valid_password_bounds}
use go_platform_starter.Auth.Reset.{ResetState, ResetCall, submit}

module _ (schema_ok : Text → Text → Bool) (password_ok token_ok : Text → Bool)
    (has_symbol : Text → Bool) (st : ResetState) (call : ResetCall) where
  -- What the form sends is the token of the link and the password that was typed twice; that password
  -- passes the schema and the page's own rules, so that it has 12 to 72 code units. Nothing is sent
  -- with an error on the page, and the form is busy until the reply.
  reset_sends :
      (submit schema_ok password_ok token_ok has_symbol st).1 ≡ some call
      → (call.token ≡ st.token)
        × (call.new_password ≡ st.confirm)
        × (schema_ok call.token call.new_password ≡ true)
        × (valid_password has_symbol call.new_password ≡ true)
        × (12 ≤ length call.new_password)
        × (length call.new_password ≤ 72)
        × ((submit schema_ok password_ok token_ok has_symbol st).0.error ≡ [])
        × ((submit schema_ok password_ok token_ok has_symbol st).0.busy ≡ true)
  unfolding submit
  reset_sends h =
      let same = text_same_iff st.confirm st.new_password in
      let strong : valid_password has_symbol call.new_password ≡ true = ground arith in
      let (low, high, _) = valid_password_bounds has_symbol call.new_password strong in
      (
        ground arith,
        ground (arith, same),
        ground arith,
        strong,
        low,
        high,
        ground arith,
        ground arith,
      )

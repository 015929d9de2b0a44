-- ===== src/Auth/Register/Sending.antt =====
-- The form sends exactly what it has no complaint about.
use go_platform_starter.Prelude.{Bool, true, some, [], ◌≡◌, ◌↔◌, arith, Text}
use go_platform_starter.Auth.Validation.{normalize_email}
use go_platform_starter.Auth.Register.{RegisterState, RegisterCall, errors, submit}

module _ (lower : Text → Text) (password_ok has_symbol : Text → Bool) (st : RegisterState) where
  -- A submission sends a request exactly if the form, once touched and with no error of an earlier
  -- reply, lists no error.
  register_sends_iff :
      ((call : RegisterCall) × ((submit lower password_ok has_symbol st).1 ≡ some call))
      ↔ (errors lower password_ok has_symbol (record st { touched = true; error = [] }) ≡ [])
  unfolding submit errors
  register_sends_iff = (
    (λ h. let (call, e) = h in ground arith),
    (λ h.
        (record { email = normalize_email lower st.email; password = st.password }, ground arith)),
  )

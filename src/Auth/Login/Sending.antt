-- ===== src/Auth/Login/Sending.antt =====
-- When the form sends a request, and what it hands on.
use go_platform_starter.Prelude.{
  Bool, true, Option, none, some, [], ◌≡◌, ◌↔◌, arith, if◌then◌else◌, Text,
}
use go_platform_starter.Auth.Validation.{normalize_email, valid_email}
use go_platform_starter.Auth.Login.{LoginState, LoginCall, submit}

module _ (lower : Text → Text) (payload_ok : Text → Option Text → Bool) (st : LoginState) where
  -- A submission sends a request exactly if the address is valid, the password and the code that is
  -- asked for pass the schema, and the form is not locked.
  login_sends_iff : ((call : LoginCall) × ((submit lower payload_ok st).1 ≡ some call)) ↔ (
      (valid_email lower st.email ≡ true)
      × (payload_ok st.password (if st.mfa_required then some st.otp else none) ≡ true)
      × (st.lock_seconds ≡ 0))
  unfolding submit
  login_sends_iff = (
    (λ h. let (call, e) = h in (ground arith, ground arith, ground arith)),
    (λ h. (
      record {
        email = normalize_email lower st.email;
        password = st.password;
        otp = if st.mfa_required then some st.otp else none;
      },
      ground arith,
    )),
  )

  -- The request holds the normalized address, the password, and the code exactly when it is asked for;
  -- the form is then busy with no error, and shows the address as it was sent.
  login_sends_form :
      (call : LoginCall)
      → (submit lower payload_ok st).1 ≡ some call
      → (call.email ≡ normalize_email lower st.email)
        × (call.password ≡ st.password)
        × (call.otp ≡ (if st.mfa_required then some st.otp else none))
        × ((submit lower payload_ok st).0.busy ≡ true)
        × ((submit lower payload_ok st).0.error ≡ [])
        × ((submit lower payload_ok st).0.email ≡ call.email)
  unfolding submit
  login_sends_form call e =
      (ground arith, ground arith, ground arith, ground arith, ground arith, ground arith)

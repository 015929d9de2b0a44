-- ===== src/Auth/Forgot/Cooldown.antt =====
-- When a link can be sent again.
use go_platform_starter.Prelude.{ℕ, zero, suc, ◌-◌, ◌≤◌, ◌<◌, true, ◌≡◌, ◌↔◌, refl, arith}
use go_platform_starter.Auth.Api.{AuthApiError, done, threw}
use go_platform_starter.Auth.Login.{status_is}
use go_platform_starter.Auth.Forgot.{ForgotState, resend_seconds, settle, tick, can_resend}

-- `n` seconds.
abbrev pub ticks : ℕ → ForgotState → ForgotState
ticks zero st = st
ticks (suc n) st = ticks n (tick st)

ticks-cooldown :
    (n : ℕ) (st : ForgotState)
    → ((ticks n st).cooldown ≡ st.cooldown - n) × ((ticks n st).busy ≡ st.busy)
ticks-cooldown zero st = (omega arith, refl)
ticks-cooldown (suc n) st =
    let (a, b) = ticks-cooldown n (tick st) in let (c, d) = one in (ground arith, ground arith)
  where
    one : ((tick st).cooldown ≡ st.cooldown - 1) × ((tick st).busy ≡ st.busy)
    one = unfold tick in (ground arith, ground arith)

-- After a link was sent, the page lets the user ask for another exactly when thirty seconds have
-- passed; after a 429 that names a time, exactly when that time has passed.
can_resend-ticks :
    (n : ℕ) (st : ForgotState) (e : AuthApiError)
    → status_is e.status 429 ≡ true
    → 0 < e.retry_after
    → ((can_resend (ticks n (settle (done tt) st)) ≡ true) ↔ (resend_seconds ≤ n))
      × ((can_resend (ticks n (settle (threw e) st)) ≡ true) ↔ (e.retry_after ≤ n))
unfolding can_resend settle
can_resend-ticks n st e limited later =
    let (a, b) = ticks-cooldown n (settle (done tt) st) in
    let (c, d) = ticks-cooldown n (settle (threw e) st) in
    (((λ h. ground arith), (λ h. ground arith)), ((λ h. ground arith), (λ h. ground arith)))

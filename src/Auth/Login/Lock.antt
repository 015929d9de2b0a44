-- ===== src/Auth/Login/Lock.antt =====
-- The count of attempts and the temporary lock.
use go_platform_starter.Prelude.{
  ℕ, zero, suc, ◌-◌, ◌≤◌, ◌<◌, Bool, false, ◌&&◌, Option, some, List, [], ◌∷◌, ◌≡◌, arith, ltb,
  ◌==◌, if◌then◌else◌, Text, codes, text_same,
}
use go_platform_starter.Auth.Api.{AuthApiError, Result, done, threw, LoginPayload}
use go_platform_starter.Contracts.Claims.{TokenClaims}
use go_platform_starter.Auth.Login.{
  max_attempts, lock_time, LoginState, submit, refuse, settle, tick, status_is, change_otp,
}

-- What can happen to the form.
pub data Event : Type 0 where
  typed_otp : Text → Event
  submitted ticked : Event
  replied : Result LoginPayload → Event

module _ (lower : Text → Text) (payload_ok : Text → Option Text → Bool)
    (parse : Text → Option TokenClaims) where
  pub handle : Event → LoginState → LoginState
  handle (typed_otp value) st = change_otp value st
  handle submitted st = (submit lower payload_ok st).0
  handle ticked st = tick st
  handle (replied r) st = (settle parse r st).0

  pub run : List Event → LoginState → LoginState
  unfolding handle
  run [] st = st
  run (e ∷ events) st = run events (handle e st)

  handle-attempts : (e : Event) (st : LoginState) → st.attempts ≤ 5 → (handle e st).attempts ≤ 5
  unfolding handle submit settle tick change_otp
  handle-attempts (replied (done p)) st h = ground arith
  handle-attempts (replied (threw e)) st h = ground arith
  handle-attempts _ st h = ground arith

  -- The attempts that are left never exceed five, whatever happens to the form.
  run-attempts :
      (events : List Event) (st : LoginState)
      → st.attempts ≤ max_attempts
      → (run events st).attempts ≤ max_attempts
  unfolding run
  run-attempts [] st h = h
  run-attempts (e ∷ events) st h = run-attempts events (handle e st) (handle-attempts e st h)

-- `n` refusals in a row.
abbrev pub refusals : ℕ → AuthApiError → LoginState → LoginState
refusals zero e st = st
refusals (suc n) e st = refusals n e (refuse e st)

-- A wrong password: a 401 that does not ask for a second factor.
pub record IsWrongPassword (e : AuthApiError) : Type 0 where
  pub unauthorized : e.status ≡ some 401
  pub no_factor : text_same e.message (codes "mfa_required") ≡ false

refuse-wrong :
    (e : AuthApiError) (st : LoginState)
    → IsWrongPassword e
    → ((refuse e st).attempts ≡ st.attempts - 1)
      × ((refuse e st).lock_seconds ≡ (if st.attempts - 1 == 0 then lock_time else st.lock_seconds))
unfolding refuse
refuse-wrong e st w = (ground arith, ground arith)

-- Wrong passwords lock the form for fifteen minutes when they have used up the attempts that were
-- left, and not before: after `n` of them with `attempts` left and no lock.
pub refusals-lock :
    (n : ℕ) (e : AuthApiError) (st : LoginState)
    → IsWrongPassword e
    → st.lock_seconds ≡ 0
    → 0 < st.attempts
    → n ≤ st.attempts
    → ((refusals n e st).attempts ≡ st.attempts - n)
      × ((refusals n e st).lock_seconds ≡ (if n == st.attempts then lock_time else 0))
refusals-lock zero e st w free some_left h = (ground arith, ground arith)
refusals-lock (suc zero) e st w free some_left h = ground (arith, refuse-wrong e st w)
refusals-lock (suc (suc n)) e st w free some_left h =
    let (a, l) = refuse-wrong e st w in
    let (b, k) =
      refusals-lock (suc n) e (refuse e st) w (ground arith) (ground arith) (ground arith) in
    (ground arith, ground arith)

-- `n` seconds.
abbrev pub ticks : ℕ → LoginState → LoginState
ticks zero st = st
ticks (suc n) st = ticks n (tick st)

tick-lock : (st : LoginState) → (tick st).lock_seconds ≡ st.lock_seconds - 1
unfolding tick
tick-lock st = ground arith

-- A lock ends by itself, after exactly as many seconds as it has.
ticks-lock : (n : ℕ) (st : LoginState) → (ticks n st).lock_seconds ≡ st.lock_seconds - n
ticks-lock zero st = omega arith
ticks-lock (suc n) st = omega (arith, ticks-lock n (tick st), tick-lock st)

-- When a lock has ended no attempt is left, and the next failure of any kind locks the form again for
-- fifteen minutes: a server error or a lost connection as much as a wrong password. Only a request for
-- the second factor and a 429 that names a time are treated otherwise.
refuse-no_attempts :
    (e : AuthApiError) (st : LoginState)
    → st.attempts ≡ 0
    → text_same e.message (codes "mfa_required") ≡ false
    → (status_is e.status 429 && ltb 0 e.retry_after) ≡ false
    → ((refuse e st).lock_seconds ≡ lock_time) × ((refuse e st).attempts ≡ 0)
unfolding refuse
refuse-no_attempts e st none_left plain unlimited = (ground arith, ground arith)

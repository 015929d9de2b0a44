-- ===== src/Session/Invariant.antt =====
-- What holds of the session after any events.
use go_platform_starter.Prelude.{
  ℕ, true, false, Option, none, some, List, [], ◌∷◌, ◌≡◌, refl, arith, Text,
}
use go_platform_starter.Contracts.Claims.{TokenClaims}
use go_platform_starter.Session.{SessionUser, AuthSession, initial_session}
use go_platform_starter.Session.Provider.{
  login_message, logout_message, Tab, initial_tab, Event, message, boot, handle, run,
}

-- While the session is being restored nobody is signed in, and the session is not over.
pub record IsSound (s : AuthSession) : Type 0 where
  pub nobody : s.booting ≡ true → s.user ≡ none
  pub not_over : s.booting ≡ true → s.session_expired ≡ false

module _ (parse : Text → Option TokenClaims) where
  handle-IsSound :
      (now : ℕ) (e : Event) (tab : Tab)
      → IsSound tab.session
      → IsSound (handle parse now e tab).session
  unfolding handle
  handle-IsSound now (message (login_message t u)) tab h = ground arith
  handle-IsSound now (message logout_message) tab h = ground arith
  handle-IsSound now (boot cancelled token) tab h = record {
    nobody = ground arith;
    not_over = ground arith;
  }
  handle-IsSound now _ tab h = record { nobody = ground arith; not_over = ground arith }

  run-IsSound :
      (events : List (ℕ × Event)) (tab : Tab)
      → IsSound tab.session
      → IsSound (run parse events tab).session
  unfolding run
  run-IsSound [] tab h = h
  run-IsSound ((now, e) ∷ events) tab h =
      run-IsSound events (handle parse now e tab) (handle-IsSound now e tab h)

  -- A tab that has been opened is, after any events, sound: while its session is being restored
  -- nobody is signed in in it, and the session is not reported as over.
  pub run-initial_tab-IsSound :
      (user : Option SessionUser) (events : List (ℕ × Event))
      → IsSound (run parse events (initial_tab user)).session
  unfolding initial_session
  run-initial_tab-IsSound none events =
      run-IsSound events (initial_tab none) (record { nobody = λ h. refl; not_over = λ h. refl })
  run-initial_tab-IsSound (some u) events =
      run-IsSound events (initial_tab (some u))
        (record { nobody = ground arith; not_over = ground arith })

  handle-booting :
      (now : ℕ) (e : Event) (tab : Tab)
      → tab.session.booting ≡ false
      → (handle parse now e tab).session.booting ≡ false
  unfolding handle
  handle-booting now (message (login_message t u)) tab h = ground arith
  handle-booting now (message logout_message) tab h = ground arith
  handle-booting now _ tab h = ground arith

  -- A session that has settled is never again in the state of being restored.
  run-booting :
      (events : List (ℕ × Event)) (tab : Tab)
      → tab.session.booting ≡ false
      → (run parse events tab).session.booting ≡ false
  unfolding run
  run-booting [] tab h = h
  run-booting ((now, e) ∷ events) tab h =
      run-booting events (handle parse now e tab) (handle-booting now e tab h)

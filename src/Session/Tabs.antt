-- ===== src/Session/Tabs.antt =====
-- Tabs that hear of a login or a logout end like the tab that it happened in.
use go_platform_starter.Prelude.{
  ℕ, suc, true, false, Option, none, [], ◌∷◌, ◌++◌, ◌≡◌, refl, arith, Text,
}
use go_platform_starter.Contracts.Claims.{TokenClaims}
use go_platform_starter.Session.{SessionUser}
use go_platform_starter.Session.Provider.{
  Message, login_message, logout_message, Tab, message, log_in, log_out, handle,
}

-- The same user and access token, and neither session over or being restored.
pub record Agree (a b : Tab) : Type 0 where
  pub user : a.session.user ≡ b.session.user
  pub token : a.token ≡ b.token
  pub settled : (a.session.booting ≡ false) × (b.session.booting ≡ false)
  pub not_over : (a.session.session_expired ≡ false) × (b.session.session_expired ≡ false)

module _ (parse : Text → Option TokenClaims) (now later : ℕ) (tab other : Tab) where
  -- A login that is broadcast posts one message, and the tab that gets it agrees with the sender,
  -- whatever either tab was doing before.
  log_in-Agree :
      (t : Text) (u : SessionUser)
      → let sender = handle parse now (log_in true t u) tab in
        (m : Message) × (sender.posted ≡ tab.posted ++ m ∷ [])
        × Agree sender (handle parse later (message m) other)
  unfolding handle
  log_in-Agree t u = (login_message t u, refl, ground arith)

  -- A logout posts one message. The sender and the tab that gets it agree, both with no user and no
  -- token, and each has cleared its query cache.
  log_out-Agree :
      let sender = handle parse now log_out tab in
      (m : Message) × (sender.posted ≡ tab.posted ++ m ∷ [])
      × Agree sender (handle parse later (message m) other)
      × (sender.session.user ≡ none)
      × (sender.token ≡ none)
      × (sender.cache_clears ≡ suc tab.cache_clears)
      × ((handle parse later (message m) other).cache_clears ≡ suc other.cache_clears)
  unfolding handle
  log_out-Agree = (logout_message, refl, ground arith, refl, refl, refl, refl)

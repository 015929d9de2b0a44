-- ===== src/Session/Boot.antt =====
-- When the restoring of a session at boot ends.
use go_platform_starter.Prelude.{
  ℕ, true, false, Option, none, some, [], ◌∷◌, ◌≡◌, ◌↔◌, ◌⊎◌, arith, get_or_else, Text,
}
use go_platform_starter.Contracts.Claims.{TokenClaims, decode_claims}
use go_platform_starter.Contracts.Client.{truthy}
use go_platform_starter.Session.{initial_session}
use go_platform_starter.Session.Provider.{
  Tab, initial_tab, token_set, boot, handle, run, claimed_user,
}

module _ (parse : Text → Option TokenClaims) (now : ℕ) (tab : Tab) (token : Option Text) where
  -- When the boot refresh of a mounted provider settles, the session stops being restored exactly if
  -- the refresh gave a token or the page has none.
  boot_settles_iff :
      tab.session.booting ≡ true
      → ((handle parse now (boot false token) tab).session.booting ≡ false)
        ↔ ((truthy token ≡ true) ⊎ (truthy tab.token ≡ false))
  unfolding handle
  boot_settles_iff h = ((λ e. ground arith), (λ e. ground (arith, e)))

  -- If the boot refresh gave a token whose claims have a subject, and the page still has an access
  -- token, then the user of those claims is signed in.
  boot_signs_in :
      (claims : TokenClaims) (sub : Text)
      → truthy token ≡ true
      → truthy tab.token ≡ true
      → decode_claims parse (get_or_else token []) ≡ some claims
      → claims.sub ≡ some sub
      → truthy claims.sub ≡ true
      → (handle parse now (boot false token) tab).session.user ≡ some (claimed_user sub claims)
  unfolding handle
  boot_signs_in claims sub h k d s t = ground arith

-- A boot refresh that fails while another tab's refresh has just set the access token leaves the
-- session in the state of being restored, with nobody signed in and the token still there.
boot_stuck :
    (parse : Text → Option TokenClaims) (now later : ℕ) (t : Text)
    → truthy (some t) ≡ true
    → let tab = run parse ((now, token_set t) ∷ (later, boot false none) ∷ []) (initial_tab none) in
      (tab.session.booting ≡ true) × (tab.session.user ≡ none) × (tab.token ≡ some t)
unfolding run initial_session
boot_stuck parse now later t h = (ground arith, ground arith, ground arith)

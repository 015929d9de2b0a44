-- ===== src/Contracts/Refresh/Sharing.antt =====
-- A token that one bundle got is shared with the others; without the Web Locks two requests can meet.
use go_platform_starter.Prelude.{
  ℕ, ◌+◌, ◌<◌, Bool, false, none, some, [], ◌∷◌, ◌++◌, ◌≡◌, ◌≢◌, refl, arith, Text, is_empty,
}
use go_platform_starter.Contracts.Refresh.{
  requesting, answered, coordinated, silent_refresh, Reply, accepted,
}
use go_platform_starter.Contracts.Refresh.System.{
  System, call_at, settle_at, deliver_at, call, Reach, here, next, start,
}

accepted-ne-nil : (r : Reply) (t : Text) → accepted r ≡ some t → is_empty t ≡ false
unfolding accepted
accepted-ne-nil Reply.failed t h = ground arith
accepted-ne-nil (Reply.reply ok none) t h = ground arith
accepted-ne-nil (Reply.reply ok (some u)) t h = ground arith

-- Bundle `b` gets the token `t` from its request, the message reaches another bundle `c`, and `c` runs
-- `coordinated` less than two seconds later: then `c` answers with `t` and sends no request, and the
-- page of `c` has `t` for its access token. So has the page of `b` when its reply has come.
pub recent_token_shared :
    (locks : Bool) (page : ℕ → ℕ) (s : System) (b c : ℕ) (r : Reply) (t : Text) (d : ℕ)
    → b ≢ c
    → accepted r ≡ some t
    → d < 2000
    → let s1 = settle_at locks page b r s in
      let s2 = deliver_at locks page c t (s.mail c) s1 in
      ((coordinated (s2.now + d) (s2.bundle c)).1 ≡ answered t)
      × (s2.token (page c) ≡ some t)
      × (s1.token (page b) ≡ some t)
      × (s1.mail c ≡ s.mail c ++ t ∷ [])
unfolding settle_at deliver_at coordinated
recent_token_shared locks page s b c r t d ne got soon =
    let full = accepted-ne-nil r t got in (ground arith, ground arith, ground arith, ground arith)

-- Without the Web Locks any two different bundles can have refresh requests under way at once.
two_requests_without_locks :
    (page : ℕ → ℕ) (now b c : ℕ)
    → b ≢ c
    → (s : System) × Reach false page (start now) s
      × ((s.bundle b).phase ≡ requesting)
      × ((s.bundle c).phase ≡ requesting)
unfolding call_at silent_refresh
two_requests_without_locks page now b c ne =
    let s1 = call_at false page b (start now) in
    (
      call_at false page c s1,
      next (next (here refl) (call b refl)) (call c refl),
      ground arith,
      ground arith,
    )

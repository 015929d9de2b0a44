-- ===== src/Contracts/Refresh/Waiting.antt =====
-- No bundle waits for the lock in vain.
use go_platform_starter.Prelude.{
  ℕ, suc, ◌*◌, ◌≤◌, length, true, some, List, [], ◌∷◌, ◌≡◌, ◌≢◌, ◌∙◌, ◌==◌, ==_iff, Bool-cases,
  none, false, inl, inr, refl, arith, Text, includes, ℕ_key, includes-append, Option-cases,
}
use go_platform_starter.Contracts.Refresh.{waiting, requesting, Reply}
use go_platform_starter.Contracts.Refresh.System.{
  System, call_at, grant_at, settle_at, deliver_at, Step, call, grant, settled, delivered, passed,
  Reach, here, next, start,
}

-- Who waits stands in the queue, and who holds the lock has a request under way.
pub record IsQueued (s : System) : Type 0 where
  pub waits : (b : ℕ) → (s.bundle b).phase ≡ waiting → includes b s.queue ≡ true
  pub busy : (b : ℕ) → s.holder ≡ some b → (s.bundle b).phase ≡ requesting

module _ (page : ℕ → ℕ) where
  call-IsQueued : (s : System) (b : ℕ) → IsQueued s → IsQueued (call_at true page b s)
  unfolding call_at
  call-IsQueued s b h = record {
    waits = λ c k. ground (arith, includes-append c s.queue (b ∷ []), h.waits c);
    busy = λ c k. ground (arith, h.busy c k);
  }

  grant-IsQueued :
      (s : System) (b : ℕ) (rest : List ℕ)
      → s.queue ≡ b ∷ rest
      → IsQueued s
      → IsQueued (grant_at true page b rest s)
  unfolding grant_at
  grant-IsQueued s b rest q h = record {
    waits = λ c k. ground (arith, h.waits c);
    busy = λ c k. ground (arith, h.busy c);
  }

  settle-IsQueued :
      (s : System) (b : ℕ) (r : Reply) → IsQueued s → IsQueued (settle_at true page b r s)
  unfolding settle_at
  settle-IsQueued s b r h = record {
    waits = λ c k. ground (arith, h.waits c);
    busy = λ c k. ground arith;
  }

  deliver-IsQueued :
      (s : System) (b : ℕ) (t : Text) (rest : List Text)
      → IsQueued s
      → IsQueued (deliver_at true page b t rest s)
  unfolding deliver_at
  deliver-IsQueued s b t rest h = record {
    waits = λ c k. ground (arith, h.waits c);
    busy = λ c k. ground (arith, h.busy c);
  }

  Step-IsQueued : {s s' : System} → Step true page s s' → IsQueued s → IsQueued s'
  Step-IsQueued {s} (call b e) h = rw e (call-IsQueued s b h)
  Step-IsQueued {s} (grant b rest free q e) h = rw e (grant-IsQueued s b rest q h)
  Step-IsQueued {s} (settled b r busy e) h = rw e (settle-IsQueued s b r h)
  Step-IsQueued {s} (delivered b t rest m e) h = rw e (deliver-IsQueued s b t rest h)
  Step-IsQueued (passed d e) h = rw e (record { waits = h.waits; busy = h.busy })

  Reach-IsQueued : {s s' : System} → IsQueued s → Reach true page s s' → IsQueued s'
  Reach-IsQueued h (here e) = rw e h
  Reach-IsQueued h (next r st) = Step-IsQueued st (Reach-IsQueued h r)

  start-IsQueued : (now : ℕ) → IsQueued (start now)
  start-IsQueued now = record { waits = λ b k. absurd (ground arith); busy = λ b k. ground arith }

  -- A number of steps in which nothing happens but that a request under way comes back, answered as the reply of
  -- its bundle's number says, or that the free lock goes to the head of the queue.
  pub data Goes (replies : ℕ → Reply) : System → ℕ → System → Type 0 where
    still : {s : System} → Goes replies s 0 s
    replied :
        {s t : System} {n : ℕ} (c : ℕ)
        → (s.bundle c).phase ≡ requesting
        → Goes replies (settle_at true page c (replies c) s) n t
        → Goes replies s (suc n) t
    locked :
        {s t : System} {n : ℕ} (c : ℕ) (rest : List ℕ)
        → s.holder ≡ none
        → s.queue ≡ c ∷ rest
        → Goes replies (grant_at true page c rest s) n t
        → Goes replies s (suc n) t

  settle_at-waiting :
      (s : System) (b c : ℕ) (r : Reply)
      → (s.bundle c).phase ≡ requesting
      → (s.bundle b).phase ≡ waiting
      → ((settle_at true page c r s).bundle b).phase ≡ waiting
  unfolding settle_at
  settle_at-waiting s b c r busy w = ground arith

  settle_at-free :
      (s : System) (c : ℕ) (r : Reply)
      → ((settle_at true page c r s).holder ≡ none) × ((settle_at true page c r s).queue ≡ s.queue)
  unfolding settle_at
  settle_at-free s c r = (ground arith, ground arith)

  -- The lock goes to the head of the queue: to the bundle, which then waits no more, or to another one.
  grant_at_self :
      (s : System) (b : ℕ) (rest : List ℕ)
      → ((grant_at true page b rest s).bundle b).phase ≢ waiting
  unfolding grant_at
  grant_at_self s b rest k = ground arith

  grant_at-other :
      (s : System) (b c : ℕ) (rest : List ℕ)
      → (c == b) ≡ false
      → (s.bundle b).phase ≡ waiting
      → ((grant_at true page c rest s).bundle b).phase ≡ waiting
  unfolding grant_at
  grant_at-other s b c rest e w = ground arith

  grant_at-queue : (s : System) (c : ℕ) (rest : List ℕ) → (grant_at true page c rest s).queue ≡ rest
  unfolding grant_at
  grant_at-queue s c rest = ground arith

  -- Within twice as many steps as the queue has bundles, one of those in it waits no more.
  Served : (ℕ → Reply) → ℕ → System → ℕ → Type 0
  Served replies waiters s b =
      (n : ℕ) × (t : System) × Goes replies s n t
      × ((t.bundle b).phase ≢ waiting)
      × (n ≤ 2 * waiters)

  serve_free :
      (replies : ℕ → Reply) (s : System) (b c : ℕ) (rest : List ℕ)
      → s.holder ≡ none
      → s.queue ≡ c ∷ rest
      → (((c == b) ≡ false) → Served replies (length rest) (grant_at true page c rest s) b)
      → (n : ℕ) × (t : System) × Goes replies s n t
        × ((t.bundle b).phase ≢ waiting)
        × (n ≤ suc (2 * length rest))
  unfolding Served
  serve_free replies s b c rest free head later = elim (Bool-cases (c == b)) [
    | inl found ↦
        let same = (==_iff c b).0 found in
        (
          1,
          grant_at true page c rest s,
          locked c rest free head still,
          rw same (grant_at_self s b rest),
          omega arith,
        )
    | inr other ↦
        let (n, t, go, over, bound) = later other in
        (suc n, t, locked c rest free head go, over, omega (arith, bound))
  ]

  serve :
      (replies : ℕ → Reply) (q : List ℕ) (s : System) (b : ℕ)
      → s.queue ≡ q
      → IsQueued s
      → (s.bundle b).phase ≡ waiting
      → Served replies (length q) s b
  unfolding Served
  serve replies [] s b e h w = absurd (ground (arith, h.waits b w, e))
  serve replies (c ∷ rest) s b e h w = elim (Option-cases s.holder) [
    | inl free ↦
        let (n, t, go, over, bound) = serve_free replies s b c rest free e (λ other.
          serve replies rest (grant_at true page c rest s) b (grant_at-queue s c rest)
            (grant-IsQueued s c rest e h) (grant_at-other s b c rest other w)) in
        (n, t, go, over, omega (arith, bound))
    | inr (d, held) ↦
        let s' = settle_at true page d (replies d) s in
        let back = settle_at-free s d (replies d) in
        let head : s'.queue ≡ c ∷ rest = back.1 ∙ e in
        let h' = settle-IsQueued s d (replies d) h in
        let w' = settle_at-waiting s b d (replies d) (h.busy d held) w in
        let (n, t, go, over, bound) = serve_free replies s' b c rest back.0 head (λ other.
          serve replies rest (grant_at true page c rest s') b (grant_at-queue s' c rest)
            (grant-IsQueued s' c rest head h') (grant_at-other s' b c rest other w')) in
        (suc n, t, replied d (h.busy d held) go, over, omega (arith, bound))
  ]

  -- From every reachable state with a waiting bundle, and whatever the answers to the requests: the bundle gets its
  -- turn in at most two steps for each bundle in the queue, one in which the request under way comes back and one
  -- in which the lock goes to the next.
  pub waiting_goes_on :
      (now : ℕ) {s : System} (b : ℕ) (replies : ℕ → Reply)
      → Reach true page (start now) s
      → (s.bundle b).phase ≡ waiting
      → (n : ℕ) × (t : System) × Goes replies s n t
        × ((t.bundle b).phase ≢ waiting)
        × (n ≤ 2 * length s.queue)
  unfolding Served
  waiting_goes_on now {s} b replies r w =
      serve replies s.queue s b refl (Reach-IsQueued (start-IsQueued now) r) w

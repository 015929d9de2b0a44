-- ===== src/Contracts/Refresh/Exclusion.antt =====
-- With the Web Locks one refresh request is under way at a time, over all bundles of all tabs.
use go_platform_starter.Prelude.{ℕ, true, none, some, List, ◌≡◌, arith, Text, some}
use go_platform_starter.Contracts.Refresh.{requesting, Reply}
use go_platform_starter.Contracts.Refresh.System.{
  System, call_at, grant_at, settle_at, deliver_at, Step, call, grant, settled, delivered, passed,
  Reach, here, next, start,
}

-- A bundle with a request under way holds the lock.
pub record IsLocked (s : System) : Type 0 where
  pub holds : (b : ℕ) → (s.bundle b).phase ≡ requesting → s.holder ≡ some b

module _ (page : ℕ → ℕ) where
  call-holds :
      (s : System) (b c : ℕ)
      → ((s.bundle c).phase ≡ requesting → s.holder ≡ some c)
      → ((call_at true page b s).bundle c).phase ≡ requesting
      → (call_at true page b s).holder ≡ some c
  unfolding call_at
  call-holds s b c h k = ground arith

  grant-holds :
      (s : System) (b : ℕ) (rest : List ℕ) (c : ℕ)
      → ((s.bundle c).phase ≡ requesting → s.holder ≡ some c)
      → s.holder ≡ none
      → ((grant_at true page b rest s).bundle c).phase ≡ requesting
      → (grant_at true page b rest s).holder ≡ some c
  unfolding grant_at
  grant-holds s b rest c h free k = ground arith

  settle-holds :
      (s : System) (b : ℕ) (r : Reply) (c : ℕ)
      → ((s.bundle b).phase ≡ requesting → s.holder ≡ some b)
      → ((s.bundle c).phase ≡ requesting → s.holder ≡ some c)
      → (s.bundle b).phase ≡ requesting
      → ((settle_at true page b r s).bundle c).phase ≡ requesting
      → (settle_at true page b r s).holder ≡ some c
  unfolding settle_at
  settle-holds s b r c hb hc busy k = ground arith

  deliver-holds :
      (s : System) (b : ℕ) (t : Text) (rest : List Text) (c : ℕ)
      → ((s.bundle c).phase ≡ requesting → s.holder ≡ some c)
      → ((deliver_at true page b t rest s).bundle c).phase ≡ requesting
      → (deliver_at true page b t rest s).holder ≡ some c
  unfolding deliver_at
  deliver-holds s b t rest c h k = ground arith

  Step-IsLocked : {s s' : System} → Step true page s s' → IsLocked s → IsLocked s'
  Step-IsLocked {s} (call b e) h = rw e (record { holds = λ c. call-holds s b c (h.holds c) })
  Step-IsLocked {s} (grant b rest free head e) h =
      rw e (record { holds = λ c. grant-holds s b rest c (h.holds c) free })
  Step-IsLocked {s} (settled b r busy e) h =
      rw e (record { holds = λ c. settle-holds s b r c (h.holds b) (h.holds c) busy })
  Step-IsLocked {s} (delivered b t rest m e) h =
      rw e (record { holds = λ c. deliver-holds s b t rest c (h.holds c) })
  Step-IsLocked (passed d e) h = rw e (record { holds = h.holds })

  start-IsLocked : (now : ℕ) → IsLocked (start now)
  start-IsLocked now = record { holds = λ b k. absurd (ground arith) }

  Reach-IsLocked : {s s' : System} → IsLocked s → Reach true page s s' → IsLocked s'
  Reach-IsLocked h (here e) = rw e h
  Reach-IsLocked h (next r st) = Step-IsLocked st (Reach-IsLocked h r)

  -- With the Web Locks, from a start where every bundle is idle, no two bundles ever have a refresh
  -- request under way at once, whatever calls, grants, replies, messages and delays come.
  pub one_request :
      (now : ℕ) {s : System} (b c : ℕ)
      → Reach true page (start now) s
      → (s.bundle b).phase ≡ requesting
      → (s.bundle c).phase ≡ requesting
      → b ≡ c
  one_request now b c r hb hc =
      let h = Reach-IsLocked (start-IsLocked now) r in cc (h.holds b hb, h.holds c hc)

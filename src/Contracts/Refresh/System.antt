-- ===== src/Contracts/Refresh/System.antt =====
-- Any number of bundles in any number of pages, over the lock and the channel that they share.
use go_platform_starter.Prelude.{
  ℕ, ◌+◌, Bool, Option, none, some, List, [], ◌∷◌, ◌++◌, ◌≡◌, ◌==◌, if◌then◌else◌, Text, is_empty,
}
use go_platform_starter.Contracts.Refresh.{
  idle, requesting, Bundle, Started, queued, requested, coordinated, silent_refresh, Reply,
  accepted, settle, receive,
}

-- A map on numbers, with one value replaced.
abbrev pub put {ℓ} : {A : Type ℓ} → (ℕ → A) → ℕ → A → ℕ → A
put f i a j = if i == j then a else f j

pub record System : Type 0 where
  pub now : ℕ
  -- the bundle with each number
  pub bundle : ℕ → Bundle
  -- the access token of each page
  pub token : ℕ → Option Text
  -- who holds the lock, and who waits for it, in order
  pub holder : Option ℕ
  pub queue : List ℕ
  -- the messages that are on the way to each bundle
  pub mail : ℕ → List Text

abbrev enqueue : Started → ℕ → List ℕ → List ℕ
enqueue queued b q = q ++ b ∷ []
enqueue _ b q = q

-- The lock stays with a bundle that has sent its request.
abbrev hold : Started → ℕ → Option ℕ
hold requested b = some b
hold _ b = none

-- `locks` says whether the browsers have the Web Locks; `page` gives the page of each bundle.
module _ (locks : Bool) (page : ℕ → ℕ) where
  unfoldable pub call_at : ℕ → System → System
  unfolding silent_refresh
  call_at b s =
      let (b', started) = silent_refresh locks s.now (s.bundle b) in
      record s { bundle = put s.bundle b b'; queue = enqueue started b s.queue }

  -- The lock is granted to `b`, and the rest of the queue waits on.
  unfoldable pub grant_at : ℕ → List ℕ → System → System
  unfolding coordinated
  grant_at b rest s =
      let (b', started) = coordinated s.now (s.bundle b) in
      record s { bundle = put s.bundle b b'; holder = hold started b; queue = rest }

  -- `refreshChannel.postMessage`: to every bundle but the sender.
  abbrev post : ℕ → Text → (ℕ → List Text) → ℕ → List Text
  post b t mail c = if b == c then mail c else mail c ++ t ∷ []

  unfoldable pub settle_at : ℕ → Reply → System → System
  unfolding settle
  settle_at b r s =
      let s' = record s { bundle = put s.bundle b (settle s.now r (s.bundle b)); holder = none } in
      elim (accepted r) [
        | none ↦ s'
        | some t ↦ record s' { token = put s.token (page b) (some t); mail = post b t s.mail }
      ]

  unfoldable pub deliver_at : ℕ → Text → List Text → System → System
  unfolding receive
  deliver_at b t rest s = record s {
    bundle = put s.bundle b (receive s.now t (s.bundle b));
    token = if is_empty t then s.token else put s.token (page b) (some t);
    mail = put s.mail b rest;
  }

  -- What can happen next.
  pub data Step (s : System) : System → Type 0 where
    call : {s' : System} (b : ℕ) → s' ≡ call_at b s → Step s s'
    grant :
        {s' : System} (b : ℕ) (rest : List ℕ)
        → s.holder ≡ none
        → s.queue ≡ b ∷ rest
        → s' ≡ grant_at b rest s
        → Step s s'
    settled :
        {s' : System} (b : ℕ) (r : Reply)
        → (s.bundle b).phase ≡ requesting
        → s' ≡ settle_at b r s
        → Step s s'
    delivered :
        {s' : System} (b : ℕ) (t : Text) (rest : List Text)
        → s.mail b ≡ t ∷ rest
        → s' ≡ deliver_at b t rest s
        → Step s s'
    passed : {s' : System} (d : ℕ) → s' ≡ record s { now = s.now + d } → Step s s'

  pub data Reach (s : System) : System → Type 0 where
    here : {s' : System} → s' ≡ s → Reach s s'
    next : {t u : System} → Reach s t → Step t u → Reach s u

-- All bundles idle, with no token from another tab; the lock is free and nothing is on the way.
abbrev pub idle_bundle : Bundle
idle_bundle = record { phase = idle; cross_tab = none }

abbrev pub start : ℕ → System
start now = record {
  now = now;
  bundle = λ _. idle_bundle;
  token = λ _. none;
  holder = none;
  queue = [];
  mail = λ _. [];
}

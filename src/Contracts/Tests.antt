-- ===== src/Contracts/Tests.antt =====
-- Examples of the theorems on packages/contracts/src, at concrete states, requests and replies.
use go_platform_starter.Prelude.{
  ℕ, ◌+◌, true, false, Option, none, some, [], ◌∷◌, ◌++◌, ◌≡◌, ◌≢◌, ◌≤◌, ◌*◌, length, is_empty, ◌↔◌,
  refl, arith, Text, codes,
}
use go_platform_starter.Contracts.Refresh.{
  waiting, requesting, Reply, reply, accepted, answered, coordinated,
}
use go_platform_starter.Contracts.Refresh.System.{
  System, start, call, grant, Reach, here, next, call_at, grant_at, settle_at, deliver_at,
}
use go_platform_starter.Contracts.Refresh.Exclusion.{one_request}
use go_platform_starter.Contracts.Refresh.Waiting.{Goes, waiting_goes_on}
use go_platform_starter.Contracts.Refresh.Sharing.{recent_token_shared}
use go_platform_starter.Contracts.Client.{
  named, authorization, bearer, set_header, Request, Page, retried, on_response,
}
use go_platform_starter.Contracts.Client.Retry.{IsRejected, retried_iff}

-- Two bundles, of which bundle 0 and bundle 1 stand in pages 0 and 1, and so on.
abbrev own_page : ℕ → ℕ
own_page b = b

-- Bundle 0 has called for a token and then got the lock.
abbrev called : System
called = call_at true own_page 0 (start 1000)

abbrev granted : System
granted = grant_at true own_page 0 [] called

called-Reach : Reach true own_page (start 1000) called
called-Reach = next (here refl) (call 0 refl)

granted-Reach : Reach true own_page (start 1000) granted
unfolding call_at
granted-Reach = next called-Reach (grant 0 [] refl refl refl)

granted-requesting : (granted.bundle 0).phase ≡ requesting
unfolding grant_at call_at
granted-requesting = refl

called-waiting : (called.bundle 0).phase ≡ waiting
unfolding call_at
called-waiting = refl

one_request_example : ◌≡◌ {A = ℕ} 0 0
one_request_example =
    one_request own_page 1000 0 0 granted-Reach granted-requesting granted-requesting

waiting_goes_on_example :
    (n : ℕ) × (t : System) × Goes own_page (λ _. Reply.failed) called n t
    × ((t.bundle 0).phase ≢ waiting)
    × (n ≤ 2 * length called.queue)
waiting_goes_on_example =
    waiting_goes_on own_page 1000 0 (λ _. Reply.failed) called-Reach called-waiting

abbrev token_reply : Reply
token_reply = reply true (some (codes "new"))

token_reply-accepted : accepted token_reply ≡ some (codes "new")
unfolding accepted
token_reply-accepted = refl

abbrev replied : System
replied = settle_at true own_page 0 token_reply granted

abbrev told : System
told = deliver_at true own_page 1 (codes "new") (granted.mail 1) replied

recent_token_shared_example :
    ((coordinated (told.now + 500) (told.bundle 1)).1 ≡ answered (codes "new"))
    × (told.token 1 ≡ some (codes "new"))
    × (replied.token 0 ≡ some (codes "new"))
    × (replied.mail 1 ≡ granted.mail 1 ++ codes "new" ∷ [])
recent_token_shared_example =
    recent_token_shared true own_page granted 0 1 token_reply (codes "new") 500 (ground arith)
      token_reply-accepted (omega arith)

abbrev a_page : Page
a_page = record {
  token = some (codes "old");
  expired_calls = 0;
  expired_events = 0;
  last_request_id = codes "r1";
}

abbrev a_request : Request
a_request = record {
  pathname = codes "/api/v1/users";
  headers = set_header (named 1) (codes "text/html") (λ _. none);
}

abbrev unauthorized : ℕ
unauthorized = 401

abbrev fresh_token : Option Text
fresh_token = some (codes "new")

abbrev again : Request
again = record a_request {
  headers = set_header authorization (bearer (codes "new")) a_request.headers;
}

retried_iff_example :
    ((on_response true fresh_token a_page a_request unauthorized).1 ≡ retried again) ↔ (
      IsRejected unauthorized a_request.pathname
      × ((token : Text) × (fresh_token ≡ some token)
          × (is_empty token ≡ false)
          × (again ≡ record a_request {
            headers = set_header authorization (bearer token) a_request.headers;
          })))
retried_iff_example = retried_iff true fresh_token a_page a_request unauthorized again

-- ===== src/Session/Tests.antt =====
-- Examples of the theorems on apps/web/src, at concrete sessions, tokens and paths.
use go_platform_starter.Session.Gate.{LoginResult}
use go_platform_starter.Session.Link
use go_platform_starter.Session.Link.{
  magic, email, consumed, LinkEvent, effect_ran, answered, mounted,
}
use go_platform_starter.Session.Link.Once.{settled, run-effect_ran}
use go_platform_starter.Prelude.{
  inl, ℕ, Bool, true, false, Option, none, some, List, [], ◌∷◌, ◌≡◌, ◌↔◌, refl, Text, codes,
  text_same, split_from, if◌then◌else◌,
}
use go_platform_starter.Contracts.Claims.{TokenClaims, from_base64_url, decode_claims}
use go_platform_starter.Session.{SessionUser, AuthSession}
use go_platform_starter.Session.Provider.{Event, token_set, boot, session_expired, run, initial_tab}
use go_platform_starter.Session.Invariant.{IsSound, run-initial_tab-IsSound}
use go_platform_starter.Session.Guard.{shown, access_guard}
use go_platform_starter.Session.Access.{IsAllowed, access_guard-eq-shown_iff}
use go_platform_starter.Session.Gate.{users, gate}
use go_platform_starter.Session.Gate.Routing.{needs, meets, visible_page, gate-needs_permission}
use go_platform_starter.Session.Impersonation.{
  Browser, Grant, nothing_kept, impersonate, exit, has_subject,
}
use go_platform_starter.Session.Impersonation.Restoring.{of_claims, exit-impersonate}

abbrev admin : SessionUser
admin = record {
  id = codes "1";
  email = codes "root@example.com";
  perms = "user:read:any" ∷ "role:read:any" ∷ [];
  roles = none;
  ver = 3;
}

abbrev admin_claims : TokenClaims
admin_claims = record {
  sub = some (codes "1");
  email = some (codes "root@example.com");
  perms = some ("user:read:any" ∷ "role:read:any" ∷ []);
  ver = some 3;
}

-- A parser of payloads that knows one payload.
abbrev parse : Text → Option TokenClaims
parse _ = some admin_claims

abbrev token : Text
token = codes "h.p.s"

abbrev signed_in : AuthSession
signed_in = record {
  user = some admin;
  booting = false;
  session_expired = false;
  last_heartbeat_at = some 5;
}

abbrev events : List (ℕ × Event)
events = (1, token_set token) ∷ (2, boot false (some token)) ∷ (3, session_expired) ∷ []

run-initial_tab-IsSound_example : IsSound (run parse events (initial_tab none)).session
run-initial_tab-IsSound_example = run-initial_tab-IsSound parse none events

access_guard-eq-shown_iff_example :
    (access_guard ("user:read:any" ∷ []) [] (λ _. true) signed_in ≡ shown) ↔ (
      (signed_in.booting ≡ false)
      × ((u : SessionUser) × (signed_in.user ≡ some u)
          × IsAllowed ("user:read:any" ∷ []) [] (λ _. true) u))
access_guard-eq-shown_iff_example =
    access_guard-eq-shown_iff ("user:read:any" ∷ []) [] (λ _. true) signed_in refl

-- Paths that are matched as they stand.
abbrev at : Text → Text → Bool
at route path = text_same route path

users-visible : visible_page (gate at signed_in (codes "/admin/users")) ≡ some users
unfolding gate access_guard
users-visible = refl

gate-needs_permission_example :
    (u : SessionUser) × (signed_in.user ≡ some u) × (meets (needs users) u ≡ true)
gate-needs_permission_example =
    gate-needs_permission at signed_in (codes "/admin/users") users users-visible

-- A parser of claims that knows one payload, and texts that stand for the admin.
abbrev one_claim : Text → Option TokenClaims
one_claim payload =
    if text_same payload (codes "p")
    then some (record { sub = some (codes "7"); email = none; perms = none; ver = none })
    else none

abbrev print_admin : SessionUser → Text
print_admin user = codes "admin"

abbrev parse_admin : Text → Option SessionUser
parse_admin text = some admin

abbrev admin_tab : Browser
admin_tab = record {
  tab = record {
    session = record {
      user = some admin;
      booting = false;
      session_expired = false;
      last_heartbeat_at = none;
    };
    token = some (codes "old");
    cache_clears = 0;
    posted = [];
  };
  kept = nothing_kept;
  path = none;
}

abbrev granted : Grant
granted = record {
  access_token = codes "h.p.s";
  email = codes "ann@example.com";
  actor = codes "1";
}

subject : has_subject (decode_claims one_claim (codes "h.p.s")) ≡ true
unfolding decode_claims from_base64_url split_from
subject = refl

-- The refresh gives a token with the claims of user 7, without an address.
abbrev renewed_admin : SessionUser
renewed_admin = record admin { id = codes "7"; perms = []; ver = 0 }

read_claims :
    decode_claims one_claim (codes "h.p.s")
    ≡ some (record { sub = some (codes "7"); email = none; perms = none; ver = none })
unfolding decode_claims from_base64_url split_from
read_claims = refl

exit-impersonate_example :
    let left =
      exit one_claim print_admin parse_admin 9
        (some (codes "h.p.s"))
        (impersonate one_claim print_admin parse_admin 5 (codes "7") (some granted) admin_tab) in
    (left.tab.session.user ≡ some renewed_admin)
    × (left.tab.token ≡ some (codes "h.p.s"))
    × (left.kept ≡ nothing_kept)
    × (left.tab.posted ≡ [])
exit-impersonate_example =
    exit-impersonate one_claim print_admin parse_admin 5 9 (codes "7") (codes "old") admin granted
      (some (codes "h.p.s")) renewed_admin (codes "h.p.s") admin_tab refl refl refl refl refl
      subject
      (of_claims (codes "h.p.s") (codes "7")
        (record { sub = some (codes "7"); email = none; perms = none; ver = none }) renewed_admin
        refl read_claims refl refl refl refl refl refl refl)

abbrev login_result : LoginResult
login_result = record {
  access_token = token;
  id = inl 1;
  email = codes "root@example.com";
  perms = none;
  ver = some 3;
}

abbrev link_events : List LinkEvent
link_events = effect_ran magic (some token) ∷ answered (consumed login_result) ∷ []

run-effect_ran_example :
    Link.run (effect_ran magic (some token) ∷ link_events) (mounted none)
    ≡ settled magic token none (consumed login_result)
run-effect_ran_example = run-effect_ran magic (some token) none link_events

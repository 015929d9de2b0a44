-- ===== src/Session/Access.antt =====
-- When the guard shows a page.
use go_platform_starter.Prelude.{
  Bool, true, false, not, some, List, [], ◌∷◌, String, ◌≡◌, ◌↔◌, ◌⊎◌, inl, inr, refl, arith, any,
  all, find, includes, is, String_key, Option-cases,
}
use go_platform_starter.Session.{SessionUser, AuthSession}
use go_platform_starter.Session.Guard.{shown, truthy, has_role, access_guard}

-- Where none of the items is empty: nothing that fails the test is found exactly if every item passes it.
truthy-find :
    (test : String → Bool) (xs : List String)
    → includes "" xs ≡ false
    → truthy (find (λ x. not (test x)) xs) ≡ not (all test xs)
truthy-find test [] h = refl
truthy-find test (x ∷ xs) h =
    let other : is x "" ≡ false =
      ground (arith, h, String_key.same_iff x "", String_key.same_iff "" x) in
    ground (arith, truthy-find test xs, h, other)

-- What the page asks of a user.
pub record IsAllowed (permissions roles : List String) (when : SessionUser → Bool) (u : SessionUser)
    : Type 0 where
  pub has_all : all (λ p. includes p u.perms) permissions ≡ true
  pub has_some : (roles ≡ []) ⊎ (any (has_role u.roles) roles ≡ true)
  pub passes : when u ≡ true

module _ (permissions roles : List String) (when : SessionUser → Bool) (session : AuthSession) where
  -- A page that names no empty permission is shown exactly if the session has been restored and its user
  -- has every permission that the page asks for, one of its roles where it names any, and passes its test.
  pub access_guard-eq-shown_iff :
      includes "" permissions ≡ false
      → (access_guard permissions roles when session ≡ shown) ↔ (
          (session.booting ≡ false)
          × ((u : SessionUser) × (session.user ≡ some u) × IsAllowed permissions roles when u))
  unfolding access_guard
  access_guard-eq-shown_iff named = elim (Option-cases session.user) [
    | inl nobody ↦
        ((λ h. ground arith), (λ h. let (b, m) = h in let (u, e, w) = m in absurd (ground arith)))
    | inr (u, e) ↦
        let found = truthy-find (λ p. includes p u.perms) permissions named in
        (
          (λ h. (
            ground arith,
            (
              u,
              e,
              record { has_all = ground arith; has_some = ground arith; passes = ground arith },
            ),
          )),
          (λ h.
              let (b, m) = h in
              let (v, same, w) = m in ground (arith, w.has_all, w.has_some, w.passes)),
        )
  ]

-- An empty permission that the user has not hides those behind it: a page with one at the head is shown whatever
-- else it asks for.
access_guard-empty :
    (permissions : List String) (session : AuthSession) (u : SessionUser)
    → session.booting ≡ false
    → session.user ≡ some u
    → includes "" u.perms ≡ false
    → access_guard ("" ∷ permissions) [] (λ _. true) session ≡ shown
unfolding access_guard
access_guard-empty permissions session u booted signed lacking = rw (booted, signed, lacking) refl

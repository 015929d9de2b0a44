-- ===== src/Auth/Validation/Address.antt =====
-- What the pages accept as an address.
use go_platform_starter.Prelude.{
  ℕ, true, [], ◌∷◌, ◌++◌, ◌≡◌, ◌↔◌, refl, ap, ◌∙◌, ◌==◌, ==_iff, Text, trim,
}
use go_platform_starter.Prelude.Regex.{
  unit, seq, plus, test, test_iff, Matches, one, both, IsWord, plus_iff,
}
use go_platform_starter.Auth.Validation.{is_plain, email_pattern, normalize_email, valid_email}

-- A text that is one character of a class.
one_is : {k : ℕ} {s : Text} → Matches (unit (λ c. c == k)) s → s ≡ k ∷ []
one_is {k} (one c p e) = rw (← (==_iff c k).0 p) e

-- An address: a name, `@`, and a domain with a dot that is neither its first nor its last character;
-- there is no space in it, and no other `@`.
pub record IsAddress (s : Text) : Type 0 where
  pub name : Text
  pub domain : Text
  pub top : Text
  pub parts : s ≡ name ++ (b'@' ∷ (domain ++ (b'.' ∷ top)))
  pub name_word : IsWord is_plain name
  pub domain_word : IsWord is_plain domain
  pub top_word : IsWord is_plain top

tail_parts :
    {s : Text}
    → Matches (seq (plus (unit is_plain)) (seq (unit (λ c. c == b'.')) (plus (unit is_plain)))) s
    → (domain : Text) × (top : Text) × (s ≡ domain ++ (b'.' ∷ top))
      × IsWord is_plain domain
      × IsWord is_plain top
tail_parts (both u v m (both x y n k e) f) =
    (u, y, rw (f, e, one_is n) refl, (plus_iff is_plain u).0 m, (plus_iff is_plain y).0 k)

Matches-IsAddress : {s : Text} → Matches email_pattern s → IsAddress s
Matches-IsAddress (both u v m (both x y n k e) f) =
    let (domain, top, split, dw, tw) = tail_parts k in
    record {
      name = u;
      domain = domain;
      top = top;
      parts = rw (f, e, one_is n, split) refl;
      name_word = (plus_iff is_plain u).0 m;
      domain_word = dw;
      top_word = tw;
    }

IsAddress-Matches : {s : Text} → IsAddress s → Matches email_pattern s
IsAddress-Matches a =
    both a.name (b'@' ∷ (a.domain ++ (b'.' ∷ a.top))) ((plus_iff is_plain a.name).1 a.name_word)
      (both (b'@' ∷ []) (a.domain ++ (b'.' ∷ a.top)) (one b'@' refl refl)
        (both a.domain (b'.' ∷ a.top) ((plus_iff is_plain a.domain).1 a.domain_word)
          (both (b'.' ∷ []) a.top (one b'.' refl refl) ((plus_iff is_plain a.top).1 a.top_word)
            refl)
          refl)
        refl)
      a.parts

module _ (lower : Text → Text) where
  -- The pages accept exactly the values that are addresses once they are trimmed and in lower case.
  valid_email_iff :
      (value : Text) → (valid_email lower value ≡ true) ↔ IsAddress (normalize_email lower value)
  unfolding valid_email
  valid_email_iff value = (
    (λ h. Matches-IsAddress ((test_iff email_pattern _).0 h)),
    (λ a. (test_iff email_pattern _).1 (IsAddress-Matches a)),
  )

  -- Where `toLowerCase` changes no text that is in lower case, and leaves a trimmed text trimmed, what
  -- a page sends is normalized once and for all: normalizing again changes nothing, and the value is
  -- accepted before exactly if it is accepted after.
  normalize_email_idem :
      ((s : Text) → lower (lower s) ≡ lower s)
      → ((s : Text) → trim (lower (trim s)) ≡ lower (trim s))
      → (value : Text)
      → (normalize_email lower (normalize_email lower value) ≡ normalize_email lower value)
        × (valid_email lower (normalize_email lower value) ≡ valid_email lower value)
  unfolding valid_email normalize_email
  normalize_email_idem lower_idem trimmed value =
      let same : lower (trim (lower (trim value))) ≡ lower (trim value) =
        ap lower (trimmed value) ∙ lower_idem (trim value) in
      (same, ap (test email_pattern) same)

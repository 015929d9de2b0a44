-- ===== src/Specs/Contract/Accepting.antt =====
-- What a description must be for the contract check to accept it.
use go_platform_starter.Prelude.{
  Bool, true, false, not, ◌&&◌, Option, none, some, List, [], ◌∷◌, ◌++◌, ◌≡◌, ◌≤◌, ◌↔◌, refl, sym,
  ◌∙◌, arith, inl, inr, map, all, ltb, Text, Text_key, codes, text_same, text_same_iff, has_text,
  includes, distinct, All, Bool-cases,
}
use go_platform_starter.Specs.Operation.{Response}
use go_platform_starter.Specs.Operation.Lint.{Failure, operation_failures}
use go_platform_starter.Specs.Contract.{
  Call, Description, Repository, Drift, missing_schema, missing_scheme, unknown_call, not_generated,
  no_webhooks, few_servers, no_link, versions_differ, unsafe_cast, codes_differ, is_called, unless,
  failures_of, is_generated, Entry, entries, broken_all, given_id, duplicates, with_id,
  entry_failures, same_codes, same_version, required_schemas, required_schemes, final_failures,
  failures,
}

append-eq-nil : {A : Type 0} (xs ys : List A) → (xs ++ ys ≡ []) ↔ ((xs ≡ []) × (ys ≡ []))
append-eq-nil [] ys = ground arith
append-eq-nil (x ∷ xs) ys = ground arith

unless-nil : (b : Bool) (d : Drift) → (unless b d ≡ []) ↔ (b ≡ true)
unless-nil b d = ground arith

failures_of-nil :
    {A : Type 0} (test : A → Bool) (drift : A → Drift) (xs : List A)
    → (failures_of test drift xs ≡ []) ↔ (all test xs ≡ true)
failures_of-nil test drift [] = ground arith
failures_of-nil test drift (x ∷ xs) = ground (
  arith,
  failures_of-nil test drift xs,
  append-eq-nil (unless (test x) (drift x)) (failures_of test drift xs),
)

broken_all-nil :
    (path method : Text) (fs : List Failure) → (broken_all path method fs ≡ []) ↔ (fs ≡ [])
broken_all-nil path method [] = ground arith
broken_all-nil path method (f ∷ fs) = ground arith

-- The ids that the operations have, in order.
abbrev pub ids : List Entry → List Text
ids [] = []
ids ((path, method, op) ∷ rest) = elim (given_id op.operation_id) [
  | none ↦ ids rest
  | some id ↦ id ∷ ids rest
]

-- None of the ids is one of those seen, nor stands twice.
abbrev fresh : List Text → List Text → Bool
fresh seen [] = true
fresh seen (id ∷ others) = not (includes id seen) && fresh (id ∷ seen) others

all-apart :
    (id : Text) (seen xs : List Text)
    → all (λ x. not (includes x (id ∷ seen))) xs
      ≡ (not (includes id xs) && all (λ x. not (includes x seen)) xs)
all-apart id seen [] = refl
all-apart id seen (x ∷ xs) =
    ground (arith, all-apart id seen xs, text_same_iff x id, text_same_iff id x)

fresh-eq :
    (seen xs : List Text) → fresh seen xs ≡ (distinct xs && all (λ x. not (includes x seen)) xs)
fresh-eq seen [] = refl
fresh-eq seen (x ∷ xs) = ground (arith, fresh-eq (x ∷ seen) xs, all-apart x seen xs)

all-true : (xs : List Text) → all (λ x. not (includes x [])) xs ≡ true
all-true [] = refl
all-true (x ∷ xs) = all-true xs

fresh-distinct : (xs : List Text) → fresh [] xs ≡ distinct xs
fresh-distinct xs = ground (arith, fresh-eq [] xs, all-true xs)

-- One id more: it is not one of those seen, and the others are not it nor one of those.
fresh-next :
    (path method : Text) (o : Option Text) (seen xs : List Text)
    → (fresh seen (elim o [ none ↦ xs | some id ↦ id ∷ xs ]) ≡ true)
      ↔ ((duplicates path method o seen ≡ []) × (fresh (with_id o seen) xs ≡ true))
fresh-next path method none seen xs = ((λ h. (refl, h)), (λ h. h.1))
fresh-next path method (some id) seen xs = elim (Bool-cases (includes id seen)) [
  | inl e ↦ rw e ((λ h. absurd (ground (arith, h))), (λ h. absurd (ground (arith, h.0))))
  | inr e ↦ rw e ((λ h. (refl, h)), (λ h. h.1))
]

-- Three lists in a row are empty where each is.
three-eq-nil :
    (xs ys zs : List Drift) → (xs ++ (ys ++ zs) ≡ []) ↔ ((xs ≡ []) × (ys ≡ []) × (zs ≡ []))
three-eq-nil xs ys zs = ground (arith, append-eq-nil xs (ys ++ zs), append-eq-nil ys zs)

module _ (has_meta : Option Response → Bool) where
  -- An operation that meets every demand on a single one.
  abbrev pub IsClean : Entry → Type 0
  IsClean (path, method, op) = operation_failures has_meta path method op ≡ []

  entry_failures-nil :
      (seen : List Text) (es : List Entry)
      → (entry_failures has_meta seen es ≡ []) ↔ (All IsClean es × (fresh seen (ids es) ≡ true))
  unfolding entry_failures
  entry_failures-nil seen [] = ((λ h. (tt, refl)), (λ h. refl))
  entry_failures-nil seen ((path, method, op) ∷ es) =
      let id = given_id op.operation_id in
      let rest = entry_failures-nil (with_id id seen) es in
      let parts =
        three-eq-nil (duplicates path method id seen)
          (broken_all path method (operation_failures has_meta path method op))
          (entry_failures has_meta (with_id id seen) es) in
      let clean = broken_all-nil path method (operation_failures has_meta path method op) in
      let next = fresh-next path method id seen (ids es) in
      (
        (λ h.
            let (a, b, c) = parts.0 h in let (d, f) = rest.0 c in ((clean.0 b, d), next.1 (a, f))),
        (λ h. let (a, f) = next.0 h.1 in parts.1 (a, clean.1 h.0.0, rest.1 (h.0.1, f))),
      )

-- What the check asks for, all of it: every call of the pages is of an operation that there is, and every path
-- is in the generated types; every operation meets the demands on one; no two have the same id; and so on.
pub record IsSound (has_meta : Option Response → Bool) (spec : Description) (repo : Repository)
    (calls : List Call) : Type 0 where
  pub called : all (is_called spec.paths) calls ≡ true
  pub generated : all (is_generated repo.generated) (map (λ p. p.0) spec.paths) ≡ true
  pub clean : All (IsClean has_meta) (entries spec.paths)
  pub distinct_ids : distinct (ids (entries spec.paths)) ≡ true
  pub schemas : all (λ name. includes name spec.schemas) required_schemas ≡ true
  pub schemes : all (λ name. includes name spec.schemes) required_schemes ≡ true
  pub webhooks : (spec.openapi ≡ codes "3.1.0") × (1 ≤ spec.webhooks)
  pub servers : 3 ≤ spec.servers
  pub links : spec.links ≡ true
  pub versions : same_version spec.version repo.package_version ≡ true
  pub safe_cast : has_text (codes "as unknown as ApiClient") repo.client ≡ false
  pub codes_same : same_codes repo.go_codes spec.error_codes ≡ true

-- Two lists, each of which is empty under a condition.
either-nil :
    {P Q : Type 0} (xs ys : List Drift) → (xs ≡ []) ↔ P → (ys ≡ []) ↔ Q → (xs ++ ys ≡ []) ↔ (P × Q)
either-nil xs ys p q =
    let both = append-eq-nil xs ys in
    ((λ h. let (a, b) = both.0 h in (p.0 a, q.0 b)), (λ h. both.1 (p.1 h.0, q.1 h.1)))

abbrev FinalConditions : Description → Repository → Type 0
FinalConditions spec repo =
    (all (λ name. includes name spec.schemas) required_schemas ≡ true)
    × ((all (λ name. includes name spec.schemes) required_schemes ≡ true)
        × (((text_same spec.openapi (codes "3.1.0") && ltb 0 spec.webhooks) ≡ true)
            × ((not (ltb spec.servers 3) ≡ true)
                × ((spec.links ≡ true)
                    × ((same_version spec.version repo.package_version ≡ true)
                        × ((not (has_text (codes "as unknown as ApiClient") repo.client) ≡ true)
                            × ((same_codes repo.go_codes spec.error_codes ≡ true))))))))

final_failures-nil :
    (spec : Description) (repo : Repository)
    → (final_failures spec repo ≡ []) ↔ FinalConditions spec repo
unfolding has_text
final_failures-nil spec repo =
    either-nil _ _
      (failures_of-nil (λ name. includes name spec.schemas) missing_schema required_schemas)
      (either-nil _ _
        (failures_of-nil (λ name. includes name spec.schemes) missing_scheme required_schemes)
        (either-nil _ _ (unless-nil _ no_webhooks) (
          either-nil _ _ (unless-nil _ few_servers) (
            either-nil _ _ (unless-nil _ no_link) (
              either-nil _ _ (unless-nil _ versions_differ)
                (either-nil _ _ (unless-nil _ unsafe_cast) (unless-nil _ codes_differ)))))))

module _ (has_meta : Option Response → Bool) (spec : Description) (repo : Repository)
    (calls : List Call) where
  abbrev Conditions : Type 0
  Conditions =
      (all (is_called spec.paths) calls ≡ true)
      × ((all (is_generated repo.generated) (map (λ p. p.0) spec.paths) ≡ true)
          × ((All (IsClean has_meta) (entries spec.paths)
                × (fresh [] (ids (entries spec.paths)) ≡ true))
              × FinalConditions spec repo))

  first_webhooks :
      (text_same spec.openapi (codes "3.1.0") && ltb 0 spec.webhooks) ≡ true
      → (spec.openapi ≡ codes "3.1.0") × (1 ≤ spec.webhooks)
  first_webhooks h =
      let same = text_same_iff spec.openapi (codes "3.1.0") in
      (same.0 (ground (arith, h)), ground (arith, h))

  sound : Conditions → IsSound has_meta spec repo calls
  sound
        (
          called,
          (
            generated,
            (clean, (schemas, (schemes, (webhooks, (servers, (links, (versions, (cast, same)))))))),
          ),
        ) =
      record {
        called = called;
        generated = generated;
        clean = clean.0;
        distinct_ids = sym (fresh-distinct (ids (entries spec.paths))) ∙ clean.1;
        schemas = schemas;
        schemes = schemes;
        webhooks = first_webhooks webhooks;
        servers = ground (arith, servers);
        links = links;
        versions = versions;
        safe_cast = ground (arith, cast);
        codes_same = same;
      }

  conditions : IsSound has_meta spec repo calls → Conditions
  conditions h =
      let same = (text_same_iff spec.openapi (codes "3.1.0")).1 h.webhooks.0 in
      let ids_fresh = fresh-distinct (ids (entries spec.paths)) ∙ h.distinct_ids in
      let webhooks : (text_same spec.openapi (codes "3.1.0") && ltb 0 spec.webhooks) ≡ true =
        ground (arith, same, h.webhooks.1) in
      let servers : not (ltb spec.servers 3) ≡ true = ground (arith, h.servers) in
      let cast : not (has_text (codes "as unknown as ApiClient") repo.client) ≡ true =
        rw h.safe_cast refl in
      (
        h.called,
        (
          h.generated,
          (
            (h.clean, ids_fresh),
            (
              h.schemas,
              (h.schemes, (webhooks, (servers, (h.links, (h.versions, (cast, h.codes_same)))))),
            ),
          ),
        ),
      )

-- The check reports nothing exactly if the description, the package and the calls meet all that is asked of
-- them, listed in the record.
pub failures-nil_iff :
    (has_meta : Option Response → Bool) (spec : Description) (repo : Repository) (calls : List Call)
    → (failures has_meta spec repo calls ≡ []) ↔ IsSound has_meta spec repo calls
unfolding failures
failures-nil_iff has_meta spec repo calls =
    let parts = either-nil _ _ (failures_of-nil (is_called spec.paths) unknown_call calls) (
      either-nil _ _
        (failures_of-nil (is_generated repo.generated) not_generated (map (λ p. p.0) spec.paths))
        (either-nil _ _ (entry_failures-nil has_meta [] (entries spec.paths))
          (final_failures-nil spec repo))) in
    (
      (λ h. sound has_meta spec repo calls (parts.0 h)),
      (λ h. parts.1 (conditions has_meta spec repo calls h)),
    )

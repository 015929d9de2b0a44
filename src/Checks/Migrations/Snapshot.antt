-- ===== src/Checks/Migrations/Snapshot.antt =====
-- A snapshot is verified.
use go_platform_starter.Prelude.{
  ℕ, suc, false, none, some, List, [], ◌∷◌, ◌++◌, ◌≡◌, refl, sym, ◌∙◌, ap, arith, take, drop,
  length, All, Text, text_same_iff, is_empty,
}
use go_platform_starter.Specs.Objects.{lookup, put, lookup-put}
use go_platform_starter.Checks.Migrations.{File, line_of, snapshot, expected_from, verify}
use go_platform_starter.Checks.Migrations.Verifying.{IsDistinct, verify_iff}

take-append : (s t : Text) → take (length s) (s ++ t) ≡ s
take-append [] t = refl
take-append (c ∷ s) t = ap (λ r. c ∷ r) (take-append s t)

drop-append : (s : Text) (a b : ℕ) (t : Text) → drop (suc (suc (length s))) (s ++ a ∷ b ∷ t) ≡ t
drop-append [] a b t = refl
drop-append (c ∷ s) a b t = drop-append s a b t

-- The digest is as long as SHA-256 in hexadecimal digits.
abbrev pub IsDigest : File → Type 0
IsDigest f = ◌≡◌ {A = ℕ} (length f.1) 64

take_64 : (digest t : Text) → ◌≡◌ {A = ℕ} (length digest) 64 → take 64 (digest ++ t) ≡ digest
take_64 digest t h = ap (λ n. take n (digest ++ t)) (sym h) ∙ take-append digest t

drop_66 :
    (digest : Text) (a b : ℕ) (t : Text)
    → ◌≡◌ {A = ℕ} (length digest) 64
    → drop 66 (digest ++ a ∷ b ∷ t) ≡ t
drop_66 digest a b t h =
    let e : ◌≡◌ {A = ℕ} 66 (suc (suc (length digest))) = omega arith in
    ap (λ n. drop n (digest ++ a ∷ b ∷ t)) e ∙ drop-append digest a b t

solid : (path digest : Text) → IsDigest (path, digest) → is_empty (line_of (path, digest)) ≡ false
solid path [] h = absurd (ground arith)
solid path (c ∷ digest) h = refl

lookup-expected_from :
    (name : Text) (acc files : List File)
    → All IsDigest files
    → IsDistinct files
    → lookup name (expected_from acc (snapshot files))
      ≡ elim (lookup name files) [ none ↦ lookup name acc | some d ↦ some d ]
unfolding expected_from
lookup-expected_from name acc [] h d = refl
lookup-expected_from name acc ((path, digest) ∷ files) h d =
    rw
      (
        solid path digest h.0,
        drop_66 digest b' ' b' ' path h.0,
        take_64 digest (b' ' ∷ b' ' ∷ path) h.0,
      )
      (ground (
        arith,
        lookup-expected_from name (put path digest acc) files h.1 d.1,
        lookup-put path name digest acc,
        text_same_iff path name,
        d.0,
      ))

-- A snapshot of files, no two of which have the same path, is verified without an error.
verify-snapshot :
    (files : List File) → All IsDigest files → IsDistinct files → verify (snapshot files) files ≡ []
verify-snapshot files h d =
    (verify_iff (snapshot files) files d).1
      (λ path. ground (arith, lookup-expected_from path [] files h d))

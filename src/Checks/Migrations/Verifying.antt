-- ===== src/Checks/Migrations/Verifying.antt =====
-- When the checksums are in order.
use go_platform_starter.Prelude.{
  true, Option, none, some, List, [], ◌∷◌, ◌++◌, ◌≡◌, ◌↔◌, refl, arith, if◌then◌else◌, Text,
  text_same, text_same_iff,
}
use go_platform_starter.Specs.Objects.{lookup}
use go_platform_starter.Checks.Migrations.{
  File, expected_from, delete, Error, missing_errors, file_errors, errors_from, verify,
}

-- No two files have the same path.
abbrev pub IsDistinct : List File → Type 0
IsDistinct [] = Unit
IsDistinct ((path, digest) ∷ files) = (lookup path files ≡ none) × IsDistinct files

lookup-delete :
    (path other : Text) (files : List File)
    → lookup other (delete path files) ≡ (if text_same path other then none else lookup other files)
lookup-delete path other [] = ground arith
lookup-delete path other ((p, d) ∷ files) = ground (
  arith,
  lookup-delete path other files,
  text_same_iff path p,
  text_same_iff p other,
  text_same_iff path other,
)

text_same_refl : (t : Text) → text_same t t ≡ true
text_same_refl t = (text_same_iff t t).1 refl

missing_errors-nil :
    (files : List File) → ((path : Text) → lookup path files ≡ none) → missing_errors files ≡ []
missing_errors-nil [] h = refl
missing_errors-nil ((p, d) ∷ files) h = let e = h p in absurd (ground (arith, e, text_same_refl p))

-- The map holds just what the files are.
abbrev Agrees : List File → List File → Type 0
Agrees expected files = (path : Text) → lookup path expected ≡ lookup path files

errors_from-nil :
    (expected files : List File)
    → IsDistinct files
    → Agrees expected files
    → errors_from expected files ≡ []
errors_from-nil expected [] d h = missing_errors-nil expected h
errors_from-nil expected ((p, digest) ∷ files) d h =
    let here = h p in
    let rest = errors_from-nil (delete p expected) files d.1 (λ path. agrees path (h path)) in
    ground (arith, here, rest, text_same_refl p, text_same_refl digest)
  where
    agrees :
        (path : Text)
        → lookup path expected ≡ lookup path ((p, digest) ∷ files)
        → lookup path (delete p expected) ≡ lookup path files
    agrees path e = ground (arith, e, d.0, lookup-delete p path expected, text_same_iff p path)

in_order :
    (path digest : Text) (found : Option Text) (later : List Error)
    → file_errors path digest found ++ later ≡ []
    → (found ≡ some digest) × (later ≡ [])
in_order path digest none later h = absurd (ground arith)
in_order path digest (some expected) later h = ground (arith, text_same_iff expected digest)

errors_from-Agrees :
    (expected files : List File)
    → IsDistinct files
    → errors_from expected files ≡ []
    → Agrees expected files
errors_from-Agrees [] [] d h path = refl
errors_from-Agrees ((p, x) ∷ expected) [] d h path = absurd (ground arith)
errors_from-Agrees expected ((p, digest) ∷ files) d h path =
    let (same, later) =
      in_order p digest (lookup p expected) (errors_from (delete p expected) files) h in
    let rest = errors_from-Agrees (delete p expected) files d.1 later path in
    ground (arith, same, rest, lookup-delete p path expected, text_same_iff p path)

-- Where no two files have the same path, the check finds nothing wrong exactly when the map made of the
-- manifest's lines holds, path for path, the digests that the files have.
pub verify_iff :
    (lines : List Text) (files : List File)
    → IsDistinct files
    → (verify lines files ≡ [])
      ↔ ((path : Text) → lookup path (expected_from [] lines) ≡ lookup path files)
unfolding verify
verify_iff lines files d = (
  errors_from-Agrees (expected_from [] lines) files d,
  errors_from-nil (expected_from [] lines) files d,
)

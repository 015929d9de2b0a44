-- ===== src/Checks/Migrations.antt =====
-- scripts/check-migrations.mjs: `snapshot` and `verify`, the checksums of the migrations. A file is its path
-- and the digest of its content, which is 64 characters long; the manifest is a list of lines.
pub mod Verifying
pub mod Snapshot
use go_platform_starter.Prelude.{
  ℕ, Bool, true, false, not, Option, none, some, List, [], ◌∷◌, ◌++◌, map, filter, if◌then◌else◌,
  take, drop, Text, codes, text_same, is_empty,
}
use go_platform_starter.Specs.Objects.{lookup, put}

abbrev pub File : Type 0
File = Text × Text

-- A line that `snapshot` writes.
abbrev pub line_of : File → Text
line_of (path, digest) = digest ++ (codes "  " ++ path)

abbrev pub snapshot : List File → List Text
snapshot files = map line_of files

-- `[line.slice(66), line.slice(0, 64)]`
abbrev pub entry_of : Text → File
entry_of line = (drop 66 line, take 64 line)

-- `new Map(…)` of the lines that are not empty, after the entries of `acc`
unfoldable pub expected_from : List File → List Text → List File
unfolding put
expected_from acc [] = acc
expected_from acc (line ∷ lines) =
    let registered = put (entry_of line).0 (entry_of line).1 acc in
    if is_empty line then expected_from acc lines else expected_from registered lines

-- `expected.delete(path)`
abbrev pub delete : Text → List File → List File
delete path files = filter (λ f. not (text_same path f.0)) files

pub data Error : Type 0 where
  not_registered mismatch registered_missing : Text → Error

abbrev pub missing_errors : List File → List Error
missing_errors [] = []
missing_errors ((path, digest) ∷ files) = registered_missing path ∷ missing_errors files

-- The error of one file, if it has one.
abbrev pub file_errors : Text → Text → Option Text → List Error
file_errors path digest none = not_registered path ∷ []
file_errors path digest (some expected) =
    if text_same expected digest then [] else mismatch path ∷ []

-- The loop over the files, and over what is left of the map.
abbrev pub errors_from : List File → List File → List Error
errors_from expected [] = missing_errors expected
errors_from expected ((path, digest) ∷ files) =
    file_errors path digest (lookup path expected) ++ errors_from (delete path expected) files

-- `verify`, with the lines of the manifest.
unfoldable pub verify : List Text → List File → List Error
unfolding expected_from
verify lines files = errors_from (expected_from [] lines) files

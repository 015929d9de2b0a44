-- ===== src/Checks/Lanes.antt =====
-- scripts/ci-changes.mjs: which lanes of the pipeline a change runs.
pub mod Joining
use go_platform_starter.Prelude.{
  ℕ, ◌==◌, Bool, true, false, not, ◌&&◌, ◌||◌, Option, none, some, List, [], ◌∷◌, ◌++◌, map, filter,
  any, if◌then◌else◌, Text, codes, text_same, is_empty, starts_with, ends_with, split, String,
}

-- "\r\n" ends a line too: the piece before a line feed loses a carriage return at its end.
abbrev drop_return : Text → Text
drop_return [] = []
drop_return (c ∷ []) = if c == 13 then [] else c ∷ []
drop_return (c ∷ d ∷ s) = c ∷ drop_return (d ∷ s)

abbrev ended_lines : List Text → List Text
ended_lines [] = []
ended_lines (l ∷ []) = l ∷ []
ended_lines (l ∷ m ∷ lines) = drop_return l ∷ ended_lines (m ∷ lines)

-- `.split(/\r?\n/).filter(Boolean)`
unfoldable pub lines_of : Text → List Text
lines_of text = filter (λ l. not (is_empty l)) (ended_lines (split 10 text))

-- The changed files: CHANGED_FILES, where it is set, or else what `git diff` prints, where it succeeds.
unfoldable pub changed_files : Option Text → Option Text → List Text
unfolding lines_of
changed_files (some listed) diff = lines_of listed
changed_files none (some printed) = lines_of printed
changed_files none none = codes "go.mod" ∷ codes "package.json" ∷ []

-- `^…$`, `^…` and `…$`; a pattern with alternatives is one for each.
pub data Pattern : Type 0 where
  exactly begins ends : String → Pattern

unfoldable pub hits : Text → Pattern → Bool
unfolding starts_with
hits file (exactly p) = text_same file (codes p)
hits file (begins p) = starts_with (codes p) file
hits file (ends p) = ends_with (codes p) file

abbrev pub matches : List Pattern → List Text → Bool
matches patterns files = any (λ file. any (hits file) patterns) files

abbrev pub global_patterns : List Pattern
global_patterns =
    exactly ".github/workflows/ci.yml"
    ∷ exactly "Makefile"
    ∷ exactly "scripts/ci-changes.mjs"
    ∷ exactly "scripts/run-with-retry.mjs"
    ∷ exactly "scripts/quality-gates.mjs"
    ∷ []

abbrev pub go_patterns : List Pattern
go_patterns =
    ends ".go"
    ∷ exactly "go.mod"
    ∷ exactly "go.sum"
    ∷ begins "services/"
    ∷ begins "internal/"
    ∷ begins "infra/"
    ∷ []

abbrev pub web_patterns : List Pattern
web_patterns =
    ends ".ts"
    ∷ ends ".tsx"
    ∷ ends ".js"
    ∷ ends ".mjs"
    ∷ ends ".css"
    ∷ ends ".html"
    ∷ begins "apps/"
    ∷ begins "packages/"
    ∷ exactly "pnpm-lock.yaml"
    ∷ []

abbrev pub e2e_patterns : List Pattern
e2e_patterns =
    begins "e2e/"
    ∷ begins "apps/"
    ∷ begins "services/"
    ∷ begins "infra/"
    ∷ exactly "scripts/e2e-mesh.sh"
    ∷ []

abbrev pub security_patterns : List Pattern
security_patterns =
    begins ".github/"
    ∷ begins "infra/"
    ∷ begins "scripts/promote"
    ∷ begins "scripts/deploy"
    ∷ begins "scripts/smoke"
    ∷ begins "scripts/check-deploy"
    ∷ begins "scripts/check-change"
    ∷ begins "scripts/registry-retention"
    ∷ ends "Dockerfile"
    ∷ exactly "go.mod"
    ∷ exactly "go.sum"
    ∷ exactly "pnpm-lock.yaml"
    ∷ []

abbrev pub docs_patterns : List Pattern
docs_patterns = ends ".md" ∷ begins "docs/" ∷ exactly "mkdocs.yml" ∷ []

pub data Lane : Type 0 where
  go web e2e security docs : Lane

-- The result before the last test, at each of its keys.
unfoldable pub selected : List Text → Lane → Bool
unfolding hits
selected files go = matches global_patterns files || matches go_patterns files
selected files web = matches global_patterns files || matches web_patterns files
selected files e2e = matches global_patterns files || matches e2e_patterns files
selected files security = matches global_patterns files || matches security_patterns files
selected files docs = matches docs_patterns files

abbrev pub is_none : List Text → Bool
is_none [] = true
is_none (_ ∷ _) = false

-- The result; `push` says that GITHUB_EVENT_NAME is "push".
unfoldable pub result : Bool → List Text → Lane → Bool
unfolding selected
result push files lane = if is_none files || push then true else selected files lane

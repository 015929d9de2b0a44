-- ===== src/Roles/Markup.antt =====
-- apps/web-admin-roles/src/RolesPage.tsx: Markdown and Highlight, which show the description of a role and
-- mark what a search finds. `lower` is `toLowerCase`.
pub mod Fragments
pub mod Writing
pub mod Marking
use go_platform_starter.Prelude.{
  ℕ, zero, suc, ◌+◌, ◌-◌, ◌==◌, Bool, true, false, not, ◌&&◌, Option, none, some, List, [], ◌∷◌,
  ◌++◌, map, take, drop, length, if◌then◌else◌, Text, codes, is_empty, starts_with, split, trim,
}

-- The characters before the first `d`, and what follows them.
abbrev pub before_mark : ℕ → Text → Text
before_mark d [] = []
before_mark d (c ∷ s) = if c == d then [] else c ∷ before_mark d s

abbrev pub from_mark : ℕ → Text → Text
from_mark d [] = []
from_mark d (c ∷ s) = if c == d then c ∷ s else from_mark d s

-- What a mark at the start of a text takes of it, and the rest.
abbrev closed : Text → Text → Text → Option (Text × Text)
closed mark inner rest =
    if not (is_empty inner) && starts_with mark rest
    then some (mark ++ (inner ++ mark), drop (length mark) rest)
    else none

-- A match of "`[^`]+`" or of "\*\*[^*]+\*\*" at the start of a text.
abbrev pub match_at : Text → Option (Text × Text)
match_at [] = none
match_at (c ∷ s) =
    if c == b'`'
    then closed (codes "`") (before_mark b'`' s) (from_mark b'`' s)
    else if c == b'*' && starts_with (codes "*") s
    then closed (codes "**") (before_mark b'*' (drop 1 s)) (from_mark b'*' (drop 1 s))
    else none

-- The parts of a line from a character on: a match ends the plain part before it.
abbrev next_parts : Text → ℕ → Text → Option (Text × Text) → (Text → Text → List Text) → List Text
next_parts cur c s none split = split (cur ++ c ∷ []) s
next_parts cur c s (some (m, rest)) split = cur ∷ m ∷ split [] rest

-- `line.split(…)` from some place on, with the characters `cur` since the last match. The fuel is one more
-- than the length of the line.
unfoldable pub parts_from : ℕ → Text → Text → List Text
parts_from zero cur line = []
parts_from (suc f) cur [] = cur ∷ []
parts_from (suc f) cur (c ∷ s) =
    next_parts cur c s (match_at (c ∷ s)) (λ cur' rest. parts_from f cur' rest)

unfoldable pub parts : Text → List Text
unfolding parts_from
parts line = parts_from (suc (length line)) [] line

pub data Fragment : Type 0 where
  strong code plain : Text → Fragment

-- `part.slice(n, -n)`
abbrev pub inside : ℕ → Text → Text
inside n part = take (length part - (n + n)) (drop n part)

abbrev pub fragment : Text → Fragment
fragment part =
    if starts_with (codes "**") part
    then strong (inside 2 part)
    else if starts_with (codes "`") part
    then code (inside 1 part)
    else plain part

unfoldable pub render_line : Text → List Fragment
unfolding parts starts_with
render_line line = map fragment (parts line)

-- The paragraphs of a description.
unfoldable pub markdown : Text → List (List Fragment)
unfolding render_line
markdown text =
    map render_line (split 10 (if is_empty text then codes "No description provided." else text))

-- `s.indexOf(p)`
unfoldable pub index_of : Text → Text → Option ℕ
unfolding starts_with
index_of p [] = if is_empty p then some 0 else none
index_of p (c ∷ s) =
    let rest = index_of p s in
    if starts_with p (c ∷ s) then some 0 else elim rest [ none ↦ none | some i ↦ some (suc i) ]

-- The three slices of the text, where the query was found.
abbrev pub sliced : Text → ℕ → Option ℕ → Option (Text × Text × Text)
sliced text size none = none
sliced text size (some i) = some (take i text, take size (drop i text), drop (i + size) text)

-- What is before the mark, in the mark, and behind it; `none` where nothing is marked.
unfoldable pub highlight : (Text → Text) → Text → Text → Option (Text × Text × Text)
unfolding index_of
highlight lower text query =
    if is_empty (trim query)
    then none
    else sliced text (length query) (index_of (lower query) (lower text))

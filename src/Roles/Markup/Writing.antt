-- ===== src/Roles/Markup/Writing.antt =====
-- A line of marked fragments is shown as it was meant, and what an unclosed mark loses.
use go_platform_starter.Prelude.{
  ℕ, zero, suc, ◌+◌, ◌-◌, ◌<◌, ◌≤◌, ==_iff, true, false, none, some, List, [], ◌∷◌, ◌++◌, ◌≡◌, refl,
  sym, ap, ◌∙◌, arith, map, take, length, length-append, append_assoc, append-nil, Text, codes,
  is_empty, starts_with, lacks, All,
}
use go_platform_starter.Roles.Markup.{
  before_mark, from_mark, match_at, next_parts, parts_from, parts, Fragment, strong, code, plain,
  fragment, render_line,
}

-- A text without the characters that begin a mark.
abbrev pub IsPlain : Text → Type 0
IsPlain t = (lacks b'`' t ≡ true) × (lacks b'*' t ≡ true)

-- What can stand in a mark: no empty text, and none with the character that ends it.
abbrev pub IsMark : Fragment → Type 0
IsMark (strong t) = (is_empty t ≡ false) × (lacks b'*' t ≡ true)
IsMark (code t) = (is_empty t ≡ false) × (lacks b'`' t ≡ true)
IsMark (plain t) = ⊥

abbrev pub written : Fragment → Text
written (strong t) = codes "**" ++ (t ++ codes "**")
written (code t) = codes "`" ++ (t ++ codes "`")
written (plain t) = t

-- The line that begins with a plain text, and has marks, each with a plain text behind it.
abbrev pub line_of : Text → List (Fragment × Text) → Text
line_of p [] = p
line_of p ((m, q) ∷ rest) = p ++ (written m ++ line_of q rest)

abbrev pub fragments_of : Text → List (Fragment × Text) → List Fragment
fragments_of p [] = plain p ∷ []
fragments_of p ((m, q) ∷ rest) = plain p ∷ m ∷ fragments_of q rest

before_mark-end : (d : ℕ) (t rest : Text) → lacks d t ≡ true → before_mark d (t ++ d ∷ rest) ≡ t
before_mark-end d [] rest h = rw ((==_iff d d).1 refl) refl
before_mark-end d (c ∷ t) rest h = ground (arith, h, before_mark-end d t rest)

from_mark-end : (d : ℕ) (t rest : Text) → lacks d t ≡ true → from_mark d (t ++ d ∷ rest) ≡ d ∷ rest
from_mark-end d [] rest h = rw ((==_iff d d).1 refl) refl
from_mark-end d (c ∷ t) rest h = ground (arith, h, from_mark-end d t rest)

match_at-code :
    (t rest : Text)
    → IsMark (code t)
    → match_at (b'`' ∷ (t ++ b'`' ∷ rest)) ≡ some (written (code t), rest)
unfolding starts_with
match_at-code t rest h =
    rw (before_mark-end b'`' t rest h.1, from_mark-end b'`' t rest h.1) (ground (arith, h.0))

match_at-strong :
    (t rest : Text)
    → IsMark (strong t)
    → match_at (b'*' ∷ b'*' ∷ (t ++ b'*' ∷ b'*' ∷ rest)) ≡ some (written (strong t), rest)
unfolding starts_with
match_at-strong t rest h =
    rw (before_mark-end b'*' t (b'*' ∷ rest) h.1, from_mark-end b'*' t (b'*' ∷ rest) h.1)
      (ground (arith, h.0))

-- The plain characters are gathered.
parts_from-plain :
    (p : Text) (f : ℕ) (cur rest : Text)
    → IsPlain p
    → length p ≤ f
    → parts_from f cur (p ++ rest) ≡ parts_from (f - length p) (cur ++ p) rest
unfolding parts_from
parts_from-plain [] f cur rest h l =
    ap (λ n. parts_from n cur rest) (let e : f ≡ f - 0 = omega arith in e)
    ∙ ap (λ t. parts_from (f - 0) t rest) (sym (append-nil cur))
parts_from-plain (c ∷ p) zero cur rest h l = absurd (omega (arith, l))
parts_from-plain (c ∷ p) (suc f) cur rest h l =
    let no_mark : match_at (c ∷ (p ++ rest)) ≡ none = ground (arith, h.0, h.1) in
    ap (λ found. next_parts cur c (p ++ rest) found (λ cur' left. parts_from f cur' left)) no_mark
    ∙ parts_from-plain p f (cur ++ c ∷ []) rest (ground (arith, h.0), ground (arith, h.1))
        (omega (arith, l))
    ∙ ap (λ n. parts_from n ((cur ++ c ∷ []) ++ p) rest)
        (let e : f - length p ≡ suc f - suc (length p) = omega arith in e)
    ∙ ap (λ t. parts_from (suc f - suc (length p)) t rest) (append_assoc cur (c ∷ []) p)

parts_from-mark :
    (f : ℕ) (cur : Text) (c : ℕ) (s m rest : Text)
    → match_at (c ∷ s) ≡ some (m, rest)
    → parts_from (suc f) cur (c ∷ s) ≡ cur ∷ m ∷ parts_from f [] rest
unfolding parts_from
parts_from-mark f cur c s m rest e =
    ap (λ found. next_parts cur c s found (λ cur' left. parts_from f cur' left)) e

abbrev parts_of : Text → List (Fragment × Text) → List Text
parts_of p [] = p ∷ []
parts_of p ((m, q) ∷ rest) = p ∷ written m ∷ parts_of q rest

-- The marks, and the plain texts, are as they can be written.
abbrev pub AreMarks : List (Fragment × Text) → Type 0
AreMarks marks = All (λ m. IsMark m.0 × IsPlain m.1) marks

parts_from-end : (f : ℕ) (cur : Text) → 0 < f → parts_from f cur [] ≡ cur ∷ []
unfolding parts_from
parts_from-end zero cur h = absurd (omega (arith, h))
parts_from-end (suc f) cur h = refl

-- A written mark is a character, and what the matcher finds there.
parts_from-written :
    (f : ℕ) (cur rest : Text) (m : Fragment)
    → IsMark m
    → parts_from (suc f) cur (written m ++ rest) ≡ cur ∷ written m ∷ parts_from f [] rest
parts_from-written f cur rest (strong t) h =
    ap (λ l. parts_from (suc f) cur (b'*' ∷ b'*' ∷ l)) (append_assoc t (codes "**") rest)
    ∙ parts_from-mark f cur b'*' _ _ rest (match_at-strong t rest h)
parts_from-written f cur rest (code t) h =
    ap (λ l. parts_from (suc f) cur (b'`' ∷ l)) (append_assoc t (codes "`") rest)
    ∙ parts_from-mark f cur b'`' _ _ rest (match_at-code t rest h)
parts_from-written f cur rest (plain t) h = absurd h

length-written : (m : Fragment) → IsMark m → 1 ≤ length (written m)
length-written (strong t) h = omega arith
length-written (code t) h = omega arith
length-written (plain t) h = absurd h

parts_from-line :
    (marks : List (Fragment × Text)) (f : ℕ) (p : Text)
    → IsPlain p
    → AreMarks marks
    → length (line_of p marks) < f
    → parts_from f [] (line_of p marks) ≡ parts_of p marks
parts_from-line [] f p h k l =
    ap (λ t. parts_from f [] t) (sym (append-nil p))
    ∙ parts_from-plain p f [] [] h (omega (arith, l))
    ∙ parts_from-end (f - length p) p (omega (arith, l))
parts_from-line ((m, q) ∷ marks) f p h k l =
    let size : length p + (length (written m) + length (line_of q marks)) < f = omega (
      arith,
      l,
      length-append p (written m ++ line_of q marks),
      length-append (written m) (line_of q marks),
    ) in
    let some_mark = length-written m k.0.0 in
    let left : f - length p ≡ suc (f - length p - 1) = omega arith in
    parts_from-plain p f [] (written m ++ line_of q marks) h (omega arith)
    ∙ ap (λ n. parts_from n p (written m ++ line_of q marks)) left
    ∙ parts_from-written (f - length p - 1) p (line_of q marks) m k.0.0
    ∙ ap (λ ps. p ∷ written m ∷ ps)
        (parts_from-line marks (f - length p - 1) q k.0.1 k.1 (omega arith))

take-end : (t rest : Text) → take (length t) (t ++ rest) ≡ t
take-end [] rest = refl
take-end (c ∷ t) rest = ap (λ s. c ∷ s) (take-end t rest)

fragment-written : (m : Fragment) → IsMark m → fragment (written m) ≡ m
unfolding starts_with
fragment-written (strong t) h =
    let l : suc (suc (length (t ++ codes "**"))) - 4 ≡ length t =
      omega (arith, length-append t (codes "**")) in
    ap strong (rw l (take-end t (codes "**")))
fragment-written (code t) h =
    let l : suc (length (t ++ codes "`")) - 2 ≡ length t =
      omega (arith, length-append t (codes "`")) in
    ap code (rw l (take-end t (codes "`")))
fragment-written (plain t) h = absurd h

fragment-plain : (p : Text) → IsPlain p → fragment p ≡ plain p
unfolding starts_with
fragment-plain [] h = refl
fragment-plain (c ∷ p) h = ground (arith, h.0, h.1)

fragments-parts_of :
    (p : Text) (marks : List (Fragment × Text))
    → IsPlain p
    → AreMarks marks
    → map fragment (parts_of p marks) ≡ fragments_of p marks
fragments-parts_of p [] h k = ap (λ x. x ∷ []) (fragment-plain p h)
fragments-parts_of p ((m, q) ∷ marks) h k =
    rw (fragment-plain p h, fragment-written m k.0.0)
      (ap (λ r. plain p ∷ m ∷ r) (fragments-parts_of q marks k.0.1 k.1))

-- A line of plain texts and of marks between them, as they can be written, is shown as just those texts and
-- marks.
pub render_line-line_of :
    (p : Text) (marks : List (Fragment × Text))
    → IsPlain p
    → AreMarks marks
    → render_line (line_of p marks) ≡ fragments_of p marks
unfolding render_line parts
render_line-line_of p marks h k =
    let line = line_of p marks in
    ap (map fragment) (parts_from-line marks (suc (length line)) p h k (omega arith))
    ∙ fragments-parts_of p marks h k

from_mark-lacks : (d : ℕ) (t : Text) → lacks d t ≡ true → from_mark d t ≡ []
from_mark-lacks d [] h = refl
from_mark-lacks d (c ∷ t) h = ground (arith, h, from_mark-lacks d t)

starts-lacks : (d : ℕ) (t : Text) → lacks d t ≡ true → starts_with (d ∷ []) t ≡ false
unfolding starts_with
starts-lacks d [] h = refl
starts-lacks d (c ∷ t) h = ground (arith, h)

match_at-unclosed : (t : Text) → IsPlain t → match_at (b'*' ∷ b'*' ∷ t) ≡ none
unfolding starts_with
match_at-unclosed t h = rw (from_mark-lacks b'*' t h.1) (ground arith)

match_at-star : (t : Text) → IsPlain t → match_at (b'*' ∷ t) ≡ none
match_at-star t h = ground (arith, starts-lacks b'*' t h.1)

parts_from-none :
    (f : ℕ) (cur : Text) (c : ℕ) (s : Text)
    → match_at (c ∷ s) ≡ none
    → parts_from (suc f) cur (c ∷ s) ≡ parts_from f (cur ++ c ∷ []) s
unfolding parts_from
parts_from-none f cur c s e =
    ap (λ found. next_parts cur c s found (λ cur' left. parts_from f cur' left)) e

parts-unclosed : (t : Text) → IsPlain t → parts (codes "**" ++ t) ≡ (codes "**" ++ t) ∷ []
unfolding parts
parts-unclosed t h =
    let f : ℕ = suc (length t) in
    parts_from-none (suc f) [] b'*' (b'*' ∷ t) (match_at-unclosed t h)
    ∙ parts_from-none f (codes "*") b'*' t (match_at-star t h)
    ∙ ap (λ l. parts_from f (codes "**") l) (sym (append-nil t))
    ∙ parts_from-plain t f (codes "**") [] h (omega arith)
    ∙ parts_from-end (f - length t) (codes "**" ++ t) (omega arith)

-- Of a line that begins with two stars that nothing closes, the stars and its last two characters are not
-- shown.
render_line-unclosed :
    (t : Text) → IsPlain t → render_line (codes "**" ++ t) ≡ strong (take (length t - 2) t) ∷ []
unfolding render_line
render_line-unclosed t h =
    let l : suc (suc (length t)) - 4 ≡ length t - 2 = omega arith in
    ap (map fragment) (parts-unclosed t h) ∙ ap (λ n. strong (take n t) ∷ []) l

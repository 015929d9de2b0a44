-- ===== src/Roles/Markup/Fragments.antt =====
-- What the paragraphs of a description show.
use go_platform_starter.Prelude.{
  ℕ, zero, suc, ◌<◌, ◌≤◌, ◌==◌, ==_iff, Bool, true, false, not, ◌&&◌, Option, none, some, List, [],
  ◌∷◌, ◌++◌, ◌≡◌, refl, ap, ◌∙◌, arith, inl, inr, Bool-cases, drop, length, length-append,
  append_assoc, Text, codes, is_empty, starts_with,
}
use go_platform_starter.Roles.Markup.{
  before_mark, from_mark, closed, match_at, next_parts, parts_from, parts,
}

abbrev pub concat : List Text → Text
concat [] = []
concat (p ∷ ps) = p ++ concat ps

before-from : (d : ℕ) (s : Text) → before_mark d s ++ from_mark d s ≡ s
before-from d [] = refl
before-from d (c ∷ s) = ground (arith, before-from d s)

starts-drop : (p s : Text) → starts_with p s ≡ true → p ++ drop (length p) s ≡ s
unfolding starts_with
starts-drop [] s h = refl
starts-drop (c ∷ p) [] h = absurd (ground (arith, h))
starts-drop (c ∷ p) (d ∷ s) h = ground (arith, h, starts-drop p s)

-- What a mark takes and what it leaves make up the text.
closed-join :
    (mark inner rest m left : Text)
    → closed mark inner rest ≡ some (m, left)
    → m ++ left ≡ mark ++ (inner ++ rest)
closed-join mark inner rest m left h =
    elim (Bool-cases (not (is_empty inner) && starts_with mark rest)) [
      | inl e ↦
          let taken : m ≡ mark ++ (inner ++ mark) = ground (arith, h, e) in
          let over : left ≡ drop (length mark) rest = ground (arith, h, e) in
          rw (taken, over)
            (append_assoc mark (inner ++ mark) (drop (length mark) rest)
              ∙ ap (λ t. mark ++ t)
                  (append_assoc inner mark (drop (length mark) rest)
                    ∙ ap (λ t. inner ++ t) (starts-drop mark rest (ground (arith, e)))))
      | inr e ↦ absurd (ground (arith, h, e))
    ]

closed-long :
    (d : ℕ) (mark inner rest m left : Text)
    → closed (d ∷ mark) inner rest ≡ some (m, left)
    → 1 ≤ length m
closed-long d mark inner rest m left h =
    elim (Bool-cases (not (is_empty inner) && starts_with (d ∷ mark) rest)) [
      | inl e ↦
          let taken : m ≡ d ∷ (mark ++ (inner ++ d ∷ mark)) = ground (arith, h, e) in
          rw taken (omega arith)
      | inr e ↦ absurd (ground (arith, h, e))
    ]

second_star : (s : Text) → starts_with (codes "*") s ≡ true → codes "*" ++ drop 1 s ≡ s
second_star s h = starts-drop (codes "*") s h

match_at-join :
    (line m rest : Text) → match_at line ≡ some (m, rest) → (m ++ rest ≡ line) × (1 ≤ length m)
match_at-join [] m rest h = absurd (ground (arith, h))
match_at-join (c ∷ s) m rest h = by_first (c == b'`') refl
  where
    by_second :
        (c == b'`') ≡ false
        → (two : Bool) → (c == b'*' && starts_with (codes "*") s) ≡ two
        → (m ++ rest ≡ c ∷ s) × (1 ≤ length m)
    by_second e true k =
        let h' : closed (codes "**") (before_mark b'*' (drop 1 s)) (from_mark b'*' (drop 1 s))
            ≡ some (m, rest) =
          rw (e, k) at h in
        let tail = second_star s (ground (arith, k)) in
        let star : c ≡ b'*' = (==_iff c b'*').0 (ground (arith, k)) in
        (
          closed-join (codes "**") _ _ m rest h'
              ∙ ap (λ t. codes "**" ++ t) (before-from b'*' (drop 1 s))
              ∙ rw star (ap (λ t. b'*' ∷ t) tail),
          closed-long b'*' (codes "*") _ _ m rest h',
        )
    by_second e false k = absurd (ground (arith, h, e, k))

    by_first : (one : Bool) → (c == b'`') ≡ one → (m ++ rest ≡ c ∷ s) × (1 ≤ length m)
    by_first true e =
        let h' : closed (codes "`") (before_mark b'`' s) (from_mark b'`' s) ≡ some (m, rest) =
          rw e at h in
        let tick : c ≡ b'`' = (==_iff c b'`').0 e in
        (
          closed-join (codes "`") _ _ m rest h'
              ∙ ap (λ t. codes "`" ++ t) (before-from b'`' s)
              ∙ rw tick refl,
          closed-long b'`' [] _ _ m rest h',
        )
    by_first false e = by_second e (c == b'*' && starts_with (codes "*") s) refl

concat-parts_from :
    (f : ℕ) (cur line : Text) → length line < f → concat (parts_from f cur line) ≡ cur ++ line
unfolding parts_from
concat-parts_from zero cur line h = absurd (omega (arith, h))
concat-parts_from (suc f) cur [] h = refl
concat-parts_from (suc f) cur (c ∷ s) h =
    step (λ cur' line. concat-parts_from f cur' line) (match_at (c ∷ s)) refl
  where
    step :
        ((cur' line : Text) → length line < f → concat (parts_from f cur' line) ≡ cur' ++ line)
        → (found : Option (Text × Text)) → match_at (c ∷ s) ≡ found
        → concat (next_parts cur c s found (λ cur' rest. parts_from f cur' rest)) ≡ cur ++ c ∷ s
    step ih none e = ih (cur ++ c ∷ []) s (omega (arith, h)) ∙ append_assoc cur (c ∷ []) s
    step ih (some (m, rest)) e =
        let (join, long) = match_at-join (c ∷ s) m rest e in
        ap (λ t. cur ++ (m ++ t))
          (ih [] rest (omega (arith, h, long, ap length join, length-append m rest)))
        ∙ ap (λ t. cur ++ t) join

-- The parts of a line, the plain ones and the marked ones, make up the line again: no character is lost and
-- none is shown twice.
concat-parts : (line : Text) → concat (parts line) ≡ line
unfolding parts
concat-parts line = concat-parts_from (suc (length line)) [] line (omega arith)

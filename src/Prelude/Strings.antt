-- ===== src/Prelude/Strings.antt =====
-- JavaScript strings as lists of UTF-16 code units, with the string methods that the source calls.
-- `toLowerCase` is in Prelude/Case.antt.
use mathlib.Core.Path.{◌≡◌, refl, ap, ◌∙◌}
use mathlib.Core.Logic.{◌↔◌}
use mathlib.Core.Bool.{Bool, true, false, not, ◌&&◌, ◌||◌}
use mathlib.Core.List.{List, [], ◌∷◌, ◌++◌, reverse, map}
use native.Mathlib.Omega.{arith}
use Prim.Native.Nat.{ℕ, zero, suc, ◌+◌, ◌/◌, ◌%◌}
use Prim.Native.Char.{code}
use Prim.Native.String.{String}
use go_platform_starter.Prelude.Tests.{◌==◌, leb, if◌then◌else◌}
use go_platform_starter.Prelude.Lists.{all}
use go_platform_starter.Prelude.Keys.{Key}

abbrev pub Text : Type 0
Text = List ℕ

-- The code units of a literal, all of whose characters are below 0x10000.
abbrev pub codes : String → Text
codes String.[] = []
codes (String.◌∷◌ c s) = code c ∷ codes s

abbrev pub text_same : Text → Text → Bool
text_same [] [] = true
text_same [] (_ ∷ _) = false
text_same (_ ∷ _) [] = false
text_same (a ∷ s) (b ∷ t) = a == b && text_same s t

pub text_same_iff : (s t : Text) → (text_same s t ≡ true) ↔ (s ≡ t)
text_same_iff [] [] = ground arith
text_same_iff [] (b ∷ t) = ground arith
text_same_iff (a ∷ s) [] = ground arith
text_same_iff (a ∷ s) (b ∷ t) = ground (arith, text_same_iff s t)

instance abbrev pub Text_key : Key Text
Text_key = record { same = text_same; same_iff = text_same_iff }

abbrev pub is_empty : Text → Bool
is_empty [] = true
is_empty (_ ∷ _) = false

-- WhiteSpace and LineTerminator of ECMAScript: what `trim` strips and `\s` matches.
unfoldable pub is_space : ℕ → Bool
is_space c =
    (leb 9 c && leb c 13)
    || c == 32
    || c == 160
    || c == 0x1680
    || (leb 0x2000 c && leb c 0x200a)
    || c == 0x2028
    || c == 0x2029
    || c == 0x202f
    || c == 0x205f
    || c == 0x3000
    || c == 0xfeff

unfoldable pub trim_start : Text → Text
trim_start [] = []
trim_start (c ∷ s) = if is_space c then trim_start s else c ∷ s

-- A character before what trimming the end has left.
abbrev pub before_end : ℕ → Text → Text
before_end c [] = if is_space c then [] else c ∷ []
before_end c (d ∷ s) = c ∷ d ∷ s

unfoldable pub trim_end : Text → Text
trim_end [] = []
trim_end (c ∷ s) = before_end c (trim_end s)

-- `s.trim()`
unfoldable pub trim : Text → Text
unfolding trim_start trim_end is_space
trim s = trim_end (trim_start s)

before_end_idem : (c : ℕ) (s : Text) → trim_end s ≡ s → trim_end (before_end c s) ≡ before_end c s
unfolding trim_end
before_end_idem c [] h = ground arith
before_end_idem c (d ∷ s) h = ap (before_end c) h

trim_end_idem : (s : Text) → trim_end (trim_end s) ≡ trim_end s
unfolding trim_end
trim_end_idem [] = refl
trim_end_idem (c ∷ s) = before_end_idem c (trim_end s) (trim_end_idem s)

-- The text is empty or begins with a character that is no space.
abbrev pub starts_solid : Text → Bool
starts_solid [] = true
starts_solid (c ∷ s) = not (is_space c)

starts_solid-trim_start : (s : Text) → starts_solid (trim_start s) ≡ true
unfolding trim_start
starts_solid-trim_start [] = refl
starts_solid-trim_start (c ∷ s) = ground (arith, starts_solid-trim_start s)

trim_start_of_solid : (s : Text) → starts_solid s ≡ true → trim_start s ≡ s
unfolding trim_start
trim_start_of_solid [] h = refl
trim_start_of_solid (c ∷ s) h = ground arith

starts_solid-before_end :
    (c : ℕ) (s : Text) → is_space c ≡ false → starts_solid (before_end c s) ≡ true
starts_solid-before_end c [] h = ground arith
starts_solid-before_end c (d ∷ s) h = ground arith

starts_solid-trim_end : (s : Text) → starts_solid s ≡ true → starts_solid (trim_end s) ≡ true
unfolding trim_end
starts_solid-trim_end [] h = refl
starts_solid-trim_end (c ∷ s) h = starts_solid-before_end c (trim_end s) (ground arith)

trim_idem : (s : Text) → trim (trim s) ≡ trim s
trim_idem s =
    let front = starts_solid-trim_end (trim_start s) (starts_solid-trim_start s) in
    unfold trim in ap trim_end (trim_start_of_solid (trim s) front) ∙ trim_end_idem (trim_start s)

-- `s.startsWith(p)`
unfoldable pub starts_with : Text → Text → Bool
starts_with [] s = true
starts_with (c ∷ p) [] = false
starts_with (c ∷ p) (d ∷ s) = c == d && starts_with p s

pub starts_with_iff : (p s : Text) → (starts_with p s ≡ true) ↔ ((r : Text) × (s ≡ p ++ r))
unfolding starts_with
starts_with_iff [] s = ((λ h. (s, refl)), (λ h. refl))
starts_with_iff (c ∷ p) [] = ((λ h. absurd (ground arith)), (λ h. ground (arith, h.1)))
starts_with_iff (c ∷ p) (d ∷ s) = (
  (λ h. let (r, e) = (starts_with_iff p s).0 (ground arith) in (r, ground (arith, e))),
  (λ h. let (r, e) = h in ground (arith, (starts_with_iff p s).1 (r, ground (arith, e)))),
)

-- `s.includes(p)`
unfoldable pub has_text : Text → Text → Bool
unfolding starts_with
has_text p [] = is_empty p
has_text p (c ∷ s) = starts_with p (c ∷ s) || has_text p s

-- The pieces of `s.split(d)` for a one-character `d`; the first piece begins with `cur`.
unfoldable pub split_from : ℕ → Text → Text → List Text
split_from d cur [] = cur ∷ []
split_from d cur (c ∷ s) =
    let closed = cur ∷ split_from d [] s in
    let longer = split_from d (cur ++ c ∷ []) s in if c == d then closed else longer

-- `s.split(d)`
abbrev pub split : ℕ → Text → List Text
split d s = split_from d [] s

-- `parts.join(d)`
abbrev pub join : Text → List Text → Text
join d [] = []
join d (p ∷ []) = p
join d (p ∷ q ∷ ps) = p ++ (d ++ join d (q ∷ ps))

-- `d` does not occur in the text.
abbrev pub lacks : ℕ → Text → Bool
lacks d s = all (λ c. not (c == d)) s

-- The decimal digits of a number; the fuel is one more than the number of digits can be.
decimal_from : ℕ → ℕ → Text → Text
decimal_from zero n acc = acc
decimal_from (suc f) n acc =
    let digits = (48 + n % 10) ∷ acc in
    let rest = decimal_from f (n / 10) digits in if n / 10 == 0 then digits else rest

-- `String(n)` and `${n}` for a natural number.
unfoldable pub decimal : ℕ → Text
unfolding decimal_from
decimal n = decimal_from (suc n) n []

-- `s.endsWith(p)`
abbrev pub ends_with : Text → Text → Bool
ends_with p s = starts_with (reverse p) (reverse s)

-- An ASCII letter in lower case: how a pattern with the flag `i` and without `u` compares them.
abbrev pub fold_case : ℕ → ℕ
fold_case c = if leb b'A' c && leb c b'Z' then c + 32 else c

-- `/p/i.test(s)` for a literal `p` in lower case
abbrev pub mentions : Text → Text → Bool
mentions p s = has_text p (map fold_case s)

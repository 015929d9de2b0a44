-- ===== src/Prelude/Searching.antt =====
-- Where a text stands in another: what the tests of texts decide.
use mathlib.Core.Path.{◌≡◌, refl, sym, ap, ◌∙◌}
use mathlib.Core.Logic.{◌↔◌, inl, inr}
use mathlib.Core.Bool.{true, ◌||◌}
use mathlib.Core.List.{[], ◌∷◌, ◌++◌, reverse, reverse-append, reverse-reverse}
use native.Mathlib.Omega.{arith}
use go_platform_starter.Prelude.Tests.{Bool-cases}
use go_platform_starter.Prelude.Strings.{Text, starts_with, starts_with_iff, has_text, ends_with}

-- A text ends with another exactly if it is that one behind some text.
pub ends_with_iff : (p s : Text) → (ends_with p s ≡ true) ↔ ((before : Text) × (s ≡ before ++ p))
unfolding starts_with
ends_with_iff p s =
    let back = starts_with_iff (reverse p) (reverse s) in
    (
      (λ h.
          let (r, e) = back.0 h in
          (
            reverse r,
            sym (reverse-reverse s)
                ∙ ap reverse e
                ∙ reverse-append (reverse p) r
                ∙ ap (λ q. reverse r ++ q) (reverse-reverse p),
          )),
      (λ h. let (before, e) = h in back.1 (reverse before, ap reverse e ∙ reverse-append before p)),
    )

-- A text contains another exactly if it stands between two texts.
pub has_text_iff :
    (p s : Text)
    → (has_text p s ≡ true) ↔ ((before : Text) × (after : Text) × (s ≡ before ++ (p ++ after)))
unfolding has_text
has_text_iff [] [] = ((λ h. ([], [], refl)), (λ h. refl))
has_text_iff (c ∷ p) [] = (
  (λ h. absurd (ground arith)),
  (λ h. let (before, after, e) = h in absurd (no_room before after e)),
)
  where
    no_room : (before after : Text) → [] ≡ before ++ ((c ∷ p) ++ after) → ⊥
    no_room [] after e = ground arith
    no_room (b ∷ before) after e = ground arith
has_text_iff p (c ∷ s) =
    let first = starts_with_iff p (c ∷ s) in
    let deeper = has_text_iff p s in
    (
      (λ h. elim (Bool-cases (starts_with p (c ∷ s))) [
        | inl e ↦ let (r, f) = first.0 e in ([], r, f)
        | inr e ↦
            let (before, after, f) = deeper.0 (ground (arith, h, e)) in
            (c ∷ before, after, ap (λ t. c ∷ t) f)
      ]),
      (λ h. let (before, after, f) = h in found before after f first.1 deeper.1),
    )
  where
    found :
        (before after : Text)
        → c ∷ s ≡ before ++ (p ++ after)
        → (((r : Text) × (c ∷ s ≡ p ++ r)) → starts_with p (c ∷ s) ≡ true)
        → (((b : Text) × (r : Text) × (s ≡ b ++ (p ++ r))) → has_text p s ≡ true)
        → (starts_with p (c ∷ s) || has_text p s) ≡ true
    found [] after f at_start further = ground (arith, at_start (after, f))
    found (b ∷ before) after f at_start further =
        let rest : s ≡ before ++ (p ++ after) = ground (arith, f) in
        ground (arith, further (before, after, rest))

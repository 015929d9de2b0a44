-- ===== src/Prelude/Regex.antt =====
-- Regular expressions, as the source writes them in literals, with the language's own meaning: a
-- relation `Matches`, and a matcher by derivatives that decides it. `^…$` is a match of the whole text.
use mathlib.Core.Path.{◌≡◌, refl, sym, ap, ◌∙◌}
use mathlib.Core.Logic.{◌↔◌, inl, inr, ◌≢◌}
use mathlib.Core.Bool.{Bool, true, false, ◌&&◌, ◌||◌}
use mathlib.Core.List.{[], ◌∷◌, ◌++◌}
use native.Mathlib.Omega.{arith}
use Prim.Native.Nat.{ℕ, zero, suc}
use go_platform_starter.Prelude.Tests.{if◌then◌else◌, Bool-cases}
use go_platform_starter.Prelude.Lists.{all}
use go_platform_starter.Prelude.Strings.{Text}

pub data Regex : Type 0 where
  void eps : Regex
  unit : (ℕ → Bool) → Regex
  seq alt : Regex → Regex → Regex
  star : Regex → Regex

-- `r+`
abbrev pub plus : Regex → Regex
plus r = seq r (star r)

-- `r{n}`
abbrev pub times : ℕ → Regex → Regex
times zero r = eps
times (suc n) r = seq r (times n r)

-- `r{0,n}`
abbrev pub up_to : ℕ → Regex → Regex
up_to zero r = eps
up_to (suc n) r = alt eps (seq r (up_to n r))

-- The text `s`, literally.
abbrev pub literal : (ℕ → ℕ → Bool) → Text → Regex
literal same [] = eps
literal same (c ∷ s) = seq (unit (same c)) (literal same s)

pub data Matches : Regex → Text → Type 0 where
  nothing : {s : Text} → s ≡ [] → Matches eps s
  one : {p : ℕ → Bool} {s : Text} (c : ℕ) → p c ≡ true → s ≡ c ∷ [] → Matches (unit p) s
  both :
      {a b : Regex} {s : Text} (u v : Text)
      → Matches a u
      → Matches b v
      → s ≡ u ++ v
      → Matches (seq a b) s
  left : {a b : Regex} {s : Text} → Matches a s → Matches (alt a b) s
  right : {a b : Regex} {s : Text} → Matches b s → Matches (alt a b) s
  stop : {a : Regex} {s : Text} → s ≡ [] → Matches (star a) s
  again :
      {a : Regex} {s : Text} (u v : Text)
      → Matches a u
      → Matches (star a) v
      → s ≡ u ++ v
      → Matches (star a) s

unfoldable pub nullable : Regex → Bool
nullable void = false
nullable eps = true
nullable (unit p) = false
nullable (seq a b) = nullable a && nullable b
nullable (alt a b) = nullable a || nullable b
nullable (star a) = true

-- What is left to match after the character `c`.
unfoldable pub derive : Regex → ℕ → Regex
derive void c = void
derive eps c = void
derive (unit p) c = if p c then eps else void
derive (seq a b) c =
    let rest = derive b c in
    if nullable a then alt (seq (derive a c) b) rest else seq (derive a c) b
derive (alt a b) c = alt (derive a c) (derive b c)
derive (star a) c = seq (derive a c) (star a)

-- `/^r$/.test(s)`
unfoldable pub test : Regex → Text → Bool
unfolding nullable derive
test r [] = nullable r
test r (c ∷ s) = test (derive r c) s

nullable_sound : (r : Regex) → nullable r ≡ true → Matches r []
unfolding nullable
nullable_sound void h = absurd (ground arith)
nullable_sound eps h = nothing refl
nullable_sound (unit p) h = absurd (ground arith)
nullable_sound (seq a b) h =
    both [] [] (nullable_sound a (ground arith)) (nullable_sound b (ground arith)) refl
nullable_sound (alt a b) h = elim (Bool-cases (nullable a)) [
  | inl e ↦ left (nullable_sound a e)
  | inr e ↦ right (nullable_sound b (ground arith))
]
nullable_sound (star a) h = stop refl

append-eq-nil : (u v : Text) → [] ≡ u ++ v → (u ≡ []) × (v ≡ [])
append-eq-nil [] v e = (refl, sym e)
append-eq-nil (c ∷ u) v e = absurd (ground arith)

nullable_complete : {r : Regex} {s : Text} → Matches r s → s ≡ [] → nullable r ≡ true
unfolding nullable
nullable_complete (nothing e) h = refl
nullable_complete (one c p e) h = absurd (ground arith)
nullable_complete (both u v m n e) h =
    let (hu, hv) = append-eq-nil u v (sym h ∙ e) in
    ground (arith, nullable_complete m hu, nullable_complete n hv)
nullable_complete (left m) h = ground (arith, nullable_complete m h)
nullable_complete (right m) h = ground (arith, nullable_complete m h)
nullable_complete (stop e) h = refl
nullable_complete (again u v m n e) h = refl

both_cons :
    {a b : Regex} {c : ℕ} {s : Text}
    → ((u : Text) → Matches (derive a c) u → Matches a (c ∷ u))
    → Matches (seq (derive a c) b) s
    → Matches (seq a b) (c ∷ s)
both_cons {c} f (both u v m n e) = both (c ∷ u) v (f u m) n (ap (◌∷◌ c) e)

again_cons :
    {a : Regex} {c : ℕ} {s : Text}
    → ((u : Text) → Matches (derive a c) u → Matches a (c ∷ u))
    → Matches (seq (derive a c) (star a)) s
    → Matches (star a) (c ∷ s)
again_cons {c} f (both u v m n e) = again (c ∷ u) v (f u m) n (ap (◌∷◌ c) e)

unit_cons :
    (p : ℕ → Bool) (c : ℕ) (s : Text)
    → Matches (if p c then eps else void) s
    → Matches (unit p) (c ∷ s)
unit_cons p c s m = elim (Bool-cases (p c)) [
  | inl e ↦ at_eps e (rw e at m)
  | inr e ↦ at_void (rw e at m)
]
  where
    at_eps : p c ≡ true → Matches eps s → Matches (unit p) (c ∷ s)
    at_eps e (nothing h) = one c e (ap (◌∷◌ c) h)

    at_void : Matches void s → Matches (unit p) (c ∷ s)
    at_void n = absurd (no_void n)
      where
        no_void : {t : Text} → Matches void t → ⊥
        no_void x = elim x [ ]

skipping :
    {a b : Regex} {c : ℕ} {s : Text}
    → ((u : Text) → Matches (derive a c) u → Matches a (c ∷ u))
    → (Matches (derive b c) s → Matches b (c ∷ s))
    → Matches a []
    → Matches (alt (seq (derive a c) b) (derive b c)) s
    → Matches (seq a b) (c ∷ s)
skipping f g h (left m) = both_cons f m
skipping f g h (right m) = both [] _ h (g m) refl

either :
    {a b : Regex} {c : ℕ} {s : Text}
    → (Matches (derive a c) s → Matches a (c ∷ s))
    → (Matches (derive b c) s → Matches b (c ∷ s))
    → Matches (alt (derive a c) (derive b c)) s
    → Matches (alt a b) (c ∷ s)
either f g (left m) = left (f m)
either f g (right m) = right (g m)

derive_sound : (r : Regex) (c : ℕ) (s : Text) → Matches (derive r c) s → Matches r (c ∷ s)
unfolding derive
derive_sound void c s m = elim m [ ]
derive_sound eps c s m = elim m [ ]
derive_sound (unit p) c s m = unit_cons p c s m
derive_sound (seq a b) c s m = elim (Bool-cases (nullable a)) [
  | inl e ↦
      skipping (derive_sound a c) (derive_sound b c s) (nullable_sound a e) (rw (e, derive) at m)
  | inr e ↦ both_cons (derive_sound a c) (rw (e, derive) at m)
]
derive_sound (alt a b) c s m = either (derive_sound a c s) (derive_sound b c s) m
derive_sound (star a) c s m = again_cons (derive_sound a c) m

unit-derive :
    (p : ℕ → Bool) (c : ℕ) {s : Text} → p c ≡ true → s ≡ [] → Matches (derive (unit p) c) s
unfolding derive
unit-derive p c h e = rw h (nothing e)

seq-derive_left :
    (a b : Regex) (c : ℕ) {s : Text}
    → Matches (seq (derive a c) b) s
    → Matches (derive (seq a b) c) s
unfolding derive
seq-derive_left a b c m = elim (Bool-cases (nullable a)) [ inl e ↦ rw e (left m) | inr e ↦ rw e m ]

seq-derive_right :
    (a b : Regex) (c : ℕ) {s : Text}
    → nullable a ≡ true
    → Matches (derive b c) s
    → Matches (derive (seq a b) c) s
unfolding derive
seq-derive_right a b c h m = rw h (right m)

derive_complete :
    {r : Regex} {t : Text} (c : ℕ) (s : Text) → Matches r t → t ≡ c ∷ s → Matches (derive r c) s
unfolding derive
derive_complete c s (nothing e) h = absurd (ground arith)
derive_complete c s (one {p} d k e) h = unit-derive p c (ground arith) (ground arith)
derive_complete c s (both {a} {b} [] v m n e) h =
    seq-derive_right a b c (nullable_complete m refl) (derive_complete c s n (sym e ∙ h))
derive_complete c s (both {a} {b} (d ∷ u) v m n e) h =
    seq-derive_left a b c (both u v (derive_complete c u m (ground arith)) n (ground arith))
derive_complete c s (left m) h = left (derive_complete c s m h)
derive_complete c s (right m) h = right (derive_complete c s m h)
derive_complete c s (stop e) h = absurd (ground arith)
derive_complete c s (again [] v m n e) h = derive_complete c s n (sym e ∙ h)
derive_complete c s (again (d ∷ u) v m n e) h =
    both u v (derive_complete c u m (ground arith)) n (ground arith)

test_sound : (s : Text) (r : Regex) → test r s ≡ true → Matches r s
unfolding test
test_sound [] r h = nullable_sound r h
test_sound (c ∷ s) r h = derive_sound r c s (test_sound s (derive r c) h)

test_complete : (s : Text) (r : Regex) → Matches r s → test r s ≡ true
unfolding test
test_complete [] r m = nullable_complete m refl
test_complete (c ∷ s) r m = test_complete s (derive r c) (derive_complete c s m refl)

-- The matcher decides the relation.
pub test_iff : (r : Regex) (s : Text) → (test r s ≡ true) ↔ Matches r s
test_iff r s = (test_sound s r, test_complete s r)

-- The text is not empty, and each of its characters is in the class `p`.
abbrev pub IsWord : (ℕ → Bool) → Text → Type 0
IsWord p s = (s ≢ []) × (all p s ≡ true)

all-append : (p : ℕ → Bool) (u v : Text) → all p u ≡ true → all p v ≡ true → all p (u ++ v) ≡ true
all-append p [] v h k = k
all-append p (c ∷ u) v h k = ground (arith, all-append p u v)

star-all : {p : ℕ → Bool} {s : Text} → Matches (star (unit p)) s → all p s ≡ true
star-all (stop e) = ground arith
star-all {p} (again u v (one c k e) n f) =
    let tail = star-all n in rw f (all-append p u v (rw e (ground arith)) tail)

all-star : (p : ℕ → Bool) (s : Text) → all p s ≡ true → Matches (star (unit p)) s
all-star p [] h = stop refl
all-star p (c ∷ s) h =
    again (c ∷ []) s (one c (ground arith) refl) (all-star p s (ground arith)) refl

-- `[…]+` matches the words of the class.
pub plus_iff : (p : ℕ → Bool) (s : Text) → Matches (plus (unit p)) s ↔ IsWord p s
plus_iff p s = (word_of, of_word s)
  where
    word_of : {t : Text} → Matches (plus (unit p)) t → IsWord p t
    word_of (both u v (one c k e) n f) =
        let tail = star-all n in (ground arith, rw (f, e) (ground arith))

    of_word : (t : Text) → IsWord p t → Matches (plus (unit p)) t
    of_word [] h = absurd (h.0 refl)
    of_word (c ∷ t) h =
        both (c ∷ []) t (one c (ground (arith, h.1)) refl) (all-star p t (ground (arith, h.1))) refl

-- ===== src/Checks/Lanes/Joining.antt =====
-- How the lanes of two changes make up those of both together.
use go_platform_starter.Prelude.{
  Bool, true, false, ◌||◌, List, [], ◌∷◌, ◌++◌, ◌≡◌, ◌≢◌, refl, arith, any, any-append, Text,
}
use go_platform_starter.Checks.Lanes.{
  Pattern, hits, matches, global_patterns, go_patterns, web_patterns, e2e_patterns,
  security_patterns, docs_patterns, Lane, go, web, e2e, security, docs, selected, result,
}

matches-append :
    (patterns : List Pattern) (xs ys : List Text)
    → matches patterns (xs ++ ys) ≡ (matches patterns xs || matches patterns ys)
matches-append patterns xs ys = any-append (λ file. any (hits file) patterns) xs ys

joined :
    (patterns : List Pattern) (xs ys : List Text)
    → (matches global_patterns (xs ++ ys) || matches patterns (xs ++ ys)) ≡ (
        (matches global_patterns xs || matches patterns xs)
        || (matches global_patterns ys || matches patterns ys))
joined patterns xs ys =
    rw (matches-append global_patterns xs ys, matches-append patterns xs ys)
      (regroup (matches global_patterns xs) (matches global_patterns ys) (matches patterns xs)
        (matches patterns ys))
  where
    regroup : (a b c d : Bool) → ((a || b) || (c || d)) ≡ ((a || c) || (b || d))
    regroup a b c d = ground arith

selected-append :
    (xs ys : List Text) (lane : Lane)
    → selected (xs ++ ys) lane ≡ (selected xs lane || selected ys lane)
unfolding selected
selected-append xs ys go = joined go_patterns xs ys
selected-append xs ys web = joined web_patterns xs ys
selected-append xs ys e2e = joined e2e_patterns xs ys
selected-append xs ys security = joined security_patterns xs ys
selected-append xs ys docs = matches-append docs_patterns xs ys

-- A change that has the files of two others, neither of them empty, runs the lanes that either runs, and no
-- other: so a lane that some of the files need is not lost by more of them, nor by their order.
result-append :
    (push : Bool) (xs ys : List Text) (lane : Lane)
    → xs ≢ []
    → ys ≢ []
    → result push (xs ++ ys) lane ≡ (result push xs lane || result push ys lane)
unfolding result
result-append push [] ys lane h k = absurd (h refl)
result-append push (x ∷ xs) [] lane h k = absurd (k refl)
result-append true (x ∷ xs) (y ∷ ys) lane h k = refl
result-append false (x ∷ xs) (y ∷ ys) lane h k = selected-append (x ∷ xs) (y ∷ ys) lane

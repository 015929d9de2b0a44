-- ===== src/Contracts/Telemetry/Window.antt =====
-- The breadcrumbs are the last twenty actions.
use go_platform_starter.Prelude.{
  ℕ, zero, suc, ◌-◌, ◌≤◌, ◌<◌, ◌⊎◌, inl, inr, ◌≡◌, refl, ap, ◌∙◌, List, [], ◌∷◌, ◌++◌, append_assoc,
  append-nil, map, arith, length, drop, length-append, length-drop,
}
use mathlib.Core.List.{foldl, tail}
use go_platform_starter.Contracts.Telemetry.{Breadcrumb, clipped, add_breadcrumb}

-- The last twenty of the actions.
abbrev pub last_20 : List Breadcrumb → List Breadcrumb
last_20 xs = drop (length xs - 20) xs

drop-append :
    (n : ℕ) (xs ys : List Breadcrumb) → n ≤ length xs → drop n (xs ++ ys) ≡ drop n xs ++ ys
drop-append zero xs ys h = refl
drop-append (suc n) [] ys h = absurd (omega arith)
drop-append (suc n) (x ∷ xs) ys h = drop-append n xs ys (omega arith)

tail-drop : (n : ℕ) (xs : List Breadcrumb) → tail (drop n xs) ≡ drop (suc n) xs
tail-drop zero [] = refl
tail-drop zero (x ∷ xs) = refl
tail-drop (suc n) [] = refl
tail-drop (suc n) (x ∷ xs) = tail-drop n xs

lt_or_ge : (n : ℕ) → (n < 20) ⊎ (20 ≤ n)
lt_or_ge n = grind arith

add_breadcrumb-last_20 :
    (xs : List Breadcrumb) (b : Breadcrumb)
    → add_breadcrumb (last_20 xs) b ≡ last_20 (xs ++ clipped b ∷ [])
unfolding add_breadcrumb
add_breadcrumb-last_20 xs b =
    let moved = drop-append (length xs - 20) xs (clipped b ∷ []) (omega arith) in
    let shift = tail-drop (length xs - 20) (xs ++ clipped b ∷ []) in
    let size = length-append xs (clipped b ∷ []) in
    let kept = length-drop (length xs - 20) xs in
    let kept' = length-append (last_20 xs) (clipped b ∷ []) in
    elim (lt_or_ge (length xs)) [
      | inl few ↦
          let same : length (xs ++ clipped b ∷ []) - 20 ≡ length xs - 20 = omega arith in
          rw same (ground (arith, moved, kept, kept'))
      | inr many ↦
          let more : length (xs ++ clipped b ∷ []) - 20 ≡ suc (length xs - 20) = omega arith in
          rw more (ground (arith, moved, kept, kept', shift))
    ]

foldl-add_breadcrumb :
    (xs actions : List Breadcrumb)
    → foldl add_breadcrumb (last_20 xs) actions ≡ last_20 (xs ++ map clipped actions)
foldl-add_breadcrumb xs [] = rw append-nil
foldl-add_breadcrumb xs (b ∷ bs) = rw (add_breadcrumb-last_20 xs b) (
    foldl-add_breadcrumb (xs ++ clipped b ∷ []) bs
    ∙ ap last_20 (append_assoc xs (clipped b ∷ []) (map clipped bs)))

-- After any actions the breadcrumbs are the last twenty of them, in order, each with its target cut
-- to 160 code units.
breadcrumbs-eq-last_20 :
    (actions : List Breadcrumb) → foldl add_breadcrumb [] actions ≡ last_20 (map clipped actions)
breadcrumbs-eq-last_20 actions = foldl-add_breadcrumb [] actions

-- ===== src/Checks/Retention/Sparing.antt =====
-- What the retention spares, and what it does not.
use mathlib.Core.List.{Memᴰ}
use mathlib.Core.List.Memᴰ
use go_platform_starter.Prelude.{
  ℕ, zero, suc, ◌+◌, ◌<◌, ◌≤◌, Bool, true, ◌&&◌, List, [], ◌∷◌, ◌≡◌, ◌↔◌, refl, inl, inr, arith,
  filter, all, take, drop, length, ltb, leb, get_or_else, All, All-map, sort_by, sort_by-All,
  sort_by-Mem, IsOrdered, sort_by-IsOrdered, length-filter-sort_by, filter-Mem_left,
  filter-Mem_right, drop-Mem, take-drop-Mem, All-at,
}
use go_platform_starter.Checks.Retention.{
  Version, newest_first, is_ephemeral, cutoff, is_expired, candidates,
}

-- How many versions are at least as new as `v`, and how many are newer.
abbrev pub as_new : Version → List Version → ℕ
as_new v versions = length (filter (λ w. leb v.updated_at w.updated_at) versions)

abbrev pub newer : Version → List Version → ℕ
newer v versions = length (filter (λ w. ltb v.updated_at w.updated_at) versions)

sorted : (versions : List Version) → IsOrdered newest_first (sort_by newest_first versions)
sorted versions =
    sort_by-IsOrdered newest_first (λ a b h. ground arith) (λ a b c h k. ground arith) versions

as_new-member : (v : Version) (vs : List Version) → Memᴰ v vs → 1 ≤ as_new v vs
as_new-member v [] m = absurd (Memᴰ.not-nil m)
as_new-member v (w ∷ vs) m = elim (Memᴰ.cases_cons m) [
  | inl e ↦ rw e (ground arith)
  | inr t ↦ ground (arith, as_new-member v vs t)
]

-- Behind `n` versions in the order, more than `n` are at least as new.
as_new-drop :
    (n : ℕ) (v : Version) (vs : List Version)
    → IsOrdered newest_first vs
    → Memᴰ v (drop n vs)
    → n + 1 ≤ as_new v vs
as_new-drop zero v vs o m = as_new-member v vs m
as_new-drop (suc n) v [] o m = absurd (Memᴰ.not-nil m)
as_new-drop (suc n) v (w ∷ vs) o m =
    let first = All-at (λ x. newest_first w x ≡ true) v vs o.0 (drop-Mem n v vs m) in
    ground (arith, as_new-drop n v vs o.1 m, first)

none_newer :
    (v : Version) (vs : List Version) → All (λ w. newest_first v w ≡ true) vs → newer v vs ≡ 0
none_newer v [] h = refl
none_newer v (w ∷ vs) h = ground (arith, none_newer v vs h.1, h.0)

-- Of the first `n` in the order, each has fewer than `n` that are newer.
newer-take :
    (n : ℕ) (v : Version) (vs : List Version)
    → IsOrdered newest_first vs
    → Memᴰ v (take n vs)
    → newer v vs < n
newer-take zero v vs o m = absurd (Memᴰ.not-nil m)
newer-take (suc n) v [] o m = absurd (Memᴰ.not-nil m)
newer-take (suc n) v (w ∷ vs) o m = elim (Memᴰ.cases_cons m) [
  | inl e ↦
      let older =
        All-map (λ x. newest_first w x ≡ true) (λ x. newest_first v x ≡ true) (λ x k. ground arith)
          vs o.0 in
      ground (arith, none_newer v vs older)
  | inr t ↦ ground (arith, newer-take n v vs o.1 t)
]

All-self : (vs : List Version) → All (λ v. Memᴰ v vs) vs
All-self vs = go vs (λ v m. m)
  where
    go : (ws : List Version) → ((v : Version) → Memᴰ v ws → Memᴰ v vs) → All (λ v. Memᴰ v vs) ws
    go [] f = tt
    go (w ∷ ws) f = (f w (Memᴰ.head refl), go ws (λ v m. f v (Memᴰ.tail m)))

expired_iff :
    (now : ℕ) (v : Version)
    → (is_expired now v ≡ true)
      ↔ ((v.updated_at < cutoff now) × (all is_ephemeral (get_or_else v.tags []) ≡ true))
expired_iff now v = meet (cutoff now) (all is_ephemeral (get_or_else v.tags []))
  where
    meet :
        (bound : ℕ) (b : Bool)
        → ((ltb v.updated_at bound && b) ≡ true) ↔ ((v.updated_at < bound) × (b ≡ true))
    meet bound b = ground arith

module _ (now : ℕ) (versions : List Version) (v : Version) where
  -- Each version that is deleted is one of those given, is more than thirty days old, has only tags that
  -- begin with "sha-" or "pr-", and is one of more than twenty that are at least as new as it.
  pub candidates-spare :
      Memᴰ v (candidates now versions)
      → Memᴰ v versions
        × (v.updated_at < cutoff now)
        × (all is_ephemeral (get_or_else v.tags []) ≡ true)
        × (21 ≤ as_new v versions)
  unfolding candidates
  candidates-spare m =
      let order = sort_by newest_first versions in
      let (kept, expired) = filter-Mem_left (is_expired now) v (drop 20 order) m in
      let count = as_new-drop 20 v order (sorted versions) kept in
      (
        All-at (λ w. Memᴰ w versions) v order
            (sort_by-All newest_first (λ w. Memᴰ w versions) versions (All-self versions))
            (drop-Mem 20 v order kept),
        ((expired_iff now v).0 expired).0,
        ((expired_iff now v).0 expired).1,
        omega (
          arith,
          count,
          length-filter-sort_by newest_first (λ w. leb v.updated_at w.updated_at) versions,
        ),
      )

  -- A version that is more than thirty days old, has only such tags, and has twenty newer ones is deleted.
  candidates-complete :
      Memᴰ v versions
      → v.updated_at < cutoff now
      → all is_ephemeral (get_or_else v.tags []) ≡ true
      → 20 ≤ newer v versions
      → Memᴰ v (candidates now versions)
  unfolding candidates
  candidates-complete m old tags many =
      let order = sort_by newest_first versions in
      let count =
        length-filter-sort_by newest_first (λ w. ltb v.updated_at w.updated_at) versions in
      filter-Mem_right (is_expired now) v (drop 20 order)
        (elim (take-drop-Mem 20 v order (sort_by-Mem newest_first v versions m)) [
          | inl first ↦ absurd (omega (arith, newer-take 20 v order (sorted versions) first, count))
          | inr rest ↦ rest
        ])
        ((expired_iff now v).1 (old, tags))

-- ===== src/Roles/Listing/Sorting.antt =====
-- The roles that are listed, and their order.
use mathlib.Core.List.{Memᴰ}
use go_platform_starter.Prelude.{
  ◌≤◌, Bool, true, false, List, [], ◌∷◌, ◌++◌, ◌≡◌, ◌↔◌, ◌⊎◌, inl, inr, arith, filter, length, Text,
  trim, is_empty, has_text, has_text_iff, any-Mem_iff, Bool-cases, All, All-map, All-of, All-at,
  filter-Mem_left, filter-Mem_right, sort_by, sort_by-All, sort_by-Mem, length-filter-sort_by,
  IsOrdered, sort_by-IsOrdered,
}
use go_platform_starter.Roles.{Role}
use go_platform_starter.Roles.Listing.{
  Sort, by_users, by_permissions, by_newest, by_name, is_found, found_roles, may_precede, listed,
}

-- A text stands somewhere in another.
abbrev pub Occurs : Text → Text → Type 0
Occurs p s = (before : Text) × (after : Text) × (s ≡ before ++ (p ++ after))

-- What the search asks of a role: the trimmed text in lower case is empty, or stands in the name or the
-- description in lower case, or in a permission.
abbrev pub Answers : (Text → Text) → Text → Role → Type 0
Answers lower search role =
    (lower (trim search) ≡ [])
    ⊎ Occurs (lower (trim search)) (lower role.name)
    ⊎ Occurs (lower (trim search)) (lower role.description)
    ⊎ ((p : Text) × Memᴰ p role.permissions × Occurs (lower (trim search)) p)

is_found_iff :
    (lower : Text → Text) (search : Text) (role : Role)
    → (is_found lower (lower (trim search)) role ≡ true) ↔ Answers lower search role
is_found_iff lower search role =
    let needle = lower (trim search) in
    let name = has_text_iff needle (lower role.name) in
    let description = has_text_iff needle (lower role.description) in
    let permission = any-Mem_iff (has_text needle) role.permissions in
    (
      (λ h. elim (Bool-cases (is_empty needle)) [
        | inl e ↦ inl (ground (arith, e))
        | inr e ↦ elim (Bool-cases (has_text needle (lower role.name))) [
          | inl n ↦ inr (inl (name.0 n))
          | inr n ↦ elim (Bool-cases (has_text needle (lower role.description))) [
            | inl d ↦ inr (inr (inl (description.0 d)))
            | inr d ↦
                let (p, m, k) = permission.0 (ground (arith, h, e, n, d)) in
                inr (inr (inr (p, m, (has_text_iff needle p).0 k)))
          ]
        ]
      ]),
      (λ h. elim h [
        | inl e ↦ ground (arith, e)
        | inr (inl o) ↦ ground (arith, name.1 o)
        | inr (inr (inl o)) ↦ ground (arith, description.1 o)
        | inr (inr (inr (p, m, o))) ↦
            ground (arith, permission.1 (p, m, (has_text_iff needle p).1 o))
      ]),
    )

-- A comparison of texts that is total and transitive, as `localeCompare` is.
pub record IsCollation (collate : Text → Text → Bool) : Type 0 where
  pub total : (s t : Text) → collate s t ≡ false → collate t s ≡ true
  pub trans : (s t u : Text) → collate s t ≡ true → collate t u ≡ true → collate s u ≡ true

module _ (lower : Text → Text) (collate : Text → Text → Bool)
    (collation : IsCollation collate) where
  open collation use {total, trans}

  may_precede_total :
      (sort : Sort) (a b : Role)
      → may_precede collate sort a b ≡ false
      → may_precede collate sort b a ≡ true
  may_precede_total by_users a b h = ground arith
  may_precede_total by_permissions a b h = ground arith
  may_precede_total by_newest a b h = total b.created_at a.created_at h
  may_precede_total by_name a b h = total a.name b.name h

  may_precede_trans :
      (sort : Sort) (a b c : Role)
      → may_precede collate sort a b ≡ true
      → may_precede collate sort b c ≡ true
      → may_precede collate sort a c ≡ true
  may_precede_trans by_users a b c h k = ground arith
  may_precede_trans by_permissions a b c h k = ground arith
  may_precede_trans by_newest a b c h k = trans c.created_at b.created_at a.created_at k h
  may_precede_trans by_name a b c h k = trans a.name b.name c.name h k

  -- May stand before: more users, more permissions, created later, or a name that comes first.
  abbrev pub Precedes : Sort → Role → Role → Type 0
  Precedes by_users a b = b.user_count ≤ a.user_count
  Precedes by_permissions a b = length b.permissions ≤ length a.permissions
  Precedes by_newest a b = collate b.created_at a.created_at ≡ true
  Precedes by_name a b = collate a.name b.name ≡ true

  abbrev pub IsRanked : Sort → List Role → Type 0
  IsRanked sort [] = Unit
  IsRanked sort (a ∷ roles) = All (Precedes sort a) roles × IsRanked sort roles

  may_precede-Precedes :
      (sort : Sort) (a b : Role) → may_precede collate sort a b ≡ true → Precedes sort a b
  may_precede-Precedes by_users a b h = ground arith
  may_precede-Precedes by_permissions a b h = ground arith
  may_precede-Precedes by_newest a b h = h
  may_precede-Precedes by_name a b h = h

  IsOrdered-IsRanked :
      (sort : Sort) (roles : List Role)
      → IsOrdered (may_precede collate sort) roles
      → IsRanked sort roles
  IsOrdered-IsRanked sort [] h = tt
  IsOrdered-IsRanked sort (a ∷ roles) h = (
    All-map (λ b. may_precede collate sort a b ≡ true) (Precedes sort a)
        (may_precede-Precedes sort a) roles h.0,
    IsOrdered-IsRanked sort roles h.1,
  )

  listed_iff :
      (search : Text) (sort : Sort) (roles : List Role) (r : Role)
      → Memᴰ r (listed lower collate search sort roles) ↔ (Memᴰ r roles × Answers lower search r)
  unfolding listed
  listed_iff search sort roles r =
      let keep = is_found lower (lower (trim search)) in
      let found = found_roles lower search roles in
      let whole =
        sort_by-All (may_precede collate sort) (λ x. Memᴰ x found) found
          (All-of (λ x. Memᴰ x found) found (λ x m. m)) in
      (
        (λ m.
            let inside =
              All-at (λ x. Memᴰ x found) r (sort_by (may_precede collate sort) found) whole m in
            let (there, k) = filter-Mem_left keep r roles inside in
            (there, (is_found_iff lower search r).0 k)),
        (λ h.
            sort_by-Mem (may_precede collate sort) r found
              (filter-Mem_right keep r roles h.0 ((is_found_iff lower search r).1 h.1))),
      )

  -- The list shows exactly the roles that answer the search, and in the order that is chosen: by falling numbers of
  -- users or of permissions, by falling times of creation, or by rising names. A role shows as often as the search
  -- finds it.
  pub listed-IsRanked :
      (search : Text) (sort : Sort) (roles : List Role) (r : Role) (p : Role → Bool)
      → IsRanked sort (listed lower collate search sort roles)
        × (Memᴰ r (listed lower collate search sort roles)
            ↔ (Memᴰ r roles × Answers lower search r))
        × (length (filter p (listed lower collate search sort roles))
            ≡ length (filter p (found_roles lower search roles)))
  listed-IsRanked search sort roles r p = (
    IsOrdered-IsRanked sort (listed lower collate search sort roles) (
        unfold listed in
        sort_by-IsOrdered (may_precede collate sort) (may_precede_total sort)
          (may_precede_trans sort) (found_roles lower search roles)),
    listed_iff search sort roles r,
    unfold listed in
        length-filter-sort_by (may_precede collate sort) p (found_roles lower search roles),
  )

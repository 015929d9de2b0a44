-- ===== src/Roles/Matrix/Rollback.antt =====
-- What a click in the matrix shows, sends and takes back.
use go_platform_starter.Prelude.{
  ℕ, Bool, false, ◌&&◌, Option, none, refl, sym, ap, ◌∙◌, inl, inr, Bool-cases, get_or_else, some,
  List, [], ◌∷◌, ◌≡◌, arith, if◌then◌else◌, ◌==◌, ==_iff, not, Text, Text_key, is, includes,
  includes-append, find, includes-filter,
}
use go_platform_starter.QueryClient.{QueryClient}
use go_platform_starter.Roles.{Role}
use go_platform_starter.Roles.Matrix.{
  roles_key, toggled, matrix_request, patched, mutate, roll_back,
}

-- A click changes whether the role has that permission, and no other of its permissions.
includes-toggled :
    (p q : Text) (permissions : List Text)
    → includes q (toggled p permissions)
      ≡ (if is q p then not (includes q permissions) else includes q permissions)
unfolding toggled
includes-toggled p q permissions = ground (
  arith,
  includes-filter (λ item. not (is item p)) q permissions,
  includes-append q permissions (p ∷ []),
  Text_key.same_iff q p,
)

-- The role that is clicked, where it is found.
clicked : Text → Option Role → Option Role
clicked p none = none
clicked p (some role) = some (record role { permissions = toggled p role.permissions })

find-patched :
    (id j : ℕ) (p : Text) (roles : List Role)
    → find (λ r. r.id == j) (patched id p roles)
      ≡ (if id == j then clicked p (find (λ r. r.id == j) roles) else find (λ r. r.id == j) roles)
unfolding patched clicked
find-patched id j p [] = ground arith
find-patched id j p (r ∷ roles) =
    ground (arith, find-patched id j p roles, ==_iff id j, ==_iff r.id j, ==_iff r.id id)

-- Whether a role that was found has a permission.
abbrev pub allows : Option Role → Text → Bool
allows none p = false
allows (some role) p = includes p role.permissions

-- What the matrix shows at the role with an id and a permission, for the roles in the cache.
abbrev pub box : Option (List Role) → ℕ → Text → Bool
box roles j p = allows (find (λ r. r.id == j) (get_or_else roles [])) p

box-patched :
    (role : Role) (p : Text) (roles : List Role) (j : ℕ) (q : Text)
    → find (λ r. r.id == role.id) roles ≡ some role
    → box (some (patched role.id p roles)) j q
      ≡ (if (role.id == j) && is q p then not (box (some roles) j q) else box (some roles) j q)
box-patched role p roles j q found = elim (Bool-cases (role.id == j)) [
  | inl e ↦
      let same = (==_iff role.id j).0 e in
      let here : find (λ r. r.id == j) roles ≡ some role =
        ap (λ i. find (λ r. r.id == i) roles) (sym same) ∙ found in
      rw (find-patched role.id j p roles, e, here)
        (unfold clicked in includes-toggled p q role.permissions)
  | inr e ↦ rw (find-patched role.id j p roles, e) refl
]

module _ (client : QueryClient (List Role)) (c : client.Cache) (roles : List Role) (role : Role)
    (p : Text) where
  -- Where the cache holds the roles, and the role that is clicked is the one with its id there: while the
  -- request is under way, the box of that role and that permission is turned over and no other box of any role,
  -- and the request names the role and asks for exactly the permissions whose boxes are ticked at it. When it
  -- fails and nothing else changed the cache, every query has again its old data.
  pub matrix_shows_request :
      (k j : ℕ) (q : Text)
      → client.get_data roles_key c ≡ some roles
      → find (λ r. r.id == role.id) roles ≡ some role
      → let (previous, changed) = mutate client role p c in
        let shown = client.get_data roles_key changed in
        (box shown j q
          ≡ (if (role.id == j) && is q p then not (box (some roles) j q) else box (some roles) j q))
        × ((matrix_request role p).0 ≡ role.id)
        × (includes q (matrix_request role p).1.permissions ≡ box shown role.id q)
        × (client.get_data k (roll_back client previous changed) ≡ client.get_data k c)
  unfolding mutate roll_back matrix_request
  matrix_shows_request k j q h found =
      let written : client.get_data roles_key (mutate client role p c).1
          ≡ some (patched role.id p roles) =
        rw h (client.get_data-set_data roles_key roles_key (patched role.id p roles) c) in
      let own = ap (λ o. box o role.id q) written ∙ box-patched role p roles role.id q found in
      let before : box (some roles) role.id q ≡ includes q role.permissions =
        ap (λ o. allows o q) found in
      (
        ap (λ o. box o j q) written ∙ box-patched role p roles j q found,
        refl,
        ground (arith, own, before, includes-toggled p q role.permissions),
        rw h (
            ground (
              arith,
              client.get_data-set_data roles_key k roles
                  (client.set_data roles_key (patched role.id p roles) c),
              client.get_data-set_data roles_key k (patched role.id p roles) c,
              ==_iff roles_key k,
              h,
            )),
      )

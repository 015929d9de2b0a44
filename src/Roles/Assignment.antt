-- ===== src/Roles/Assignment.antt =====
-- apps/web-admin-roles/src/RolesPage.tsx: the users of a role, `loadUsers`, `RoleUsersModal` and
-- `DeleteRoleModal`.
pub mod Loading
use go_platform_starter.Prelude.{
  ℕ, zero, suc, ◌+◌, Bool, true, false, not, ◌&&◌, ◌||◌, Option, none, some, List, [], ◌∷◌, ◌++◌,
  map, leb, ◌==◌, if◌then◌else◌, length, filter, get_or_else, ℕ_key, includes, unique, Text,
  is_empty,
}
use go_platform_starter.Roles.{Role}

-- An answer to the request for the users from an offset on: its items, and the total, where they are
-- given.
pub record Page (A : Type 0) : Type 0 where
  pub items : Option (List A)
  pub total : Option ℕ

-- How the loading ends: with the users, with an error, or not within the fuel.
pub data Loaded (A : Type 0) : Type 0 where
  users : List A → Loaded A
  load_failed out_of_fuel : Loaded A

abbrev pub is_empty_page : {A : Type 0} → List A → Bool
is_empty_page [] = true
is_empty_page (_ ∷ _) = false

module _ {A : Type 0} (serve : ℕ → Option (Page A)) where
  abbrev items_of : Page A → List A
  items_of page = get_or_else page.items []

  -- `all.length >= (page.meta?.total ?? all.length) || !page.items?.length`
  abbrev pub is_last : Page A → List A → Bool
  is_last page all =
      leb (get_or_else page.total (length all)) (length all) || is_empty_page (items_of page)

  -- The loop of `loadUsers`, from an offset and with the users that have come before.
  unfoldable pub load_from : ℕ → ℕ → List A → Loaded A
  load_from zero offset all = out_of_fuel
  load_from (suc fuel) offset all = elim (serve offset) [
    | none ↦ load_failed
    | some page ↦
        let all' = all ++ items_of page in
        let rest = load_from fuel (offset + 50) all' in
        if is_last page all' then users all' else rest
  ]

  -- `loadUsers`
  unfoldable pub load_users : ℕ → Loaded A
  unfolding load_from
  load_users fuel = load_from fuel 0 []

-- The role ids that `assign` and `bulk` send for a user with these roles.
unfoldable pub assigned_role_ids : Bool → ℕ → List ℕ → List ℕ
assigned_role_ids add role current =
    if add then unique (current ++ role ∷ []) else filter (λ id. not (id == role)) current

-- `fallbacks` in `DeleteRoleModal`.
unfoldable pub fallbacks : Role → List Role → List Role
fallbacks role roles = filter (λ item. not (item.id == role.id) && not item.archived) roles

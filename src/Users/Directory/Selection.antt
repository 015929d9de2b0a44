-- ===== src/Users/Directory/Selection.antt =====
-- Selecting, and the roles that a bulk assignment gives.
use go_platform_starter.Prelude.{
  ℕ, true, not, ◌||◌, [], ◌∷◌, ◌++◌, ◌≡◌, refl, arith, ◌==◌, if◌then◌else◌, ℕ_key, includes,
  includes-toggle, includes-unique, includes-append, distinct, distinct-unique_from, toggle,
}
use go_platform_starter.Users.Directory.{Profile, Directory, toggle_selected, bulk_role_ids}

-- A click on the box of a user changes whether that user is selected, and nobody else; twice restores
-- the selection of everybody.
toggle_selected_twice :
    (id other : ℕ) (d : Directory)
    → (includes other (toggle_selected id d).selected_ids ≡ (
        if id == other then not (includes other d.selected_ids) else includes other d.selected_ids))
      × (includes other (toggle_selected id (toggle_selected id d)).selected_ids
          ≡ includes other d.selected_ids)
unfolding toggle_selected
toggle_selected_twice id other d = (
  includes-toggle id other d.selected_ids,
  ground (
    arith,
    includes-toggle id other d.selected_ids,
    includes-toggle id other (toggle id d.selected_ids),
  ),
)

-- A bulk assignment sends for each user exactly the roles that the user has and the chosen one, each
-- once.
includes-bulk_role_ids :
    (role r : ℕ) (u : Profile)
    → (includes r (bulk_role_ids role u) ≡ (includes r u.role_ids || r == role))
      × (distinct (bulk_role_ids role u) ≡ true)
unfolding bulk_role_ids
includes-bulk_role_ids role r u = (
  ground (
    arith,
    includes-unique r (u.role_ids ++ role ∷ []),
    includes-append r u.role_ids (role ∷ []),
  ),
  distinct-unique_from [] (u.role_ids ++ role ∷ []) refl,
)

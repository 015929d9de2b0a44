-- ===== src/Users/Deletion/Undo.antt =====
-- The sets of marked users.
use go_platform_starter.Prelude.{
  ℕ, Bool, true, false, not, ◌||◌, List, [], ◌∷◌, ◌≡◌, ◌≢◌, ◌↔◌, refl, arith, ℕ_key, includes,
  includes-filter, includes-unique_from, unique_from,
}
use go_platform_starter.Users.Deletion.{
  Call, delete_sessions, delete_user, delete_one, Marks, queue, undo, fail,
}

-- Undoing a deletion of users of whom none was queued before leaves exactly those queued that were
-- queued before; while it is queued, exactly those and its own are.
includes-undo-queue :
    (ids : List ℕ) (m : Marks) (i : ℕ)
    → ((j : ℕ) → includes j ids ≡ true → includes j m.pending ≡ false)
    → (includes i (undo ids (queue ids m)).pending ≡ includes i m.pending)
      × (includes i (queue ids m).pending ≡ (includes i m.pending || includes i ids))
unfolding undo queue
includes-undo-queue ids m i fresh =
    let kept = includes-filter (λ j. not (includes j ids)) i (unique_from m.pending ids) in
    let both = includes-unique_from i m.pending ids in (ground (arith, kept, fresh i, both), both)

-- When one deletion fails while another is queued, the users of the other are no longer marked as
-- queued, though its timer still runs.
fail_forgets_queued :
    (ids others : List ℕ) (m : Marks) (i : ℕ)
    → includes i others ≡ true
    → (includes i (queue others (queue ids m)).pending ≡ true)
      × (includes i (fail (queue others (queue ids m))).pending ≡ false)
unfolding queue fail
fail_forgets_queued ids others m i h =
    let both = includes-unique_from i (queue ids m).pending others in (ground (arith, both), refl)

-- The sessions of a user are revoked before the user is deleted, and a user whose sessions could not
-- be revoked is not deleted; the deletion succeeds exactly if both requests do.
delete_one_order :
    (sessions_ok user_ok : Bool) (id : ℕ)
    → let (calls, done) = delete_one sessions_ok user_ok id in
      ((rest : List Call) × (calls ≡ delete_sessions id ∷ rest)
        × ((rest ≢ []) ↔ (sessions_ok ≡ true)))
      × ((done ≡ true) ↔ ((sessions_ok ≡ true) × (user_ok ≡ true)))
unfolding delete_one
delete_one_order true user_ok id = (
  (delete_user id ∷ [], refl, ((λ h. refl), (λ h. ground arith))),
  ((λ h. (refl, h)), (λ h. h.1)),
)
delete_one_order false user_ok id = (
  ([], refl, ((λ h. absurd (h refl)), (λ h. ground arith))),
  ((λ h. ground arith), (λ h. ground arith)),
)

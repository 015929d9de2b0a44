-- ===== src/Users/Deletion.antt =====
-- apps/web-admin-users/src/UsersPage.tsx: the deletion of users, which waits five seconds, is shown at
-- once, and is rolled back when it fails.
pub mod Rollback
pub mod Undo
use go_platform_starter.Prelude.{
  ℕ, ◌-◌, Bool, true, false, not, ◌&&◌, List, [], ◌∷◌, ◌++◌, map, if◌then◌else◌, filter, all,
  length, ℕ_key, includes, unique_from, Option, none, some, Text, Text_key, is, decimal, codes,
  is_empty,
}
use go_platform_starter.QueryClient.{QueryClient, get_queries_data, restore}
use go_platform_starter.Users.Directory.{Profile}

-- The data of a query of the directory: its items, and the total of its meta data.
pub record UserPage : Type 0 where
  pub items : List Profile
  pub total : ℕ

-- The updater of `setQueriesData`.
unfoldable pub without_users : List ℕ → UserPage → UserPage
without_users ids page = record {
  items = filter (λ u. not (includes u.id ids)) page.items;
  total = page.total - length ids;
}

-- A request of the mutation.
pub data Call : Type 0 where
  delete_sessions delete_user : ℕ → Call

-- The mutation for one user: its requests, and whether it succeeds. The arguments say which of the
-- two requests would succeed.
unfoldable pub delete_one : Bool → Bool → ℕ → List Call × Bool
delete_one sessions_ok user_ok id =
    if sessions_ok
    then (delete_sessions id ∷ delete_user id ∷ [], user_ok)
    else (delete_sessions id ∷ [], false)

-- The sets `pendingDeleteIds` and `selectedIds`.
pub record Marks : Type 0 where
  pub pending : List ℕ
  pub selected : List ℕ

-- `new Set([...current, ...ids])`
unfoldable pub queue : List ℕ → Marks → Marks
queue ids m = record m { pending = unique_from m.pending ids }

-- `for (const id of ids) next.delete(id)`
abbrev pub delete_all : List ℕ → List ℕ → List ℕ
delete_all ids pending = filter (λ i. not (includes i ids)) pending

-- The undo of the toast, which also clears the timer.
unfoldable pub undo : List ℕ → Marks → Marks
undo ids m = record m { pending = delete_all ids m.pending }

-- `onSuccess`
unfoldable pub succeed : List ℕ → Marks → Marks
succeed ids m = record { pending = delete_all ids m.pending; selected = [] }

-- `onError`, on the sets.
unfoldable pub fail : Marks → Marks
fail m = record m { pending = [] }

module _ (client : QueryClient UserPage) where
  -- `onMutate`: the previous data, and the cache with the users taken out.
  unfoldable pub mutate : List ℕ → client.Cache → List (ℕ × Option UserPage) × client.Cache
  mutate ids c = (get_queries_data client c, client.update_all (without_users ids) c)

  -- `onError`, on the cache.
  unfoldable pub roll_back : List (ℕ × Option UserPage) → client.Cache → client.Cache
  roll_back previous c = restore client previous c

-- What `requestDelete` wants typed.
unfoldable pub expected_text : List Profile → Text
expected_text (u ∷ []) = u.email
expected_text targets = codes "DELETE " ++ decimal (length targets)

-- `requestDelete`, given what is typed, with `none` for a dismissed prompt, and the answer to the
-- second question: the ids that are queued.
unfoldable pub request_delete : Option Text → Bool → List Profile → List ℕ
unfolding expected_text
request_delete typed confirmed [] = []
request_delete none confirmed (u ∷ targets) = []
request_delete (some text) confirmed (u ∷ targets) =
    if is text (expected_text (u ∷ targets)) && confirmed then map (λ v. v.id) (u ∷ targets) else []

-- ===== src/QueryClient.antt =====
-- The query cache of @tanstack/react-query, which the admin pages read and write and which is not part
-- of the repository: an interface with the behaviour that its documentation states.
use go_platform_starter.Prelude.{
  ℕ, false, Option, none, some, List, [], ◌∷◌, ◌≡◌, refl, ◌==◌, if◌then◌else◌, map, includes, ℕ_key,
  arith, Option-cases, inl, inr,
}

abbrev pub map_option {ℓ κ} : {A : Type ℓ} {B : Type κ} → (A → B) → Option A → Option B
map_option f none = none
map_option f (some a) = some (f a)

-- `D` is the type of the data; a number stands for a query key.
pub record QueryClient (D : Type 0) : Type 1 where
  pub Cache : Type 0
  -- the keys of the queries under one prefix, such as `["users"]`
  pub keys : Cache → List ℕ
  -- `getQueryData`
  pub get_data : ℕ → Cache → Option D
  -- `setQueryData`, of a value that is not `undefined`
  pub set_data : ℕ → D → Cache → Cache
  -- `setQueriesData` for the prefix, of an updater that keeps `undefined`
  pub update_all : (D → D) → Cache → Cache
  pub get_data-set_data :
      (j k : ℕ) (d : D) (c : Cache)
      → get_data k (set_data j d c) ≡ (if j == k then some d else get_data k c)
  pub get_data-update_all :
      (f : D → D) (k : ℕ) (c : Cache)
      → get_data k (update_all f c)
        ≡ (if includes k (keys c) then map_option f (get_data k c) else get_data k c)

module _ {D : Type 0} (client : QueryClient D) where
  open client use {Cache, keys, get_data, set_data, update_all, get_data-set_data}

  abbrev snapshot : List ℕ → Cache → List (ℕ × Option D)
  snapshot ks c = map (λ k. (k, get_data k c)) ks

  -- `getQueriesData` for the prefix.
  abbrev pub get_queries_data : Cache → List (ℕ × Option D)
  get_queries_data c = snapshot (keys c) c

  -- `setQueryData(key, data)`, which does nothing for `undefined`.
  abbrev set_option : ℕ → Option D → Cache → Cache
  set_option k none c = c
  set_option k (some d) c = set_data k d c

  -- `for (const [key, data] of previous) queryClient.setQueryData(key, data)`
  pub restore : List (ℕ × Option D) → Cache → Cache
  restore [] c = c
  restore ((k, d) ∷ previous) c = restore previous (set_option k d c)

  -- What is there after restoring a snapshot of `before` at the keys `ks`.
  pub get_data-restore :
      (ks : List ℕ) (before c : Cache) (k : ℕ)
      → (includes k ks ≡ false → get_data k c ≡ get_data k before)
      → (get_data k before ≡ none → get_data k c ≡ none)
      → get_data k (restore (snapshot ks before) c) ≡ get_data k before
  unfolding restore
  get_data-restore [] before c k same none_kept = same refl
  get_data-restore (j ∷ ks) before c k same none_kept =
      get_data-restore ks before (set_option j (get_data j before) c) k
        (λ h. ground (arith, step, same)) (λ h. ground (arith, step, none_kept h))
    where
      step : get_data k (set_option j (get_data j before) c) ≡ elim (get_data j before) [
        | none ↦ get_data k c
        | some d ↦ if j == k then some d else get_data k c
      ]
      step = elim (Option-cases (get_data j before)) [
        | inl e ↦ rw e refl
        | inr (d, e) ↦ rw e (get_data-set_data j k d c)
      ]

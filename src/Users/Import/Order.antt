-- ===== src/Users/Import/Order.antt =====
-- Which calls the flows send, and in which order.
use go_platform_starter.Prelude.{
  ℕ, suc, ◌+◌, true, false, none, some, List, [], ◌∷◌, ◌++◌, append_assoc, append-nil, map, ◌≡◌,
  ◌≢◌, ◌↔◌, ◌⊎◌, refl, sym, ap, arith, Text, is_empty, filter, Bool-cases, length, Option-cases,
  inl, inr,
}
use go_platform_starter.Users.Csv.{ImportRow}
use go_platform_starter.Users.Import.{
  Call, register, update, confirm_password, set_password, set_roles, Backend, done, failed,
  is_complete, import_row, import_rows, RowOutcome, skipped, created, stopped, Failure,
  save_profile, save_confirmed, email_changed, no_confirmation, details,
}

-- The users that the calls register.
pub registered : List Call → List (Text × Text)
registered [] = []
registered (register e p ∷ calls) = (e, p) ∷ registered calls
registered (_ ∷ calls) = registered calls

abbrev pub account : ImportRow → Text × Text
account row = (row.email, row.password)

registered-append : (xs ys : List Call) → registered (xs ++ ys) ≡ registered xs ++ registered ys
unfolding registered
registered-append [] ys = refl
registered-append (register e p ∷ xs) ys = ap (λ l. (e, p) ∷ l) (registered-append xs ys)
registered-append (update _ _ _ _ ∷ xs) ys = registered-append xs ys
registered-append (confirm_password _ ∷ xs) ys = registered-append xs ys
registered-append (set_password _ _ ∷ xs) ys = registered-append xs ys
registered-append (set_roles _ _ ∷ xs) ys = registered-append xs ys

module _ (backend : Backend) where
  import_row-skipped :
      (row : ImportRow) (log : List Call)
      → (import_row backend row log).1 ≡ skipped
      → (is_complete row ≡ false) × ((import_row backend row log).0 ≡ log)
  unfolding import_row
  import_row-skipped row log h = (ground arith, ground arith)

  details-registered :
      (id : ℕ) (name avatar : Text) (log : List Call)
      → registered (details backend id name avatar log).0 ≡ registered log
  unfolding registered
  details-registered id name avatar log =
      let one = registered-append log (update id none name avatar ∷ []) in
      ground (arith, one, append-nil (registered log))

  import_row-created :
      (row : ImportRow) (log : List Call)
      → (import_row backend row log).1 ≡ created
      → (is_complete row ≡ true)
        × (registered (import_row backend row log).0 ≡ registered log ++ account row ∷ [])
  unfolding import_row registered
  import_row-created row log h =
      elim (Option-cases (backend log (register row.email row.password))) [
        | inl e ↦ absurd (ground arith)
        | inr (id, e) ↦
            let log' = log ++ register row.email row.password ∷ [] in
            let one = registered-append log (register row.email row.password ∷ []) in
            let two = details-registered id row.display_name row.avatar_url log' in
            (ground arith, ground arith)
      ]

  RowOutcome-cases :
      (o : RowOutcome) → (o ≡ skipped) ⊎ (o ≡ created) ⊎ ((e : Failure) × (o ≡ stopped e))
  RowOutcome-cases skipped = inl refl
  RowOutcome-cases created = inr (inl refl)
  RowOutcome-cases (stopped e) = inr (inr (e, refl))

  -- When an import ends with no error, it has registered exactly the rows that have an address and a
  -- password, each once and in their order, and reports their number.
  import_rows-registered :
      (rows : List ImportRow) (n m : ℕ) (log : List Call)
      → (import_rows backend rows n log).1 ≡ done m
      → (registered (import_rows backend rows n log).0
          ≡ registered log ++ map account (filter is_complete rows))
        × (m ≡ n + length (filter is_complete rows))
  unfolding import_rows
  import_rows-registered [] n m log h = (sym (append-nil (registered log)), ground arith)
  import_rows-registered (row ∷ rows) n m log h =
      elim (RowOutcome-cases (import_row backend row log).1) [
        | inl e ↦
            let (skip, same) = import_row-skipped row log e in
            let (a, b) =
              import_rows-registered rows n m (import_row backend row log).0 (ground arith) in
            (ground arith, ground arith)
        | inr (inl e) ↦
            let (full, one) = import_row-created row log e in
            let (a, b) =
              import_rows-registered rows (suc n) m (import_row backend row log).0 (ground arith) in
            (
              ground (
                arith,
                append_assoc (registered log) (account row ∷ [])
                    (map account (filter is_complete rows)),
              ),
              ground arith,
            )
        | inr (inr (x, e)) ↦ absurd (ground arith)
      ]

  save_confirmed-log :
      (id : ℕ) (email name avatar new_password : Text) (log : List Call)
      → let (calls, outcome) = save_confirmed backend id email name avatar new_password log in
        ((rest : List Call) × (calls ≡ log ++ rest)) × (outcome ≢ failed no_confirmation)
  save_confirmed-log id email name avatar new_password log =
      elim (Option-cases (backend log (update id (some email) name avatar))) [
        | inl e ↦ ((update id (some email) name avatar ∷ [], ground arith), ground arith)
        | inr (n, e) ↦ elim (Bool-cases (is_empty new_password)) [
          | inl k ↦ ((update id (some email) name avatar ∷ [], ground arith), ground arith)
          | inr k ↦
              let calls = update id (some email) name avatar ∷ set_password id new_password ∷ [] in
              let more =
                append_assoc log (update id (some email) name avatar ∷ [])
                  (set_password id new_password ∷ []) in
              ((calls, ground arith), ground arith)
        ]
      ]

  -- A profile whose address changes is saved only behind the password of the administrator: that is
  -- the first call, and the save ends with no further call exactly where it is refused.
  save_profile_confirms :
      (lower : Text → Text) (id : ℕ) (old email name avatar new_password admin_password : Text)
      (log : List Call)
      → email_changed lower old email ≡ true
      → let (calls, outcome) =
          save_profile backend lower id old email name avatar new_password admin_password log in
        ((rest : List Call) × (calls ≡ log ++ confirm_password admin_password ∷ rest))
        × ((backend log (confirm_password admin_password) ≡ none)
            ↔ (outcome ≡ failed no_confirmation))
        × ((calls ≡ log ++ confirm_password admin_password ∷ [])
            ⊎ (outcome ≢ failed no_confirmation))
  unfolding save_profile
  save_profile_confirms lower id old email name avatar new_password admin_password log h =
      let ask = confirm_password admin_password in
      elim (Option-cases (backend log ask)) [
        | inl refused ↦
            (([], ground arith), ((λ k. ground arith), (λ k. refused)), inl (ground arith))
        | inr (n, fine) ↦
            let ((rest, e), other) =
              save_confirmed-log id email name avatar new_password (log ++ ask ∷ []) in
            let all = append_assoc log (ask ∷ []) rest in
            (
              (rest, ground arith),
              ((λ k. ground arith), (λ k. absurd (other (ground arith)))),
              inr (λ k. other (ground arith)),
            )
      ]

-- ===== src/Users/Import.antt =====
-- apps/web-admin-users/src/UsersPage.tsx: the flows that send several requests one after another: the
-- import of a CSV file, the saving of a profile, and the registering of a user. The backend is a
-- parameter: what it answers to a call may depend on the calls before.
pub mod Order
use go_platform_starter.Prelude.{
  ℕ, suc, ◌+◌, Bool, true, false, not, ◌&&◌, ◌||◌, Option, none, some, List, [], ◌∷◌, ◌++◌, map,
  if◌then◌else◌, Text, text_same, is_empty, trim,
}
use go_platform_starter.Users.Csv.{ImportRow, parse_csv}

pub data Call : Type 0 where
  register : Text → Text → Call
  update : ℕ → Option Text → Text → Text → Call
  confirm_password : Text → Call
  set_password : ℕ → Text → Call
  set_roles : ℕ → List ℕ → Call

-- The answer to a call after the calls in the log: `none` for an error, and otherwise a number, which
-- is the new user's id for a registration.
abbrev pub Backend : Type 0
Backend = List Call → Call → Option ℕ

-- How a flow went: its value, or the step whose error it throws.
pub data Failure : Type 0 where
  no_registration no_profile no_password no_roles no_confirmation : Failure

pub data Outcome (A : Type 0) : Type 0 where
  done : A → Outcome A
  failed : Failure → Outcome A

-- What the import made of a row.
pub data RowOutcome : Type 0 where
  skipped created : RowOutcome
  stopped : Failure → RowOutcome

-- `if (!row.email || !row.password) continue`, turned round.
abbrev pub is_complete : ImportRow → Bool
is_complete row = not (is_empty row.email || is_empty row.password)

-- `emailChanged`; `lower` is `toLowerCase`.
abbrev pub email_changed : (Text → Text) → Text → Text → Bool
email_changed lower old email = not (text_same (lower (trim email)) (lower (trim old)))

module _ (backend : Backend) where
  -- Sending a call: the log, and the answer.
  abbrev pub send : Call → List Call → List Call × Option ℕ
  send call log = (log ++ call ∷ [], backend log call)

  -- The details of a new user, if there are any; the request leaves the address out.
  abbrev pub details : ℕ → Text → Text → List Call → List Call × Bool
  details id name avatar log =
      if is_empty name && is_empty avatar
      then (log, true)
      else let (log', answer) = send (update id none name avatar) log in
        (log', elim answer [ none ↦ false | some _ ↦ true ])

  -- One round of the loop of `importCsv`.
  unfoldable pub import_row : ImportRow → List Call → List Call × RowOutcome
  import_row row log =
      if not (is_complete row)
      then (log, skipped)
      else let (log', answer) = send (register row.email row.password) log in
        elim answer [
          | none ↦ (log', stopped no_registration)
          | some id ↦
              let (log'', ok) = details id row.display_name row.avatar_url log' in
              (log'', if ok then created else stopped no_profile)
        ]

  -- The loop of `importCsv`, with the number of users that it has created.
  unfoldable pub import_rows : List ImportRow → ℕ → List Call → List Call × Outcome ℕ
  unfolding import_row
  import_rows [] n log = (log, done n)
  import_rows (row ∷ rows) n log =
      let (log', outcome) = import_row row log in
      elim outcome [
        | skipped ↦ import_rows rows n log'
        | created ↦ import_rows rows (suc n) log'
        | stopped e ↦ (log', failed e)
      ]

  -- The mutation `save` of `RegisterUserModal`.
  unfoldable pub register_user :
      Text → Text → Text → Text → List ℕ → List Call → List Call × Outcome ℕ
  register_user email password name avatar role_ids log =
      let (log1, answer) = send (register email password) log in
      elim answer [
        | none ↦ (log1, failed no_registration)
        | some id ↦
            let (log2, ok) = details id name avatar log1 in
            if not ok then (log2, failed no_profile) else elim role_ids [
              | [] ↦ (log2, done id)
              | r ∷ rs ↦
                  let (log3, given) = send (set_roles id (r ∷ rs)) log2 in
                  (log3, elim given [ none ↦ failed no_roles | some _ ↦ done id ])
            ]
      ]

  -- The calls of `save` in `ProfileModal` after the confirmation.
  abbrev pub save_confirmed :
      ℕ → Text → Text → Text → Text → List Call → List Call × Outcome (Unit {0})
  save_confirmed id email name avatar new_password log =
      let (log1, updated) = send (update id (some email) name avatar) log in
      elim updated [
        | none ↦ (log1, failed no_profile)
        | some _ ↦
            if is_empty new_password
            then (log1, done tt)
            else let (log2, answer) = send (set_password id new_password) log1 in
              (log2, elim answer [ none ↦ failed no_password | some _ ↦ done tt ])
      ]

  -- The mutation `save` of `ProfileModal`, for the user with this id and the address `old`.
  unfoldable pub save_profile :
      (Text → Text)
      → ℕ
      → Text
      → Text
      → Text
      → Text
      → Text
      → Text
      → List Call
      → List Call × Outcome (Unit {0})
  save_profile lower id old email name avatar new_password admin_password log =
      if email_changed lower old email
      then (let (log1, answer) = send (confirm_password admin_password) log in
          elim answer [
            | none ↦ (log1, failed no_confirmation)
            | some _ ↦ save_confirmed id email name avatar new_password log1
          ])
      else save_confirmed id email name avatar new_password log

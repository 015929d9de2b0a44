-- ===== src/Settings/Leaving.antt =====
-- What a failed request leaves of the settings page, and which actions end the session.
use go_platform_starter.Prelude.{
  Bool, true, false, ◌||◌, Option, none, some, List, [], ◌∷◌, any, ◌≡◌, arith, Text,
}
use go_platform_starter.Product.{Reply, done, failed, error}
use go_platform_starter.Settings.{
  Settings, show, Action, sessions_loaded, login_history_loaded, profile_loaded,
  notifications_loaded, finished_onboarding, notification_read, profile_saved,
  email_change_requested, recovery_codes_generated, password_changed, mfa_begun, mfa_verified,
  session_revoked, data_exported, account_erased, handle, run,
}

abbrev failure_of : {A : Type 0} → Reply A → Option (Option Text)
failure_of (done _) = none
failure_of (failed e) = some e

-- The error of the action's request, if it was sent and failed, and is shown.
abbrev pub failure : Action → Option (Option Text)
failure (sessions_loaded r) = none
failure (login_history_loaded r) = none
failure (profile_loaded r) = none
failure (notifications_loaded r) = none
failure (finished_onboarding r) = failure_of r
failure (notification_read id r) = failure_of r
failure (profile_saved r) = failure_of r
failure (email_change_requested r) = failure_of r
failure (recovery_codes_generated r) = failure_of r
failure (password_changed r) = failure_of r
failure (mfa_begun r) = failure_of r
failure (mfa_verified r) = failure_of r
failure (session_revoked id r) = failure_of r
failure (data_exported r) = failure_of r
failure (account_erased false r) = none
failure (account_erased true r) = failure_of r

-- A password that is changed, or an account whose erasure is approved, where the server agrees.
abbrev pub ends_session : Action → Bool
ends_session (password_changed (done _)) = true
ends_session (account_erased true (done _)) = true
ends_session _ = false

-- An action whose request fails with a message shows it and changes nothing else.
handle-failure :
    (a : Action) (message : Text) (s : Settings)
    → s.password_busy ≡ false
    → s.mfa_busy ≡ false
    → failure a ≡ some (some message)
    → handle a s ≡ show (error message) s
unfolding handle
handle-failure a message s p m f = ground arith

handle-signed_out :
    (a : Action) (s : Settings) → (handle a s).signed_out ≡ (s.signed_out || ends_session a)
unfolding handle
handle-signed_out a s = ground arith

-- Whatever is done on the page, it signs the user out just when the password was changed, or the account's
-- erasure approved and taken, and in no other case.
pub run-signed_out :
    (actions : List Action) (s : Settings)
    → (run actions s).signed_out ≡ (s.signed_out || any ends_session actions)
unfolding run
run-signed_out [] s = ground arith
run-signed_out (a ∷ actions) s =
    ground (arith, run-signed_out actions (handle a s), handle-signed_out a s)

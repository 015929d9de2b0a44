-- ===== src/Settings.antt =====
-- apps/web/src/App.tsx: the handlers of SettingsPage and what it loads at first, each with the reply to its
-- request. `logout` of the session is known only by its having been called.
pub mod Leaving
mod Tests
use go_platform_starter.Prelude.{
  ℕ, suc, ◌==◌, Bool, true, false, not, ◌||◌, Option, none, some, List, [], ◌∷◌, ◌++◌, map, filter,
  if◌then◌else◌, get_or_else, Text, codes,
}
use go_platform_starter.Product.{Reply, done, failed, Toast, success, error}

pub record Notification : Type 0 where
  pub id : ℕ
  pub status : Text

pub record Profile : Type 0 where
  pub display_name : Text
  pub avatar_url : Text

-- A profile as it is loaded.
pub record LoadedProfile : Type 0 where
  pub display_name : Option Text
  pub avatar_url : Option Text

pub record Settings : Type 0 where
  pub profile : Profile
  pub notifications : List Notification
  pub email_change : Text
  pub recovery_codes : List Text
  pub password_busy : Bool
  pub mfa : Option Text
  pub mfa_code : Text
  pub mfa_busy : Bool
  -- the ids of the sessions, and of the logins
  pub sessions : List ℕ
  pub login_history : List ℕ
  pub onboarding_done : Bool
  -- "user-onboarding-complete" is in the local storage
  pub onboarding_stored : Bool
  -- the texts that have been downloaded
  pub downloads : List Text
  pub signed_out : Bool
  -- where `navigate` has led
  pub path : Option Text
  pub toasts : List Toast

abbrev pub show : Toast → Settings → Settings
show t s = record s { toasts = t ∷ s.toasts }

-- The `catch` of a handler.
abbrev pub fail : Text → Option Text → Settings → Settings
fail fallback e s = show (error (get_or_else e fallback)) s

-- The effects: what cannot be loaded is left as it is.
abbrev load_sessions : Reply (Option (List ℕ)) → Settings → Settings
load_sessions (done items) s = record s { sessions = get_or_else items [] }
load_sessions (failed e) s = s

abbrev load_profile : Reply LoadedProfile → Settings → Settings
load_profile (done loaded) s = record s {
  profile = record {
    display_name = get_or_else loaded.display_name [];
    avatar_url = get_or_else loaded.avatar_url [];
  };
}
load_profile (failed e) s = s

abbrev load_history : Reply (Option (List ℕ)) → Settings → Settings
load_history (done items) s = record s { login_history = get_or_else items [] }
load_history (failed e) s = s

abbrev load_notifications : Reply (Option (List Notification)) → Settings → Settings
load_notifications (done items) s = record s { notifications = get_or_else items [] }
load_notifications (failed e) s = s

abbrev finish_onboarding : Reply Unit → Settings → Settings
finish_onboarding (done _) s =
    show (success (codes "Onboarding completed."))
      (record s { onboarding_done = true; onboarding_stored = true })
finish_onboarding (failed e) s = fail (codes "Could not save onboarding progress") e s

abbrev mark_read : ℕ → Notification → Notification
mark_read id n = if n.id == id then record n { status = codes "read" } else n

abbrev read_notification : ℕ → Reply Unit → Settings → Settings
read_notification id (done _) s = record s { notifications = map (mark_read id) s.notifications }
read_notification id (failed e) s = fail (codes "Could not update notification") e s

abbrev save_profile : Reply Profile → Settings → Settings
save_profile (done updated) s =
    show (success (codes "Profile updated.")) (record s { profile = updated })
save_profile (failed e) s = fail (codes "Could not update profile") e s

abbrev request_email_change : Reply Unit → Settings → Settings
request_email_change (done _) s =
    show (success (codes "Verification sent to the new address.")) (record s { email_change = [] })
request_email_change (failed e) s = fail (codes "Could not request email change") e s

abbrev generate_recovery_codes : Reply (Option (List Text)) → Settings → Settings
generate_recovery_codes (done new) s =
    show (success (codes "New recovery codes generated. Existing codes are now invalid."))
      (record s { recovery_codes = get_or_else new [] })
generate_recovery_codes (failed e) s = fail (codes "Could not generate recovery codes") e s

-- `logout` and `navigate("/login")`
abbrev leave : Settings → Settings
leave s = record s { signed_out = true; path = some (codes "/login") }

abbrev password_replied : Reply Unit → Settings → Settings
password_replied (done _) s =
    leave (show (success (codes "Password changed. Sign in again on every device.")) s)
password_replied (failed e) s = fail (codes "Could not change password") e s

abbrev change_password : Reply Unit → Settings → Settings
change_password r s = record (password_replied r (record s { password_busy = true })) {
  password_busy = false;
}

abbrev enroll_replied : Reply Text → Settings → Settings
enroll_replied (done enrolment) s = record s { mfa = some enrolment }
enroll_replied (failed e) s = fail (codes "Could not start MFA enrollment") e s

abbrev begin_mfa : Reply Text → Settings → Settings
begin_mfa r s = record (enroll_replied r (record s { mfa_busy = true })) { mfa_busy = false }

abbrev verify_replied : Reply Unit → Settings → Settings
verify_replied (done _) s =
    show (success (codes "Authenticator MFA enabled.")) (record s { mfa = none; mfa_code = [] })
verify_replied (failed e) s = fail (codes "Invalid authenticator code") e s

abbrev verify_mfa : Reply Unit → Settings → Settings
verify_mfa r s = record (verify_replied r (record s { mfa_busy = true })) { mfa_busy = false }

abbrev revoke_session : ℕ → Reply Unit → Settings → Settings
revoke_session id (done _) s =
    show (success (codes "Session revoked."))
      (record s { sessions = filter (λ other. not (other == id)) s.sessions })
revoke_session id (failed e) s = fail (codes "Could not revoke session") e s

abbrev export_data : Reply Text → Settings → Settings
export_data (done exported) s =
    show (success (codes "Your data export is ready."))
      (record s { downloads = exported ∷ s.downloads })
export_data (failed e) s = fail (codes "Could not export your data") e s

-- `eraseAccount`, with what the user answers to `confirm`
abbrev erase_account : Bool → Reply Unit → Settings → Settings
erase_account false r s = s
erase_account true (done _) s = leave s
erase_account true (failed e) s = fail (codes "Could not erase the account") e s

pub data Action : Type 0 where
  sessions_loaded login_history_loaded : Reply (Option (List ℕ)) → Action
  profile_loaded : Reply LoadedProfile → Action
  notifications_loaded : Reply (Option (List Notification)) → Action
  finished_onboarding : Reply Unit → Action
  notification_read : ℕ → Reply Unit → Action
  profile_saved : Reply Profile → Action
  email_change_requested : Reply Unit → Action
  recovery_codes_generated : Reply (Option (List Text)) → Action
  password_changed : Reply Unit → Action
  mfa_begun : Reply Text → Action
  mfa_verified : Reply Unit → Action
  session_revoked : ℕ → Reply Unit → Action
  data_exported : Reply Text → Action
  account_erased : Bool → Reply Unit → Action

unfoldable pub handle : Action → Settings → Settings
handle (sessions_loaded r) s = load_sessions r s
handle (login_history_loaded r) s = load_history r s
handle (profile_loaded r) s = load_profile r s
handle (notifications_loaded r) s = load_notifications r s
handle (finished_onboarding r) s = finish_onboarding r s
handle (notification_read id r) s = read_notification id r s
handle (profile_saved r) s = save_profile r s
handle (email_change_requested r) s = request_email_change r s
handle (recovery_codes_generated r) s = generate_recovery_codes r s
handle (password_changed r) s = change_password r s
handle (mfa_begun r) s = begin_mfa r s
handle (mfa_verified r) s = verify_mfa r s
handle (session_revoked id r) s = revoke_session id r s
handle (data_exported r) s = export_data r s
handle (account_erased approved r) s = erase_account approved r s

unfoldable pub run : List Action → Settings → Settings
unfolding handle
run [] s = s
run (a ∷ actions) s = run actions (handle a s)

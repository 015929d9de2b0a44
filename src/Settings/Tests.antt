-- ===== src/Settings/Tests.antt =====
-- Examples of the theorems on the settings page.
use go_platform_starter.Prelude.{true, false, none, some, List, [], ◌∷◌, ◌≡◌}
use go_platform_starter.Product.{done}
use go_platform_starter.Settings.{
  Settings, Action, sessions_loaded, session_revoked, password_changed, run,
}
use go_platform_starter.Settings.Leaving.{run-signed_out}

abbrev page : Settings
page = record {
  profile = record { display_name = []; avatar_url = [] };
  notifications = [];
  email_change = [];
  recovery_codes = [];
  password_busy = false;
  mfa = none;
  mfa_code = [];
  mfa_busy = false;
  sessions = [];
  login_history = [];
  onboarding_done = false;
  onboarding_stored = false;
  downloads = [];
  signed_out = false;
  path = none;
  toasts = [];
}

abbrev actions : List Action
actions =
    sessions_loaded (done (some (4 ∷ 5 ∷ [])))
    ∷ session_revoked 4 (done tt)
    ∷ password_changed (done tt)
    ∷ []

run-signed_out_example : (run actions page).signed_out ≡ true
run-signed_out_example = run-signed_out actions page

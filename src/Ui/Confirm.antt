-- ===== src/Ui/Confirm.antt =====
-- packages/ui/src/ui-system.tsx: `ConfirmProvider`, the promise of each `confirm`, and `trapTab`, which keeps
-- the focus in the dialog.
pub mod Answering
use go_platform_starter.Prelude.{ℕ, suc, Bool, true, false, Option, none, some, List, [], ◌∷◌, Text}

-- The dialog that is open; `ticket` stands for the promise's `resolve`.
pub record ConfirmState : Type 0 where
  pub message : Text
  pub danger : Bool
  pub ticket : ℕ

-- `calls` counts the calls of `confirm`, each of which has its promise; `answers` are the promises that have
-- been resolved, the newest first.
pub record Confirms : Type 0 where
  pub calls : ℕ
  pub state : Option ConfirmState
  pub answers : List (ℕ × Bool)

abbrev pub no_confirms : Confirms
no_confirms = record { calls = 0; state = none; answers = [] }

-- `confirm`
abbrev pub confirm : Text → Bool → Confirms → Confirms
confirm message danger s = record s {
  calls = suc s.calls;
  state = some (record { message = message; danger = danger; ticket = s.calls });
}

-- `close`
abbrev pub close : Bool → Confirms → Confirms
close ok s = record s {
  state = none;
  answers = elim s.state [ none ↦ s.answers | some c ↦ (c.ticket, ok) ∷ s.answers ];
}

pub data ConfirmEvent : Type 0 where
  asked : Text → Bool → ConfirmEvent
  -- the keys, and the two buttons
  escaped entered cancelled accepted : ConfirmEvent

-- The key handler is there only while a dialog is open.
abbrev pub when_open : Bool → Confirms → Confirms
when_open ok s = elim s.state [ none ↦ s | some _ ↦ close ok s ]

abbrev pub handle : ConfirmEvent → Confirms → Confirms
handle (asked message danger) s = confirm message danger s
handle escaped s = when_open false s
handle entered s = when_open true s
handle cancelled s = when_open false s
handle accepted s = when_open true s

unfoldable pub run : List ConfirmEvent → Confirms → Confirms
run [] s = s
run (e ∷ events) s = run events (handle e s)

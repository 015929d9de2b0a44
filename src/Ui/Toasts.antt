-- ===== src/Ui/Toasts.antt =====
-- packages/ui/src/ui-system.tsx: `ToastProvider`. What an action runs is outside, and so is drawing.
pub mod Fading
use go_platform_starter.Prelude.{
  ℕ, suc, ◌+◌, ◌==◌, ◌&&◌, Bool, true, false, not, Option, none, some, List, [], ◌∷◌, ◌++◌,
  if◌then◌else◌, filter, any, leb, get_or_else, Text, codes, is_empty,
}

pub data ToastKind : Type 0 where
  success error info : ToastKind

-- `action` is the label of the button.
pub record ToastItem : Type 0 where
  pub id : ℕ
  pub kind : ToastKind
  pub message : Text
  pub action : Option Text

-- A timer is the time at which it runs and the id that it takes off.
abbrev pub Timer : Type 0
Timer = ℕ × ℕ

-- `toastId`, `items` and the timers that are set.
pub record Toasts : Type 0 where
  pub toast_id : ℕ
  pub items : List ToastItem
  pub timers : List Timer

abbrev pub no_toasts : Toasts
no_toasts = record { toast_id = 0; items = []; timers = [] }

-- `toast`; a toast with an action stays until the action is taken.
abbrev pub toast : ℕ → ToastKind → Text → Option Text → Toasts → Toasts
toast now kind message action s =
    let id = suc s.toast_id in
    record {
      toast_id = id;
      items = s.items ++ record { id = id; kind = kind; message = message; action = action } ∷ [];
      timers = elim action [ none ↦ (now + 4500, id) ∷ s.timers | some _ ↦ s.timers ];
    }

-- `toast.undo`
abbrev pub undo : ℕ → Text → Option ℕ → Toasts → Toasts
undo now message timeout s =
    let id = suc s.toast_id in
    record {
      toast_id = id;
      items =
          s.items
          ++ record { id = id; kind = info; message = message; action = some (codes "Undo") } ∷ [];
      timers = (now + get_or_else timeout 5500, id) ∷ s.timers;
    }

-- `receive`, of a "starter:toast-request"
abbrev pub receive : ℕ → Option ToastKind → Option Text → Toasts → Toasts
receive now kind none s = s
receive now kind (some message) s =
    if is_empty message then s else toast now (get_or_else kind info) message none s

-- `setItems((cur) => cur.filter((t) => t.id !== id))`, after an action
abbrev pub take_action : ℕ → Toasts → Toasts
take_action id s = record s { items = filter (λ t. not (t.id == id)) s.items }

abbrev pub is_due : ℕ → Timer → Bool
is_due now timer = leb timer.0 now

-- A timer of the toast is due.
abbrev pub due : ℕ → List Timer → ToastItem → Bool
due now timers t = any (λ timer. timer.1 == t.id && is_due now timer) timers

-- The timers that are due at the time run.
abbrev pub settle : ℕ → Toasts → Toasts
settle now s = record {
  toast_id = s.toast_id;
  items = filter (λ t. not (due now s.timers t)) s.items;
  timers = filter (λ timer. not (is_due now timer)) s.timers;
}

pub data ToastEvent : Type 0 where
  toasted : ToastKind → Text → Option Text → ToastEvent
  undoable : Text → Option ℕ → ToastEvent
  requested : Option ToastKind → Option Text → ToastEvent
  action_taken : ℕ → ToastEvent

abbrev pub handle : ℕ → ToastEvent → Toasts → Toasts
handle now (toasted kind message action) s = toast now kind message action s
handle now (undoable message timeout) s = undo now message timeout s
handle now (requested kind message) s = receive now kind message s
handle now (action_taken id) s = take_action id s

-- Events with their times; the timers that are due run first.
unfoldable pub run : List (ℕ × ToastEvent) → Toasts → Toasts
run [] s = s
run ((now, e) ∷ events) s = run events (handle now e (settle now s))

-- ===== src/Ui/Toasts/Fading.antt =====
-- Which toasts go away by themselves.
use go_platform_starter.Prelude.{
  ℕ, suc, ◌+◌, ◌≤◌, ◌==◌, ◌||◌, Bool, true, false, not, Option, none, some, List, [], ◌∷◌, ◌≡◌,
  refl, arith, filter, get_or_else, All, All-map, All-append, All-filter_map, Text,
}
use go_platform_starter.Ui.Toasts.{
  ToastKind, ToastItem, Timer, Toasts, no_toasts, toast, is_due, due, settle, ToastEvent, toasted,
  undoable, requested, action_taken, handle, run,
}

abbrev pub has_action : ToastItem → Bool
has_action t = elim t.action [ none ↦ false | some _ ↦ true ]

-- The toast has an action, or a timer that runs by the time.
abbrev IsFading : ℕ → List Timer → ToastItem → Type 0
IsFading by timers t = (has_action t || due by timers t) ≡ true

abbrev AreFading : ℕ → Toasts → Type 0
AreFading by s = All (IsFading by s.timers) s.items

still_due :
    (by now : ℕ) (timers : List Timer) (t : ToastItem)
    → due by timers t ≡ true
    → due now timers t ≡ false
    → due by (filter (λ timer. not (is_due now timer)) timers) t ≡ true
still_due by now [] t h k = h
still_due by now (timer ∷ timers) t h k = ground (arith, still_due by now timers t)

settle-AreFading : (by now : ℕ) (s : Toasts) → AreFading by s → AreFading by (settle now s)
settle-AreFading by now s =
    All-filter_map (IsFading by s.timers) (IsFading by (settle now s).timers)
      (λ t. not (due now s.timers t)) (λ t e h. ground (arith, still_due by now s.timers t)) s.items

-- A later timer takes nothing from the others.
more_timers :
    (by : ℕ) (timer : Timer) (timers : List Timer) (items : List ToastItem)
    → All (IsFading by timers) items
    → All (IsFading by (timer ∷ timers)) items
more_timers by timer timers =
    All-map (IsFading by timers) (IsFading by (timer ∷ timers)) (λ t h. ground arith)

toast-AreFading :
    (by now : ℕ) (kind : ToastKind) (message : Text) (action : Option Text) (s : Toasts)
    → now + 4500 ≤ by
    → AreFading by s
    → AreFading by (toast now kind message action s)
toast-AreFading by now kind message none s l h =
    All-append (IsFading by ((now + 4500, suc s.toast_id) ∷ s.timers)) s.items _
      (more_timers by (now + 4500, suc s.toast_id) s.timers s.items h) (ground arith, tt)
toast-AreFading by now kind message (some a) s l h =
    All-append (IsFading by s.timers) s.items _ h (refl, tt)

handle-AreFading :
    (by now : ℕ) (e : ToastEvent) (s : Toasts)
    → now + 4500 ≤ by
    → AreFading by s
    → AreFading by (handle now e s)
handle-AreFading by now (toasted kind message action) s l h =
    toast-AreFading by now kind message action s l h
handle-AreFading by now (undoable message timeout) s l h =
    let timer : Timer = (now + get_or_else timeout 5500, suc s.toast_id) in
    All-append (IsFading by (timer ∷ s.timers)) s.items _ (more_timers by timer s.timers s.items h)
      (refl, tt)
handle-AreFading by now (requested kind none) s l h = h
handle-AreFading by now (requested kind (some [])) s l h = h
handle-AreFading by now (requested kind (some (c ∷ m))) s l h =
    toast-AreFading by now (get_or_else kind ToastKind.info) (c ∷ m) none s l h
handle-AreFading by now (action_taken id) s l h =
    All-filter_map (IsFading by s.timers) (IsFading by s.timers) (λ t. not (t.id == id))
      (λ t e h. h) s.items h

run-AreFading :
    (by : ℕ) (events : List (ℕ × ToastEvent)) (s : Toasts)
    → All (λ e. e.0 + 4500 ≤ by) events
    → AreFading by s
    → AreFading by (run events s)
unfolding run
run-AreFading by [] s l h = h
run-AreFading by ((now, e) ∷ events) s l h =
    run-AreFading by events (handle now e (settle now s)) l.1
      (handle-AreFading by now e (settle now s) l.0 (settle-AreFading by now s h))

-- Whatever is shown and taken, 4.5 seconds after the last event only toasts with a button are left.
pub run-has_action :
    (by : ℕ) (events : List (ℕ × ToastEvent))
    → All (λ e. e.0 + 4500 ≤ by) events
    → All (λ t. has_action t ≡ true) (settle by (run events no_toasts)).items
run-has_action by events l =
    let s = run events no_toasts in
    All-filter_map (IsFading by s.timers) (λ t. has_action t ≡ true) (λ t. not (due by s.timers t))
      (λ t e h. ground arith) s.items (run-AreFading by events no_toasts l tt)

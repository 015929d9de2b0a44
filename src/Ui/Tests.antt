-- ===== src/Ui/Tests.antt =====
-- Examples of the theorems on the shared components.
use go_platform_starter.Prelude.{
  ℕ, ◌≤◌, ◌<◌, Bool, Option, Text, text_same, if◌then◌else◌, ℕ_key, true, false, none, some, All,
  codes, List, [], ◌∷◌, ◌≡◌, refl, arith,
}
use go_platform_starter.Ui.Window.{Window, virtual_list}
use go_platform_starter.Ui.Window.Cover.{virtual_list-covers}
use go_platform_starter.Ui.Toasts.{ToastKind, ToastEvent, toasted, undoable, no_toasts, settle, run}
use go_platform_starter.Ui.Toasts.Fading.{has_action, run-has_action}
use go_platform_starter.Ui.Stored
use go_platform_starter.Ui.Stored.{TabEvent, set_in, delivered, load, step, opened}
use go_platform_starter.Ui.Stored.Agreement.{InTurn, after, run-agree}
use go_platform_starter.Ui.Timing.{Moment, rendered, fired, throttled_start}
use go_platform_starter.Ui.Timing.Throttling.{IsSpaced, updates, updates-IsSpaced}

abbrev window : Window
window = virtual_list 100 40 300 1000 4

virtual_list-covers_example : (window.start ≤ 26) × (26 < window.end) × (window.end ≤ 100)
virtual_list-covers_example =
    virtual_list-covers 100 40 300 1000 4 26 (omega arith) (omega arith) (omega arith) (omega arith)

abbrev some_toasts : List (ℕ × ToastEvent)
some_toasts =
    (0, toasted ToastKind.success (codes "Saved.") none)
    ∷ (200, undoable (codes "Deleted.") none)
    ∷ []

run-has_action_example :
    All (λ t. has_action t ≡ true) (settle 4700 (run some_toasts no_toasts)).items
run-has_action_example = run-has_action 4700 some_toasts (omega arith, (omega arith, tt))

-- JSON of Booleans.
json : Bool → Text
json true = codes "true"
json false = codes "false"

read_json : Text → Option Bool
read_json t =
    if text_same t (codes "true")
    then some true
    else if text_same t (codes "false")
    then some false
    else none

read-json : (b : Bool) → read_json (json b) ≡ some b
unfolding json read_json
read-json true = refl
read-json false = refl

abbrev switching : List (TabEvent Bool)
switching = set_in 1 true ∷ delivered 2 ∷ set_in 2 false ∷ delivered 1 ∷ []

switching-InTurn :
    InTurn read_json json
      (codes "dark")
      false
      read-json
      switching
      (opened read_json json (codes "dark") false none)
unfolding step json
switching-InTurn = (refl, (refl, tt))

switching_handled :
    ((after read_json json (codes "dark") false read-json none switching).tab 1).inbox ≡ []
unfolding Stored.run json
switching_handled = refl

run-agree_example :
    ((after read_json json (codes "dark") false read-json none switching).tab 1).value
    ≡ load read_json json
        (codes "dark")
        false
        (after read_json json (codes "dark") false read-json none switching).stored
run-agree_example =
    run-agree read_json json (codes "dark") false read-json none switching 1 switching-InTurn
      switching_handled

abbrev scrolling : List (Moment ℕ)
scrolling = rendered 1020 5 ∷ rendered 1040 7 ∷ fired 1050 ∷ rendered 1060 9 ∷ []

updates-IsSpaced_example : IsSpaced 100 0 (updates 100 scrolling (throttled_start 100 1000 3))
updates-IsSpaced_example =
    updates-IsSpaced 100 1000 3 scrolling
      (omega arith, (omega arith, (omega arith, (omega arith, tt))))

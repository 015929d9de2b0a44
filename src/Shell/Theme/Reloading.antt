-- ===== src/Shell/Theme/Reloading.antt =====
-- The theme outlives the page.
use go_platform_starter.Prelude.{Bool, Option, List, [], ◌∷◌, ◌≡◌, refl, Text}
use go_platform_starter.Shell.Theme.{
  dark, light, read_theme, Themes, system_theme, start, shown_theme, ThemeEvent, chosen,
  system_changed, handle, run,
}

-- What is selected is what the storage holds.
abbrev IsStored : Themes → Type 0
IsStored s = read_theme s.stored ≡ s.selected

handle-IsStored : (e : ThemeEvent) (s : Themes) → IsStored s → IsStored (handle e s)
handle-IsStored (chosen dark) s h = refl
handle-IsStored (chosen light) s h = refl
handle-IsStored (system_changed prefers_light) s h = h

run-IsStored : (events : List ThemeEvent) (s : Themes) → IsStored s → IsStored (run events s)
unfolding run
run-IsStored [] s h = h
run-IsStored (e ∷ events) s h = run-IsStored events (handle e s) (handle-IsStored e s h)

-- Whatever is chosen, and however the system changes: a page that is loaded anew, with what is stored then and
-- the system's preference as it is then, shows the theme that is shown.
shown_theme-start :
    (events : List ThemeEvent) (stored : Option Text) (before now : Bool)
    → (run events (start stored before)).system ≡ system_theme now
    → shown_theme (start (run events (start stored before)).stored now)
      ≡ shown_theme (run events (start stored before))
shown_theme-start events stored before now same =
    let kept = run-IsStored events (start stored before) refl in rw (kept, same) refl

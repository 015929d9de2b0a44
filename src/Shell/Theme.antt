-- ===== src/Shell/Theme.antt =====
-- apps/web/src/lib/ui.tsx: `useTheme`. The local storage is the text under "starter-theme".
pub mod Reloading
use go_platform_starter.Prelude.{
  Bool, true, false, Option, none, some, List, [], ◌∷◌, if◌then◌else◌, Text, codes, text_same,
}

pub data Theme : Type 0 where
  dark light : Theme

abbrev pub theme_text : Theme → Text
theme_text dark = codes "dark"
theme_text light = codes "light"

-- `saved === "light" || saved === "dark" ? saved : null`
abbrev pub read_theme : Option Text → Option Theme
read_theme none = none
read_theme (some saved) =
    if text_same saved (codes "light")
    then some light
    else if text_same saved (codes "dark")
    then some dark
    else none

-- `selected`, `system` and the storage.
pub record Themes : Type 0 where
  pub selected : Option Theme
  pub system : Theme
  pub stored : Option Text

abbrev pub system_theme : Bool → Theme
system_theme prefers_light = if prefers_light then light else dark

-- The states when the page is loaded.
abbrev pub start : Option Text → Bool → Themes
start stored prefers_light = record {
  selected = read_theme stored;
  system = system_theme prefers_light;
  stored = stored;
}

-- `theme`, which the effect applies to the document
abbrev pub shown_theme : Themes → Theme
shown_theme s = elim s.selected [ none ↦ s.system | some t ↦ t ]

pub data ThemeEvent : Type 0 where
  chosen : Theme → ThemeEvent
  system_changed : Bool → ThemeEvent

abbrev pub handle : ThemeEvent → Themes → Themes
handle (chosen t) s = record s { selected = some t; stored = some (theme_text t) }
handle (system_changed prefers_light) s = record s { system = system_theme prefers_light }

unfoldable pub run : List ThemeEvent → Themes → Themes
run [] s = s
run (e ∷ events) s = run events (handle e s)

-- `setTheme(theme === "dark" ? "light" : "dark")` of the shell
abbrev pub toggled : Themes → Themes
toggled s = handle (chosen (elim (shown_theme s) [ dark ↦ light | light ↦ dark ])) s

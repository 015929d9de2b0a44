-- ===== src/Shell/Tests.antt =====
-- Examples of the theorems on the shell, with a palette of two items.
use go_platform_starter.Shell.Drawer
use go_platform_starter.Shell.Drawer.{DrawerEvent, Key, escape, key_down, focused}
use go_platform_starter.Shell.Drawer.Focus.{at_rest, run-closing}
use go_platform_starter.Shell.Scroll
use go_platform_starter.Shell.Scroll.{ScrollEvent, scrolled, navigated}
use mathlib.Core.List.{Memᴰ}
use go_platform_starter.Shell.Swipe
use go_platform_starter.Shell.Swipe.{Touch, started, moved, ended, untouched}
use go_platform_starter.Shell.Swipe.Opening.{HasSwipe, run-menu_open_iff}
use go_platform_starter.Prelude.{
  Bool, Option, ℕ, arith, true, false, none, some, List, [], ◌∷◌, ◌≡◌, ◌↔◌, ◌⊎◌, refl, length, All,
  Text, codes, map, fold_case,
}
use go_platform_starter.Shell.Palette.{Item, navigation, actions, haystack_of, fuzzy, filtered}
use go_platform_starter.Shell.Palette.Matching.{Within, fuzzy-Within_iff}
use go_platform_starter.Shell.Palette.Results.{IsFound, filtered_complete}

abbrev users_item : Item
users_item = record {
  id = codes "nav:/admin/users";
  label = codes "Users";
  hint = some (codes "g u");
  group = navigation;
  to = some (codes "/admin/users");
  keywords = some (codes "people" ∷ []);
}

abbrev theme_item : Item
theme_item = record {
  id = codes "act:theme";
  label = codes "Toggle theme";
  hint = none;
  group = actions;
  to = none;
  keywords = none;
}

abbrev items : List Item
items = users_item ∷ theme_item ∷ []

abbrev lower : Text → Text
lower = map fold_case

fuzzy-Within_iff_example :
    ((r : ℕ) × (fuzzy lower (codes "Users") (codes "us") ≡ some r))
    ↔ ((codes "us" ≡ []) ⊎ Within (lower (codes "us")) (lower (codes "Users")))
fuzzy-Within_iff_example = fuzzy-Within_iff lower (codes "Users") (codes "us")

users_score : fuzzy lower (haystack_of users_item) (codes "us") ≡ some 7
unfolding fuzzy
users_score = refl

filtered_complete_example :
    Memᴰ users_item (filtered lower (codes "us") items)
    ⊎ ((length (filtered lower (codes "us") items) ≡ 10)
        × All (IsFound lower (codes "us") 7) (filtered lower (codes "us") items))
filtered_complete_example =
    filtered_complete lower (codes "us") items users_item 7 refl (Memᴰ.head refl) users_score

abbrev swiped : List Touch
swiped =
    started 400 (some (record { x = 10; y = 200 }))
    ∷ moved (some (record { x = 40; y = 205 }))
    ∷ moved (some (record { x = 90; y = 210 }))
    ∷ ended
    ∷ []

run-menu_open_iff_example : ((Swipe.run swiped untouched).menu_open ≡ true) ↔ HasSwipe swiped
run-menu_open_iff_example = run-menu_open_iff swiped

abbrev visits : List ScrollEvent
visits =
    scrolled 300
    ∷ navigated (codes "/admin/roles")
    ∷ scrolled 120
    ∷ navigated (codes "/admin/users")
    ∷ []

abbrev keys : List DrawerEvent
keys = key_down (Key.tab true) ∷ focused 3 ∷ key_down (Key.tab false) ∷ []

abbrev stay : Bool → Option ℕ → Option ℕ
stay shift a = a

still_there :
    (Drawer.run stay 10
        (1 ∷ 2 ∷ 3 ∷ [])
        (DrawerEvent.opened 800 ∷ keys)
        (at_rest (some 7) (λ _. true))).takes_focus
      7
    ≡ true
unfolding Drawer.run
still_there = refl

run-closing_example :
    let after = Drawer.handle stay 10 (1 ∷ 2 ∷ 3 ∷ []) (key_down escape) (
      Drawer.run stay 10
        (1 ∷ 2 ∷ 3 ∷ [])
        (DrawerEvent.opened 800 ∷ keys)
        (at_rest (some 7) (λ _. true))) in
    (after.active ≡ some 7) × (after.menu_open ≡ false) × (after.effect ≡ none)
run-closing_example =
    run-closing stay 10 (1 ∷ 2 ∷ 3 ∷ []) 800 keys (key_down escape) 7 (λ _. true) (omega arith)
      (tt, (tt, (tt, tt))) tt still_there

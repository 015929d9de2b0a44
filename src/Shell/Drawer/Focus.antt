-- ===== src/Shell/Drawer/Focus.antt =====
-- Where the focus is once the drawer is closed.
use go_platform_starter.Prelude.{
  ℕ, ◌<◌, Bool, true, false, Option, none, some, List, [], ◌∷◌, ◌≡◌, refl, ap, ◌∙◌, arith, All,
}
use go_platform_starter.Shell.Drawer.{
  escape, other, tab, DrawerEvent, opened, closed, key_down, focused, blurred, rendered, Drawer,
  focus, handle, run,
}

-- Any event that does not close the drawer.
abbrev pub IsWithin : DrawerEvent → Type 0
IsWithin (opened width) = Unit
IsWithin closed = ⊥
IsWithin (key_down escape) = ⊥
IsWithin (key_down other) = Unit
IsWithin (key_down (tab shift)) = Unit
IsWithin (focused n) = Unit
IsWithin blurred = Unit
IsWithin (rendered takes_focus) = Unit

-- The two events that close it.
abbrev pub IsClosing : DrawerEvent → Type 0
IsClosing (opened width) = ⊥
IsClosing closed = Unit
IsClosing (key_down escape) = Unit
IsClosing (key_down other) = ⊥
IsClosing (key_down (tab shift)) = ⊥
IsClosing (focused n) = ⊥
IsClosing blurred = ⊥
IsClosing (rendered takes_focus) = ⊥

-- A closed drawer, whose effect has been cleaned up.
abbrev pub at_rest : Option ℕ → (ℕ → Bool) → Drawer
at_rest active takes_focus = record {
  menu_open = false;
  active = active;
  effect = none;
  takes_focus = takes_focus;
}

module _ (native : Bool → Option ℕ → Option ℕ) (panel : ℕ) (nodes : List ℕ) where
  -- The drawer is open, and its effect keeps an element.
  abbrev Keeps : Option ℕ → Drawer → Type 0
  Keeps previous d = (d.menu_open ≡ true) × (d.effect ≡ some previous)

  handle-Keeps :
      (previous : Option ℕ) (e : DrawerEvent) (d : Drawer)
      → IsWithin e
      → Keeps previous d
      → Keeps previous (handle native panel nodes e d)
  unfolding handle
  handle-Keeps previous (opened width) d w h = rw h.0 (refl, h.1)
  handle-Keeps previous closed d w h = elim w [ ]
  handle-Keeps previous (key_down escape) d w h = elim w [ ]
  handle-Keeps previous (key_down other) d w h = h
  handle-Keeps previous (key_down (tab shift)) d w h = rw h.1 (h.0, refl)
  handle-Keeps previous (focused n) d w h = h
  handle-Keeps previous blurred d w h = h
  handle-Keeps previous (rendered takes_focus) d w h = h

  run-Keeps :
      (previous : Option ℕ) (events : List DrawerEvent) (d : Drawer)
      → All IsWithin events
      → Keeps previous d
      → Keeps previous (run native panel nodes events d)
  unfolding run
  run-Keeps previous [] d w h = h
  run-Keeps previous (e ∷ events) d w h =
      run-Keeps previous events (handle native panel nodes e d) w.1
        (handle-Keeps previous e d w.0 h)

  handle_closing :
      (previous : Option ℕ) (e : DrawerEvent) (d : Drawer)
      → IsClosing e
      → Keeps previous d
      → handle native panel nodes e d
        ≡ record d { menu_open = false; active = focus previous d; effect = none }
  unfolding handle
  handle_closing previous (opened width) d c h = elim c [ ]
  handle_closing previous closed d c h = ground (arith, h.1)
  handle_closing previous (key_down escape) d c h = ground (arith, h.1)
  handle_closing previous (key_down other) d c h = elim c [ ]
  handle_closing previous (key_down (tab shift)) d c h = elim c [ ]
  handle_closing previous (focused n) d c h = elim c [ ]
  handle_closing previous blurred d c h = elim c [ ]
  handle_closing previous (rendered takes_focus) d c h = elim c [ ]

  opened-Keeps :
      (width : ℕ) (events : List DrawerEvent) (active : Option ℕ) (takes_focus : ℕ → Bool)
      → width < 1024
      → All IsWithin events
      → Keeps active (run native panel nodes (opened width ∷ events) (at_rest active takes_focus))
  unfolding run
  opened-Keeps width events active takes_focus narrow w =
      run-Keeps active events
        (handle native panel nodes (opened width) (at_rest active takes_focus)) w
        (unfold handle in (ground (arith, narrow), ground (arith, narrow)))

  -- Once the drawer of a narrow window is opened while an element has the focus, whatever keys are pressed, wherever
  -- the focus goes and whatever is rendered anew: Escape and every other way of closing it close it, give the
  -- focus back to that element if it still takes it, and leave nothing of the effect behind.
  pub run-closing :
      (width : ℕ) (events : List DrawerEvent) (e : DrawerEvent) (n : ℕ) (takes_focus : ℕ → Bool)
      → width < 1024
      → All IsWithin events
      → IsClosing e
      → (run native panel nodes (opened width ∷ events) (at_rest (some n) takes_focus)).takes_focus
          n
        ≡ true
      → let after =
          handle native panel nodes e
            (run native panel nodes (opened width ∷ events) (at_rest (some n) takes_focus)) in
        (after.active ≡ some n) × (after.menu_open ≡ false) × (after.effect ≡ none)
  run-closing width events e n takes_focus narrow w c able =
      let d = run native panel nodes (opened width ∷ events) (at_rest (some n) takes_focus) in
      let closing =
        handle_closing (some n) e d c (opened-Keeps width events (some n) takes_focus narrow w) in
      (
        ap (λ x. x.active) closing ∙ rw able refl,
        ap (λ x. x.menu_open) closing,
        ap (λ x. x.effect) closing,
      )

  -- Where nothing had the focus when it was opened, closing it leaves the focus where it is: the menu button does
  -- not get it.
  run-closing_from_body :
      (width : ℕ) (events : List DrawerEvent) (e : DrawerEvent) (takes_focus : ℕ → Bool)
      → width < 1024
      → All IsWithin events
      → IsClosing e
      → let d = run native panel nodes (opened width ∷ events) (at_rest none takes_focus) in
        (handle native panel nodes e d).active ≡ d.active
  run-closing_from_body width events e takes_focus narrow w c =
      let d = run native panel nodes (opened width ∷ events) (at_rest none takes_focus) in
      ap (λ x. x.active)
        (handle_closing none e d c (opened-Keeps width events none takes_focus narrow w))

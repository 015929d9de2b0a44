-- ===== src/Ui/Stored/Agreement.antt =====
-- When the tabs agree on the stored value, and when two of them swap theirs.
use go_platform_starter.Prelude.{
  ℕ, ◌==◌, ==_iff, Bool, true, false, not, Option, none, some, List, [], ◌∷◌, ◌++◌, ◌≡◌, ◌≢◌, refl,
  sym, ◌∙◌, arith, inl, inr, Bool-cases, if◌then◌else◌, Text, text_same_iff,
}
use go_platform_starter.Ui.Stored.{
  StorageEvent, Tab, Tabs, TabEvent, set_in, delivered, load, sync, drain, is_stored, written, set,
  handle_next, deliver, step, run, opened,
}

module _ {T : Type 0} (parse : Text → Option T) (stringify : T → Text) (key : Text) (initial : T)
    (back : (v : T) → parse (stringify v) ≡ some v) where
  -- Every tab will show what is stored once it has handled its events.
  abbrev pub Agrees : Tabs T → Type 0
  Agrees s =
      (j : ℕ)
      → drain parse stringify key initial (s.tab j).inbox (s.tab j).value
        ≡ load parse stringify key initial s.stored

  -- `set` is called only in tabs that have no event to handle.
  abbrev pub InTurn : List (TabEvent T) → Tabs T → Type 0
  InTurn [] s = Unit
  InTurn (set_in i next ∷ events) s =
      ((s.tab i).inbox ≡ []) × InTurn events (step parse stringify key initial (set_in i next) s)
  InTurn (delivered i ∷ events) s = InTurn events (step parse stringify key initial (delivered i) s)

  drain-append :
      (inbox : List StorageEvent) (next value : T)
      → drain parse stringify key initial
          (inbox ++ (record { key = key; new_value = some (stringify next) } ∷ []))
          value
        ≡ next
  drain-append [] next value = ground (arith, back next, text_same_iff key key)
  drain-append (e ∷ inbox) next value =
      drain-append inbox next (sync parse stringify key initial e value)

  load-is_stored :
      (stored : Option Text) (next : T)
      → is_stored parse stringify key initial stored (stringify next) ≡ true
      → load parse stringify key initial stored ≡ next
  load-is_stored none next h = absurd (ground arith)
  load-is_stored (some raw) next h = ground (arith, back next, text_same_iff raw (stringify next))

  load-stringify : (next : T) → load parse stringify key initial (some (stringify next)) ≡ next
  load-stringify next = rw (back next) refl

  written-agrees :
      (i j : ℕ) (next : T) (t : Tab T) (stored : Option Text)
      → (i ≡ j → t.inbox ≡ [])
      → drain parse stringify key initial t.inbox t.value ≡ load parse stringify key initial stored
      → (same : Bool) → (same ≡ true → load parse stringify key initial stored ≡ next)
      → let t' = written parse stringify key initial i next (not same) j t in
        drain parse stringify key initial t'.inbox t'.value ≡ next
  written-agrees i j next t stored turn h same e = elim (Bool-cases (i == j)) [
    | inl own ↦ rw own (rw (turn ((==_iff i j).0 own)) refl)
    | inr other ↦ rw other (rest same e)
  ]
    where
      rest :
          (same : Bool)
          → (same ≡ true → load parse stringify key initial stored ≡ next)
          → let t' =
              (if not same
                then record t {
                  inbox = t.inbox ++ (record { key = key; new_value = some (stringify next) } ∷ []);
                }
                else t) in
            drain parse stringify key initial t'.inbox t'.value ≡ next
      rest true e = h ∙ e refl
      rest false e = drain-append t.inbox next t.value

  set-Agrees :
      (i : ℕ) (next : T) (s : Tabs T)
      → (s.tab i).inbox ≡ []
      → Agrees s
      → Agrees (set parse stringify key initial i next s)
  unfolding set
  set-Agrees i next s turn h j =
      written-agrees i j next (s.tab j) s.stored (λ e. rw (← e) turn) (h j)
        (is_stored parse stringify key initial s.stored (stringify next))
        (load-is_stored s.stored next)
      ∙ sym (load-stringify next)

  handle_next-drain :
      (inbox : List StorageEvent) (value : T)
      → let t =
          handle_next parse stringify key initial inbox (record { value = value; inbox = inbox }) in
        drain parse stringify key initial t.inbox t.value
        ≡ drain parse stringify key initial inbox value
  handle_next-drain [] value = refl
  handle_next-drain (e ∷ inbox) value = refl

  deliver-Agrees :
      (i : ℕ) (s : Tabs T) → Agrees s → Agrees (deliver parse stringify key initial i s)
  unfolding deliver
  deliver-Agrees i s h j = elim (Bool-cases (i == j)) [
    | inl own ↦ rw own (handle_next-drain (s.tab j).inbox (s.tab j).value ∙ h j)
    | inr other ↦ rw other (h j)
  ]

  run-Agrees :
      (events : List (TabEvent T)) (s : Tabs T)
      → InTurn events s
      → Agrees s
      → Agrees (run parse stringify key initial events s)
  unfolding run step
  run-Agrees [] s turn h = h
  run-Agrees (set_in i next ∷ events) s turn h =
      run-Agrees events _ turn.1 (set-Agrees i next s turn.0 h)
  run-Agrees (delivered i ∷ events) s turn h = run-Agrees events _ turn (deliver-Agrees i s h)

  -- The tabs after the events, all opened before them.
  abbrev pub after : Option Text → List (TabEvent T) → Tabs T
  after stored events =
      run parse stringify key initial events (opened parse stringify key initial stored)

  -- Where a value that is written as JSON is read back the same, and a value is set only in tabs that
  -- have handled every storage event sent to them: a tab that has handled its events shows what is stored.
  pub run-agree :
      (stored : Option Text) (events : List (TabEvent T)) (j : ℕ)
      → InTurn events (opened parse stringify key initial stored)
      → ((after stored events).tab j).inbox ≡ []
      → ((after stored events).tab j).value
        ≡ load parse stringify key initial (after stored events).stored
  run-agree stored events j turn handled =
      let agreed =
        run-Agrees events (opened parse stringify key initial stored) turn (λ k. refl) j in
      rw handled at agreed

  -- Where two tabs that show what is stored each set a value of their own, both different from what is
  -- stored and from one another, before either hears of the other: they end up with their values swapped,
  -- so that the one that wrote last shows the other's value and not what is stored.
  crossed_writes :
      (i j : ℕ) (v w : T) (s : Tabs T)
      → i ≢ j
      → (s.tab i).inbox ≡ []
      → (s.tab j).inbox ≡ []
      → is_stored parse stringify key initial s.stored (stringify v) ≡ false
      → stringify v ≢ stringify w
      → let t =
          run parse stringify key initial
            (set_in i v ∷ set_in j w ∷ delivered i ∷ delivered j ∷ [])
            s in
        (t.stored ≡ some (stringify w))
        × ((t.tab i).value ≡ w)
        × ((t.tab j).value ≡ v)
        × ((t.tab i).inbox ≡ [])
        × ((t.tab j).inbox ≡ [])
  unfolding run step set deliver
  crossed_writes i j v w s apart a b fresh other = ground (
    arith,
    back v,
    back w,
    text_same_iff key key,
    text_same_iff (stringify v) (stringify w),
    ==_iff i j,
    ==_iff j i,
    ==_iff i i,
    ==_iff j j,
  )

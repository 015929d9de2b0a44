-- ===== src/Ui/Stored.antt =====
-- packages/ui/src/frontend.tsx: useLocalStorage, and the tabs that use it for one key. `parse` and
-- `stringify` are those of JSON, with `none` where `JSON.parse` throws. The browser sends a storage event to
-- the other tabs when a write changes what is stored; they handle it later, in the order of the writes.
pub mod Agreement
use go_platform_starter.Prelude.{
  ℕ, ◌==◌, Bool, true, false, not, Option, none, some, List, [], ◌∷◌, ◌++◌, if◌then◌else◌,
  get_or_else, Text, text_same,
}

pub record StorageEvent : Type 0 where
  pub key : Text
  pub new_value : Option Text

-- The state of the hook in one tab, and the events that it has yet to handle.
pub record Tab (T : Type 0) : Type 0 where
  pub value : T
  pub inbox : List StorageEvent

-- What is stored under the key, and the tabs.
pub record Tabs (T : Type 0) : Type 0 where
  pub stored : Option Text
  pub tab : ℕ → Tab T

pub data TabEvent (T : Type 0) : Type 0 where
  -- `set` is called in a tab
  set_in : ℕ → T → TabEvent T
  -- a tab handles the next of its storage events
  delivered : ℕ → TabEvent T

module _ {T : Type 0} (parse : Text → Option T) (stringify : T → Text) (key : Text)
    (initial : T) where
  -- The initializer of the state.
  abbrev pub load : Option Text → T
  load none = initial
  load (some raw) = get_or_else (parse raw) initial

  -- The listener `sync`.
  abbrev pub sync : StorageEvent → T → T
  sync event value =
      if not (text_same event.key key)
      then value
      else elim event.new_value [ none ↦ value | some raw ↦ get_or_else (parse raw) value ]

  -- All the events that a tab has yet to handle.
  abbrev pub drain : List StorageEvent → T → T
  drain [] value = value
  drain (e ∷ inbox) value = drain inbox (sync e value)

  abbrev pub is_stored : Option Text → Text → Bool
  is_stored none raw = false
  is_stored (some old) raw = text_same old raw

  -- What a write makes of the tabs: the tab itself shows the value, and the others get an event.
  abbrev pub written : ℕ → T → Bool → ℕ → Tab T → Tab T
  written i next changed j t =
      if i == j
      then record t { value = next }
      else if changed
      then record t {
        inbox = t.inbox ++ (record { key = key; new_value = some (stringify next) } ∷ []);
      }
      else t

  -- `set`
  unfoldable pub set : ℕ → T → Tabs T → Tabs T
  set i next s = record {
    stored = some (stringify next);
    tab = λ j. written i next (not (is_stored s.stored (stringify next))) j (s.tab j);
  }

  abbrev pub handle_next : List StorageEvent → Tab T → Tab T
  handle_next [] t = t
  handle_next (e ∷ inbox) t = record { value = sync e t.value; inbox = inbox }

  unfoldable pub deliver : ℕ → Tabs T → Tabs T
  deliver i s = record s {
    tab = λ j. if i == j then handle_next (s.tab j).inbox (s.tab j) else s.tab j;
  }

  unfoldable pub step : TabEvent T → Tabs T → Tabs T
  unfolding set deliver
  step (set_in i next) s = set i next s
  step (delivered i) s = deliver i s

  unfoldable pub run : List (TabEvent T) → Tabs T → Tabs T
  unfolding step
  run [] s = s
  run (e ∷ events) s = run events (step e s)

  -- Tabs that are opened over what is stored.
  abbrev pub opened : Option Text → Tabs T
  opened stored = record { stored = stored; tab = λ _. record { value = load stored; inbox = [] } }

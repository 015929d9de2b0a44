-- ===== src/Session/Link/Once.antt =====
-- A link is consumed once.
use go_platform_starter.Prelude.{
  true, Option, none, some, List, [], ◌∷◌, ◌≡◌, refl, ap, ◌∙◌, arith, get_or_else, Text,
}
use go_platform_starter.Session.Link.{
  Kind, magic, email, restore, Answer, consumed, refused, Link, mounted, path_of, effect, settle,
  LinkEvent, effect_ran, answered, handle, run,
}

abbrev pub first_answer : List LinkEvent → Option Answer
first_answer [] = none
first_answer (effect_ran kind token ∷ events) = first_answer events
first_answer (answered answer ∷ events) = some answer

-- The page with its one request under way, and with the request answered.
abbrev pub waiting : Kind → Text → Option Text → Link
waiting kind token notice = record (mounted notice) {
  started = true;
  sent = (path_of kind, token) ∷ [];
  pending = kind ∷ [];
}

abbrev pub settled : Kind → Text → Option Text → Answer → Link
settled kind token notice answer =
    settle kind answer (record (waiting kind token notice) { pending = [] })

-- Nothing is under way, and the effect does nothing any more.
record IsOver (p : Link) : Type 0 where
  started : p.started ≡ true
  pending : p.pending ≡ []

handle-IsOver : (e : LinkEvent) (p : Link) → IsOver p → handle e p ≡ p
unfolding handle effect
handle-IsOver (effect_ran kind token) p h = ground (arith, h.started)
handle-IsOver (answered answer) p h = ground (arith, h.pending)

run-IsOver : (events : List LinkEvent) (p : Link) → IsOver p → run events p ≡ p
unfolding run
run-IsOver [] p h = refl
run-IsOver (e ∷ events) p h = ap (run events) (handle-IsOver e p h) ∙ run-IsOver events p h

settled-IsOver :
    (kind : Kind) (token : Text) (notice : Option Text) (answer : Answer)
    → IsOver (settled kind token notice answer)
settled-IsOver magic token notice (consumed login) = record { started = refl; pending = refl }
settled-IsOver email token notice (consumed login) = record { started = refl; pending = refl }
settled-IsOver restore token notice (consumed login) = record { started = refl; pending = refl }
settled-IsOver magic token notice (refused e) = record { started = refl; pending = refl }
settled-IsOver email token notice (refused e) = record { started = refl; pending = refl }
settled-IsOver restore token notice (refused e) = record { started = refl; pending = refl }

run-waiting :
    (events : List LinkEvent) (kind : Kind) (token : Text) (notice : Option Text)
    → run events (waiting kind token notice) ≡ elim (first_answer events) [
      | none ↦ waiting kind token notice
      | some answer ↦ settled kind token notice answer
    ]
unfolding run effect
run-waiting [] kind token notice = refl
run-waiting (effect_ran other t ∷ events) kind token notice = run-waiting events kind token notice
run-waiting (answered answer ∷ events) kind token notice =
    run-IsOver events (settled kind token notice answer) (settled-IsOver kind token notice answer)

-- However often the effect runs again, and with whatever kinds and tokens: the page has sent one request, that of
-- its first run, and is as that request's answer leaves it, or still waits where there is no answer.
pub run-effect_ran :
    (kind : Kind) (token notice : Option Text) (events : List LinkEvent)
    → run (effect_ran kind token ∷ events) (mounted notice) ≡ elim (first_answer events) [
      | none ↦ waiting kind (get_or_else token []) notice
      | some answer ↦ settled kind (get_or_else token []) notice answer
    ]
unfolding run effect
run-effect_ran kind token notice events = run-waiting events kind (get_or_else token []) notice

-- ===== src/Examples/Link.antt =====
-- A host that comes back: bridge/deskhelm_host/link.py.
use deskhelm.Prelude.{
  ◌+◌, ◌≤◌, ◌≡◌, refl, true, false, List, ◌∷◌, [], ◌++◌, All, drop, length, arith, some, Bool,
}
use deskhelm.Json.{Json, Object, object}
use deskhelm.Protocol.Shapes.{FactKind}
use deskhelm.Core.Facts.{EffectOutcome}
use deskhelm.Link.{
  NewFact, Sending, Round, numbered_fact, DriverState, Performed, Attempt, fresh_link, open_link,
  emit_all, perform, attempts,
}
use deskhelm.Link.Numbers.{Consecutive, open_link-Consecutive}
use deskhelm.Link.Reconnects.{IsJitter, Doubles, attempts-Doubles, attempts-once}
use deskhelm.Link.Outcomes.{Reports, perform-Reports}

abbrev at_work : DriverState
at_work = record { catalog = some Json.null; ready = true; turn_ref = "t"; attention = true }

abbrev ended : NewFact
ended = record { kind = FactKind.turn_terminal; meta = []; content = [] }

abbrev emitted : List (Sending × NewFact)
emitted = (Sending.went, ended) ∷ (Sending.lost, ended) ∷ (Sending.went, ended) ∷ []

open_link-Consecutive_example :
    let first = open_link (λ f. Sending.went) at_work in
    Consecutive 0 (first.1 ++ (emit_all emitted first.0).1)
open_link-Consecutive_example =
    open_link-Consecutive (λ f. Sending.went) at_work emitted (tt, (tt, (tt, tt)))

first_frames : length (open_link (λ f. Sending.went) at_work).1 ≡ 4
unfolding open_link
first_frames = refl

-- An error that escapes from one emitted fact leaves a gap before the next.
abbrev escaping : List (Sending × NewFact)
escaping = (Sending.escaped, ended) ∷ (Sending.went, ended) ∷ []

a_gap : (emit_all escaping fresh_link).1 ≡ numbered_fact 2 ended ∷ []
unfolding emit_all numbered_fact
a_gap = refl

abbrev round : Bool → Round
round opens = record { opens = opens; jitter = λ delay. delay }

as_it_is : IsJitter (λ delay. delay)
as_it_is delay = (omega arith, omega arith)

abbrev failing : List Round
failing = round false ∷ round false ∷ round false ∷ round false ∷ round false ∷ round false ∷ []

attempts-Doubles_example : Doubles 200 5000 0 failing (attempts 200 5000 200 false failing)
attempts-Doubles_example = attempts-Doubles 200 5000 failing (omega arith) (
  (refl, as_it_is),
  (
    (refl, as_it_is),
    ((refl, as_it_is), ((refl, as_it_is), ((refl, as_it_is), ((refl, as_it_is), tt)))),
  ),
)

attempts-once_example :
    All
      (λ (a : Attempt). (a.may_start_bridge ≡ false) × (a.waits ≤ 5000))
      (drop (1 + 1) (
        attempts 200 5000 200 false
          ((round false ∷ []) ++ (round true ∷ round false ∷ round false ∷ []))))
attempts-once_example =
    attempts-once 200 5000 200 false (round false ∷ []) (round true)
      (round false ∷ round false ∷ []) (omega arith) refl (as_it_is, (as_it_is, tt))

abbrev effect : Object
effect =
    ("effect_id", Json.str "x-1") ∷ ("kind", Json.str "interrupt") ∷ ("payload", object []) ∷ []

perform-Reports_example :
    Reports effect
      (Performed.outcome EffectOutcome.accepted)
      (perform effect (Performed.outcome EffectOutcome.accepted) fresh_link)
perform-Reports_example =
    perform-Reports effect (Performed.outcome EffectOutcome.accepted) fresh_link refl

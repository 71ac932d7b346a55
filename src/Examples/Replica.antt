-- ===== src/Examples/Replica.antt =====
-- A client that missed two deltas: bridge/deskhelm_client/connection.py.
use deskhelm.Prelude.{ℕ, ◌≡◌, refl, List, ◌∷◌, [], some, none, false, ◌≤◌, length, arith}
use deskhelm.Protocol.Fields.{ok}
use deskhelm.Core.Frames.{Change}
use deskhelm.Voice.Client.{ConsoleState}
use deskhelm.Replica.{console_deltas, hand_over, max_seen_events}
use deskhelm.Replica.Seen.{hand_over-once}
use deskhelm.Replica.Sequence.{replayed, console_deltas-Rest}
use deskhelm.Examples.Frames.{codex_key}
use deskhelm.Examples.Voice.{waiting}

abbrev stale : ConsoleState
stale = record { instance_id = "i"; seq = 3; focus = none; sessions = [] }

abbrev missed : List (ℕ × List Change)
missed =
    (4, Change.session waiting ∷ Change.focus (some codex_key) ∷ [])
    ∷ (5, Change.session_removed codex_key ∷ [])
    ∷ []

console_deltas-Rest_example :
    (console_deltas "i" missed stale ≡ ok (replayed missed stale))
    × ((replayed missed stale).seq ≡ 5)
console_deltas-Rest_example =
    console_deltas-Rest "i" 5 missed stale refl
      (record { consecutive = (refl, (refl, tt)); complete = refl })

hand_over-once_example :
    ((hand_over "i-7" (hand_over "i-7" ("i-6" ∷ [])).1).0 ≡ false)
    × (length (hand_over "i-7" ("i-6" ∷ [])).1 ≤ max_seen_events)
hand_over-once_example = hand_over-once "i-7" ("i-6" ∷ []) (omega arith)

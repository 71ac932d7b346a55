-- ===== src/Replica.antt =====
-- The client's copy of the console: `_console_snapshot`, `_console_delta` and `_interaction` of
-- bridge/deskhelm_client/connection.py, on the frames that the Bridge builds. The locks and the
-- callbacks are left out.
pub mod Sequence
pub mod Seen
use mathlib.Core.Bool.{not}
use deskhelm.Prelude.{
  ℕ, ◌+◌, ◌-◌, String, string_eq, Bool, true, false, List, [], ◌∷◌, ◌++◌, leb, eqb, length, drop,
  contains, ◌==◌, if◌then◌else◌, Option,
}
use deskhelm.Dict.{Dict, insert, remove}
use deskhelm.Protocol.Fields.{Result, ok, violation, ◌>>=◌}
use deskhelm.Protocol.Session.{SessionKey, key_eq}
use deskhelm.Core.Frames.{Change, View}
use deskhelm.Voice.Client.{ConsoleState}

unfoldable pub view_table : List View → Dict SessionKey View → Dict SessionKey View
view_table [] sessions = sessions
view_table (view ∷ views) sessions = view_table views (insert view.key view sessions)

-- `_console_snapshot`: the state that replaces the copy.
unfoldable pub snapshot_state : String → ℕ → Option SessionKey → List View → ConsoleState
unfolding view_table
snapshot_state instance_id seq focus views = record {
  instance_id = instance_id;
  seq = seq;
  focus = focus;
  sessions = view_table views [];
}

unfoldable pub apply_change : Change → ConsoleState → ConsoleState
apply_change (Change.session view) s = record s { sessions = insert view.key view s.sessions }
apply_change (Change.session_removed key) s = record s { sessions = remove key s.sessions }
apply_change (Change.focus focus) s = record s { focus = focus }

unfoldable pub apply_changes : List Change → ConsoleState → ConsoleState
unfolding apply_change
apply_changes [] s = s
apply_changes (change ∷ rest) s = apply_changes rest (apply_change change s)

unfoldable pub numbered : ℕ → ConsoleState → ConsoleState
numbered seq s = record s { seq = seq }

-- `_console_delta`, where `violation` is a raised ValueError: the delta of another Bridge, or one
-- that leaves a gap. A delta that is known already changes nothing.
unfoldable pub console_delta : String → ℕ → List Change → ConsoleState → Result ConsoleState
unfolding apply_changes numbered
console_delta instance_id seq changes s =
    if not (instance_id == s.instance_id)
    then violation
    else if leb seq s.seq
    then ok s
    else if not (eqb seq (s.seq + 1))
    then violation
    else ok (numbered seq (apply_changes changes s))

-- The delta frames of one Bridge, one after the other.
unfoldable pub console_deltas : String → List (ℕ × List Change) → ConsoleState → Result ConsoleState
unfolding console_delta
console_deltas instance_id [] s = ok s
console_deltas instance_id (d ∷ ds) s = do
  next ← console_delta instance_id d.0 d.1 s
  console_deltas instance_id ds next

abbrev pub max_seen_events : ℕ
max_seen_events = 4096

-- `_interaction`: whether the event is handed over, and the ids that have been seen.
unfoldable pub hand_over : String → List String → Bool × List String
unfolding contains
hand_over event_id seen =
    if contains seen event_id
    then (false, seen)
    else let all = seen ++ event_id ∷ [] in (true, drop (length all - max_seen_events) all)

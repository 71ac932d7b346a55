-- ===== src/Core/Window.antt =====
-- A session's window of recent events: `_drop_deltas` and the eviction of `_interaction` in
-- bridge/deskhelm_core/core.py.
pub mod Bounds
pub mod Deltas
use deskhelm.Prelude.{
  ℕ, ◌+◌, ◌-◌, String, string_eq, Bool, true, false, ◌&&◌, ◌||◌, List, [], ◌∷◌, ◌++◌, ltb, length,
  ◌==◌, if◌then◌else◌,
}
use deskhelm.Protocol.Shapes.{MessageRole, MessagePhase}
use deskhelm.Core.Events.{Event, Payload, size}
use deskhelm.Core.State.{CoreLimits, SessionRecord}

pub record Window : Type 0 where
  pub events : List Event
  pub bytes : ℕ

unfoldable pub same_role : MessageRole → MessageRole → Bool
same_role MessageRole.user MessageRole.user = true
same_role MessageRole.assistant MessageRole.assistant = true
same_role MessageRole.system MessageRole.system = true
same_role _ _ = false

-- A delta of the message that `correlation` and `role` name.
is_delta_payload : Payload → MessageRole → Bool
unfolding same_role
is_delta_payload (Payload.message r MessagePhase.delta text) role = same_role r role
is_delta_payload _ role = false

unfoldable pub is_delta_of : String → MessageRole → Event → Bool
unfolding is_delta_payload
is_delta_of correlation role e = is_delta_payload e.payload role && e.correlation_id == correlation

unfoldable pub drop_deltas : String → MessageRole → List Event → ℕ → Window
unfolding is_delta_of
drop_deltas correlation role [] bytes = record { events = []; bytes = bytes }
drop_deltas correlation role (e ∷ es) bytes =
    let gone = drop_deltas correlation role es (bytes - size e) in
    let rest = drop_deltas correlation role es bytes in
    if is_delta_of correlation role e
    then gone
    else record { events = e ∷ rest.events; bytes = rest.bytes }

-- The `while` loop that drops the oldest events.
unfoldable pub evict : CoreLimits → List Event → ℕ → Window
evict limits [] bytes = record { events = []; bytes = bytes }
evict limits (e ∷ es) bytes =
    let rest = evict limits es (bytes - size e) in
    if ltb limits.window_events (length (e ∷ es)) || ltb limits.window_bytes bytes
    then rest
    else record { events = e ∷ es; bytes = bytes }

-- A complete message with a text drops its deltas first.
unfoldable pub completed_message : Payload → String → List Event → ℕ → Window
unfolding drop_deltas
completed_message (Payload.message role MessagePhase.complete text) correlation window bytes =
    if text == ""
    then record { events = window; bytes = bytes }
    else drop_deltas correlation role window bytes
completed_message payload correlation window bytes = record { events = window; bytes = bytes }

unfoldable pub append_event : CoreLimits → Event → SessionRecord → Window
unfolding completed_message evict
append_event limits e r =
    let kept = completed_message e.payload e.correlation_id r.window r.window_bytes in
    evict limits (kept.events ++ e ∷ []) (kept.bytes + size e)

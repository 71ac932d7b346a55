-- ===== src/Core/Clients.antt =====
-- `_client_frame`, `_subscribe` and `_query` of bridge/deskhelm_core/core.py.
use deskhelm.Prelude.{
  ℕ, ◌+◌, ◌-◌, String, string_eq, Bool, true, false, ◌&&◌, List, [], ◌∷◌, ◌++◌, Option, none, some,
  map, ltb, leb, length, select, ◌==◌, if◌then◌else◌,
}
use deskhelm.Dict.{lookup, modify, values}
use deskhelm.Json.{Json, Object, pos, items, members}
use deskhelm.Protocol.Fields.{
  Result, ok, violation, ◌>>=◌, ◌>>◌, require, get, identity_field, enum_field, check_all,
}
use deskhelm.Protocol.Session.{SessionKey, key_eq, key_from_dict}
use deskhelm.Core.Events.{Event}
use deskhelm.Core.Frames.{Change, ErrorCode, Frame, Output, QueryStatus, send}
use deskhelm.Core.State.{Core, SessionRecord, Connection, Stream, Tier, view}
use deskhelm.Core.Actions.{send_to, send_all, wanted}
use deskhelm.Core.Facts.{Outcome}
use deskhelm.Core.Commands.{command}

abbrev pub stream_values : List (String × Stream)
stream_values = ("console", Stream.console) ∷ ("interaction", Stream.interaction) ∷ []

unfoldable pub subscribed : Stream → Connection → Bool
subscribed Stream.console s = s.console
subscribed Stream.interaction s = s.interaction

unfoldable pub add_stream : Stream → Connection → Connection
add_stream Stream.console s = record s { console = true }
add_stream Stream.interaction s = record s { interaction = true }

-- A change of the connection that `_connections` holds.
unfoldable pub update_connection : String → (Connection → Connection) → Core → Core
update_connection id f c = record c { connections = modify id f c.connections }

unfoldable pub delta_outputs : Core → String → List (ℕ × List Change) → List Output
delta_outputs c connection deltas =
    map (λ d. send connection (Frame.delta c.instance_id d.0 d.1)) deltas

unfoldable pub oldest_seq : Core → ℕ
oldest_seq c = elim c.deltas [ [] ↦ c.console_seq + 1 | d ∷ ds ↦ d.0 ]

-- Whether a value is the text.
unfoldable pub is_text : Json → String → Bool
is_text (Json.str s) t = s == t
is_text _ t = false

unfoldable pub resume_at : Core → Json → Option ℕ
unfolding oldest_seq
resume_at c (Json.int (pos seq)) =
    if leb (oldest_seq c - 1) seq && leb seq c.console_seq then some seq else none
resume_at c _ = none

-- The sequence number that a client asks to go on from, if the kept deltas reach back to it.
unfoldable pub resume_from : Core → Json → Option ℕ
unfolding resume_at is_text
resume_from c (Json.obj ms) =
    if is_text (get (members ms) "instance_id") c.instance_id
    then resume_at c (get (members ms) "seq")
    else none
resume_from c _ = none

unfoldable pub console_snapshot : Core → Frame
console_snapshot c =
    Frame.console_snapshot c.instance_id c.console_seq c.focus (map view (values c.sessions))

-- `_subscribe_console`
unfoldable pub subscribe_console : Connection → Object → Core → Core
unfolding resume_from delta_outputs console_snapshot
subscribe_console state frame c = elim (resume_from c (get frame "after")) [
  | some seq ↦ send_all (delta_outputs c state.connection_id (select (λ d. ltb seq d.0) c.deltas)) c
  | none ↦ send_to (some state.connection_id) (console_snapshot c) c
]

unfoldable pub is_operator : Connection → Bool
is_operator state = elim state.tier [ none ↦ false | some Tier.operator ↦ true | some _ ↦ false ]

-- `frame.get("sessions")`: `none` where it is `None`.
unfoldable pub session_filter : Core → Json → Result (Option (List SessionKey))
session_filter c Json.null = ok none
session_filter c (Json.arr xs) =
    if ltb c.limits.max_sessions (length (items xs))
    then violation
    else do keys ← check_all key_from_dict (items xs); ok (some keys)
session_filter c _ = violation

-- Insertion by sequence number, behind the events that have the same.
insert_event : Event → List Event → List Event
insert_event e [] = e ∷ []
insert_event e (f ∷ fs) =
    let rest = insert_event e fs in if ltb e.sequence f.sequence then e ∷ f ∷ fs else f ∷ rest

unfoldable pub sort_events : List Event → List Event → List Event
unfolding insert_event
sort_events sorted [] = sorted
sort_events sorted (e ∷ es) = sort_events (insert_event e sorted) es

windows : Connection → List SessionRecord → List Event
windows state [] = []
windows state (r ∷ rs) =
    let rest = windows state rs in if wanted state r.key then r.window ++ rest else rest

-- The events that a subscription replays.
unfoldable pub replayed : Connection → Core → List Event
unfolding windows sort_events
replayed state c = sort_events [] (windows state (values c.sessions))

unfoldable pub with_filter : Option (List SessionKey) → Connection → Connection
with_filter none s = s
with_filter (some keys) s = record s { interaction_filter = some keys }

replay_outputs : String → List Event → List Output
replay_outputs connection events =
    map (λ e. send connection (Frame.interaction e.sequence true e)) events

-- `_subscribe_interaction`
unfoldable pub subscribe_interaction : Connection → Object → Core → Outcome
unfolding is_operator session_filter with_filter replayed replay_outputs update_connection
subscribe_interaction state frame c =
    if is_operator state
    then elim (session_filter c (get frame "sessions")) [
      | violation ↦ Outcome.raised ErrorCode.protocol_violation c
      | ok filter ↦
          let window = replayed (with_filter filter state) c in
          Outcome.done (
            send_all
              (send state.connection_id
                  (Frame.interaction_snapshot c.instance_id c.interaction_seq (length window))
                ∷ replay_outputs state.connection_id window)
              (update_connection state.connection_id (with_filter filter) c))
    ]
    else Outcome.raised ErrorCode.not_permitted c

unfoldable pub then_add : String → Stream → Outcome → Outcome
unfolding update_connection add_stream
then_add id stream (Outcome.done c) = Outcome.done (update_connection id (add_stream stream) c)
then_add id stream (Outcome.raised code c) = Outcome.raised code c

unfoldable pub subscribe_stream : Stream → Connection → Object → Core → Outcome
subscribe_stream Stream.interaction state frame c = subscribe_interaction state frame c
subscribe_stream Stream.console state frame c = Outcome.done (subscribe_console state frame c)

-- `_subscribe`
unfoldable pub subscribe : Connection → Object → Core → Outcome
unfolding subscribed subscribe_stream then_add
subscribe state frame c = elim (enum_field stream_values (get frame "stream")) [
  | violation ↦ Outcome.raised ErrorCode.protocol_violation c
  | ok stream ↦
      if subscribed stream state
      then Outcome.raised ErrorCode.protocol_violation c
      else then_add state.connection_id stream (subscribe_stream stream state frame c)
]

unfoldable pub query_key : Object → Result (String × SessionKey)
query_key frame = do
  query_id ← identity_field (get frame "query_id")
  require (is_text (get frame "query") "catalog")
  key ← key_from_dict (get frame "session")
  ok (query_id, key)

session_catalog : Core → SessionKey → Option Object
session_catalog c key = elim (lookup key c.sessions) [ none ↦ none | some r ↦ r.catalog ]

catalog_answer : String → Option Object → Frame
catalog_answer query_id none = Frame.query_result query_id QueryStatus.unavailable []
catalog_answer query_id (some catalog) = Frame.query_result query_id QueryStatus.ok catalog

-- `_query`
unfoldable pub query : Connection → Object → Core → Outcome
unfolding query_key session_catalog catalog_answer is_operator
query state frame c = elim (query_key frame) [
  | violation ↦ Outcome.raised ErrorCode.protocol_violation c
  | ok (query_id, key) ↦ Outcome.done (
      send_to (some state.connection_id)
        (if is_operator state
          then catalog_answer query_id (session_catalog c key)
          else Frame.query_result query_id QueryStatus.not_permitted [])
        c)
]

-- `_client_frame`
unfoldable pub client_frame : Connection → Object → ℕ → Core → Outcome
unfolding is_text
client_frame state frame now c =
    let kind = get frame "type" in
    if is_text kind "subscribe"
    then subscribe state frame c
    else if is_text kind "command"
    then Outcome.done (command state (get frame "command") now c)
    else if is_text kind "query"
    then query state frame c
    else Outcome.raised ErrorCode.protocol_violation c

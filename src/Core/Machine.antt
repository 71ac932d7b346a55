-- ===== src/Core/Machine.antt =====
-- The inputs of `Core` in bridge/deskhelm_core/core.py: `connect`, `receive`, `disconnect`, `tick`,
-- and `_finish`, which sends the console's changes and hands the outputs over.
use mathlib.Core.Bool.{not}
use Prim.Native.String.{compare}
use text.Mathlib.Text.{is_le, is_lt}
use deskhelm.Prelude.{
  ℕ, ◌+◌, ◌-◌, String, string_eq, Bool, true, false, ◌&&◌, ◌||◌, List, [], ◌∷◌, ◌++◌, none, some,
  map, ltb, leb, length, drop, select, present, ◌==◌, if◌then◌else◌,
}
use deskhelm.Dict.{lookup, insert, remove, keys, values}
use deskhelm.Json.{Object}
use deskhelm.Protocol.Session.{SessionKey, key_eq}
use deskhelm.Protocol.Request.{is_empty}
use deskhelm.Protocol.Shapes.{ResolvedBy}
use deskhelm.Core.Frames.{Change, Lifecycle, Frame, Output, send}
use deskhelm.Core.State.{
  Core, SessionRecord, Ticket, Connection, Receipt, Role, new_connection, view,
}
use deskhelm.Core.Actions.{update, recompute}
use deskhelm.Core.Tickets.{end_tickets}
use deskhelm.Core.Settle.{fail_flights, remove_session, forget, refuse}
use deskhelm.Core.Facts.{Outcome}
use deskhelm.Core.Clients.{client_frame}
use deskhelm.Core.Hosts.{hello, host_frame}
use deskhelm.Core.Views.{view_beq}

-- The order of `sorted`: by agent, session and project.
key_leb : SessionKey → SessionKey → Bool
key_leb a b =
    if not (a.agent_id == b.agent_id)
    then is_lt (compare a.agent_id b.agent_id)
    else if not (a.session_id == b.session_id)
    then is_lt (compare a.session_id b.session_id)
    else is_le (compare a.project_id b.project_id)

insert_key : SessionKey → List SessionKey → List SessionKey
insert_key k [] = k ∷ []
insert_key k (j ∷ ks) = let rest = insert_key k ks in if key_leb k j then k ∷ j ∷ ks else j ∷ rest

unfoldable pub sort_keys : List SessionKey → List SessionKey
unfolding key_leb insert_key
sort_keys [] = []
sort_keys (k ∷ ks) = insert_key k (sort_keys ks)

-- Whether the console already carries this view.
unfoldable pub is_sent : SessionRecord → Bool
is_sent r = elim r.sent_view [ none ↦ false | some v ↦ view_beq (view r) v ]

-- The changes of the dirty sessions, in order.
unfoldable pub session_changes : List SessionKey → Core → List Change
unfolding is_sent
session_changes [] c = []
session_changes (k ∷ ks) c =
    let rest = session_changes ks c in
    elim (lookup k c.sessions) [
      | none ↦ rest
      | some r ↦ if is_sent r then rest else Change.session (view r) ∷ rest
    ]

-- `record.sent_view = view` for each of them.
unfoldable pub note_sent : List SessionKey → Core → Core
unfolding update
note_sent [] c = c
note_sent (k ∷ ks) c = note_sent ks (update k (λ r. record r { sent_view = some (view r) }) c)

unfoldable pub changes : Core → List Change
unfolding sort_keys session_changes
changes c =
    map Change.session_removed c.removed
    ++ (session_changes (sort_keys c.dirty) c
        ++ (if c.focus_dirty then Change.focus c.focus ∷ [] else []))

-- A `deque` with `maxlen`: the oldest go.
unfoldable pub push_delta : ℕ → ℕ × List Change → List (ℕ × List Change) → List (ℕ × List Change)
push_delta maxlen d deltas = let all = deltas ++ d ∷ [] in drop (length all - maxlen) all

console_outputs : Frame → List Connection → List Output
console_outputs frame states =
    map (λ s. send s.connection_id frame) (select (λ s. s.console) states)

-- The delta of a call, if anything changed.
unfoldable pub publish : List Change → Core → Core
unfolding push_delta console_outputs
publish [] c = c
publish (d ∷ ds) c =
    let seq = c.console_seq + 1 in
    record c {
      console_seq = seq;
      deltas = push_delta c.limits.delta_history (seq, d ∷ ds) c.deltas;
      out =
          c.out ++ console_outputs (Frame.delta c.instance_id seq (d ∷ ds)) (values c.connections);
    }

unfoldable pub cleared : Core → Core
cleared c = record c { out = []; dirty = []; removed = []; focus_dirty = false }

-- `_finish`
unfoldable pub finish : Core → Core × List Output
unfolding cleared
finish c =
    let published = publish (changes c) (note_sent c.dirty c) in (cleared published, published.out)

unfoldable pub connect : String → Core → Core × List Output
connect connection c =
    (record c { connections = insert connection (new_connection connection) c.connections }, [])

-- The handler of a connection's frame, by its role.
unfoldable pub handle : Connection → Object → ℕ → Core → Outcome
handle state frame now c = elim state.role [
  | none ↦ hello state frame c
  | some Role.host ↦ host_frame state frame now c
  | some Role.client ↦ client_frame state frame now c
]

-- The `except` clauses; the connection's object is the one that `_connections` holds.
unfoldable pub caught : String → ℕ → Outcome → Core
caught connection now (Outcome.done c) = c
caught connection now (Outcome.raised code c) = elim (lookup connection c.connections) [
  | none ↦ c
  | some state ↦ refuse state code now c
]

unfoldable pub receive : String → Object → ℕ → Core → Core × List Output
unfolding caught handle
receive connection frame now c = elim (lookup connection c.connections) [
  | none ↦ (c, [])
  | some state ↦ finish (caught connection now (handle state frame now c))
]

unfoldable pub disconnect : String → ℕ → Core → Core × List Output
disconnect connection now c = elim (lookup connection c.connections) [
  | none ↦ finish c
  | some state ↦
      finish (forget state now (record c { connections = remove connection c.connections }))
]

unfoldable pub is_expired : ℕ → Ticket → Bool
is_expired now t = leb t.expires_at now && not t.reserved

unfoldable pub keep_decided : ℕ → SessionRecord → SessionRecord
keep_decided now r = record r { decided = select (λ p. ltb now p.1) r.decided }

unfoldable pub is_stale : ℕ → ℕ → SessionRecord → Bool
is_stale ttl now r =
    (elim r.lifecycle [ Lifecycle.disconnected ↦ true | _ ↦ false ])
    && (elim r.disconnected_at [ none ↦ false | some t ↦ leb (t + ttl) now ])

-- One round of `tick`'s loop over the sessions.
unfoldable pub tick_session : SessionKey → ℕ → Core → Core
unfolding is_expired is_stale keep_decided update
tick_session key now c = elim (lookup key c.sessions) [
  | none ↦ c
  | some r ↦
      let expired = select (is_expired now) (values r.tickets) in
      let kept = update key (keep_decided now) (end_tickets key expired ResolvedBy.expired now c) in
      let computed = if is_empty expired then kept else recompute key kept in
      if is_stale c.limits.disconnected_ttl_ms now r
      then remove_session key now computed
      else computed
]

unfoldable pub tick_sessions : List SessionKey → ℕ → Core → Core
tick_sessions [] now c = c
tick_sessions (k ∷ ks) now c = tick_sessions ks now (tick_session k now c)

unfoldable pub is_retained : ℕ → Receipt → Bool
is_retained now receipt = not (present receipt.result) || ltb now receipt.retained_until

unfoldable pub drop_receipts : ℕ → Core → Core
unfolding is_retained
drop_receipts now c = record c { receipts = select (λ p. is_retained now p.1) c.receipts }

unfoldable pub tick : ℕ → Core → Core × List Output
unfolding drop_receipts
tick now c =
    let due = select (λ flight. leb flight.deadline now) (values c.in_flight) in
    let failed = fail_flights due now c in
    finish (drop_receipts now (tick_sessions (keys failed.sessions) now failed))

-- One call of the core by its server, and a sequence of calls.
pub data Input : Type 0 where
  connects : String → Input
  receives : String → Object → ℕ → Input
  disconnects : String → ℕ → Input
  ticks : ℕ → Input

unfoldable pub step : Input → Core → Core × List Output
step (connects connection) c = connect connection c
step (receives connection frame now) c = receive connection frame now c
step (disconnects connection now) c = disconnect connection now c
step (ticks now) c = tick now c

unfoldable pub run : List Input → Core → Core
run [] c = c
run (input ∷ inputs) c = run inputs (step input c).0

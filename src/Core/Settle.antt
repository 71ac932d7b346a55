-- ===== src/Core/Settle.antt =====
-- `_settle`, `_remove_session`, `_forget` and `_refuse` of bridge/deskhelm_core/core.py.
pub mod Receipts
use mathlib.Core.Bool.{not}
use deskhelm.Prelude.{
  ℕ, String, string_eq, pair_eq, option_eq, Bool, true, false, ◌||◌, List, [], ◌∷◌, ◌++◌, Option,
  none, some, select, present, ◌==◌, if◌then◌else◌,
}
use deskhelm.Dict.{lookup, remove, modify, map_values, values}
use deskhelm.Protocol.Session.{SessionKey, key_eq}
use deskhelm.Protocol.Shapes.{ResolvedBy}
use deskhelm.Protocol.Command.{Action}
use deskhelm.Core.Events.{Decision}
use deskhelm.Core.Frames.{
  Lifecycle, ResultCode, CommandResult, ErrorCode, Frame, Output, send, close,
}
use deskhelm.Core.State.{Core, SessionRecord, Ticket, Connection, Receipt, InFlight, Role}
use deskhelm.Core.Actions.{result_frame, update, resolved, Ending, ended, recompute, set_focus}
use deskhelm.Core.Tickets.{decide, change_ticket}

unfoldable pub is_dispatched : ResultCode → Bool
is_dispatched ResultCode.dispatched = true
is_dispatched _ = false

-- How `_resolved` reports a delivered decision.
unfoldable pub decision_ending : Action → Bool → Ending
decision_ending (Action.answer id answers) unknown = record {
  by = ResolvedBy.desk_helm;
  decision = none;
  answers = some answers;
  unknown = unknown;
}
decision_ending (Action.approve id) unknown = record {
  by = ResolvedBy.desk_helm;
  decision = some Decision.approve;
  answers = none;
  unknown = unknown;
}
decision_ending _ unknown = record {
  by = ResolvedBy.desk_helm;
  decision = some Decision.reject;
  answers = none;
  unknown = unknown;
}

abbrev by_of : Option ResolvedBy → ResolvedBy
by_of none = ResolvedBy.native
by_of (some by) = by

-- The ending of a ticket that is decided; `resolved_by` is set where it is not delivered.
unfoldable pub settled_ending : InFlight → Ticket → ResultCode → Bool → Ending
unfolding decision_ending is_dispatched
settled_ending flight t code delivered =
    if delivered
    then decision_ending flight.command.action (not (is_dispatched code))
    else ended (by_of t.resolved_by)

-- The part of `_settle` about the ticket.
unfoldable pub settle_ticket : InFlight → Ticket → ResultCode → Bool → ℕ → Core → Core
unfolding settled_ending decide change_ticket update
settle_ticket flight t code delivered now c = recompute flight.session (
    if delivered || present t.resolved_by
    then resolved flight.session t (settled_ending flight t code delivered) now
        (update flight.session (decide t) c)
    else update flight.session (change_ticket t.approval_id (λ t. record t { reserved = false })) c)

-- The ticket of a dispatched command, if its session still has it.
unfoldable pub flight_ticket : InFlight → Core → Option Ticket
flight_ticket flight c = elim flight.approval_id [
  | none ↦ none
  | some id ↦ elim (lookup flight.session c.sessions) [ none ↦ none | some r ↦ lookup id r.tickets ]
]

unfoldable pub settle_request : InFlight → ResultCode → Bool → ℕ → Core → Core
unfolding flight_ticket
settle_request flight code delivered now c = elim (flight_ticket flight c) [
  | none ↦ c
  | some t ↦ settle_ticket flight t code delivered now c
]

-- The waiters' frames: all but the first are duplicates.
unfoldable pub answers_for : CommandResult → Bool → List String → List Output
answers_for result duplicate [] = []
answers_for result duplicate (connection ∷ rest) =
    send connection (Frame.command_result result duplicate) ∷ answers_for result true rest

unfoldable pub answered : CommandResult → Receipt → Receipt
answered result r = record r { result = some result; waiters = [] }

-- The receipt's waiters are answered; an undelivered command leaves no receipt.
unfoldable pub close_receipt : InFlight → ResultCode → Bool → Receipt → Core → Core
unfolding answers_for answered
close_receipt flight code delivered receipt c =
    let result = result_frame flight.command.command_id code in
    record c {
      receipts =
          if delivered
          then modify flight.scope (answered result) c.receipts
          else remove flight.scope c.receipts;
      out = c.out ++ answers_for result false receipt.waiters;
    }

unfoldable pub settle_receipt : InFlight → ResultCode → Bool → Core → Core
unfolding close_receipt
settle_receipt flight code delivered c = elim (lookup flight.scope c.receipts) [
  | none ↦ c
  | some receipt ↦ close_receipt flight code delivered receipt c
]

unfoldable pub settle : InFlight → ResultCode → Bool → ℕ → Core → Core
settle flight code delivered now c = settle_receipt flight code delivered (
    settle_request flight code delivered now
      (record c { in_flight = remove flight.effect_id c.in_flight }))

-- `for flight in flights: self._settle(flight, DISPATCH_FAILED, delivered=True, now=now)`
unfoldable pub fail_flights : List InFlight → ℕ → Core → Core
fail_flights [] now c = c
fail_flights (flight ∷ rest) now c =
    fail_flights rest now (settle flight ResultCode.dispatch_failed true now c)

unfoldable pub flights_of : SessionKey → Core → List InFlight
flights_of key c = select (λ flight. flight.session == key) (values c.in_flight)

unfoldable pub leave_session : SessionKey → Connection → Connection
leave_session key s = if s.session == some key then record s { session = none } else s

unfoldable pub unfocus : SessionKey → Core → Core
unfocus key c = if c.focus == some key then set_focus none c else c

unfoldable pub erase_session : SessionKey → Core → Core
unfolding leave_session unfocus
erase_session key c =
    let d = unfocus key (record c {
      sessions = remove key c.sessions;
      dirty = select (λ k. not (k == key)) c.dirty;
      removed = c.removed ++ key ∷ [];
    }) in
    record d { connections = map_values (leave_session key) d.connections }

-- `_remove_session`
unfoldable pub remove_session : SessionKey → ℕ → Core → Core
remove_session key now c = erase_session key (fail_flights (flights_of key c) now c)

unfoldable pub stop_waiting : String → Receipt → Receipt
stop_waiting connection r = record r {
  waiters = select (λ waiter. not (waiter == connection)) r.waiters;
}

unfoldable pub disconnected : ℕ → SessionRecord → SessionRecord
disconnected now r = record r {
  owner = none;
  lifecycle = Lifecycle.disconnected;
  disconnected_at = some now;
  tickets = [];
  attention = false;
  turn_id = none;
  turn_correlation = none;
}

-- The part of `_forget` after its guards: the host of the session is gone.
unfoldable pub lose_host : SessionKey → ℕ → Core → Core
unfolding disconnected unfocus update
lose_host key now c =
    recompute key
      (unfocus key (update key (disconnected now) (fail_flights (flights_of key c) now c)))

-- The session that the connection owns as a host, if it owns one.
unfoldable pub owned_session : Connection → Core → Option SessionKey
owned_session state c = elim state.role [
  | none ↦ none
  | some Role.client ↦ none
  | some Role.host ↦ elim state.session [
    | none ↦ none
    | some key ↦ elim (lookup key c.sessions) [
      | none ↦ none
      | some r ↦ if r.owner == some state.connection_id then some key else none
    ]
  ]
]

unfoldable pub drop_waiters : Connection → Core → Core
unfolding stop_waiting
drop_waiters state c = record c {
  receipts = map_values (stop_waiting state.connection_id) c.receipts;
}

-- `_forget`
unfoldable pub forget : Connection → ℕ → Core → Core
unfolding owned_session
forget state now c =
    let d = drop_waiters state c in
    elim (owned_session state d) [ none ↦ d | some key ↦ lose_host key now d ]

-- `_refuse`
unfoldable pub refuse : Connection → ErrorCode → ℕ → Core → Core
refuse state code now c = forget state now (record c {
  out = c.out ++ send state.connection_id (Frame.error code) ∷ close state.connection_id code ∷ [];
  connections = remove state.connection_id c.connections;
})

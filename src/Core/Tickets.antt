-- ===== src/Core/Tickets.antt =====
-- Requests that wait for a person: `ticket_for`, `_open_ticket`, `_turn_terminal` and the
-- resolution of a request by its vendor, in bridge/deskhelm_core/core.py.
use mathlib.Core.Bool.{not}
use deskhelm.Prelude.{
  ℕ, String, string_eq, Bool, true, false, ◌&&◌, List, [], ◌∷◌, Option, none, some, map, ltb,
  length, select, present, ◌==◌, if◌then◌else◌,
}
use deskhelm.Dict.{Dict, lookup, insert, remove, modify, values}
use deskhelm.Protocol.Session.{SessionKey, key_eq}
use deskhelm.Protocol.Request.{RequestKind, OpenRequest, Answers}
use deskhelm.Protocol.Shapes.{TurnStatus, Failure, ResolvedBy, Terminal}
use deskhelm.Core.Events.{Payload}
use deskhelm.Core.State.{Core, SessionRecord, Ticket}
use deskhelm.Core.Actions.{interaction, resolved, ended, new_id, counted, update}

find_ref : String → Dict String Ticket → Option Ticket
find_ref ref [] = none
find_ref ref ((id, t) ∷ ts) = if t.provider_ref == ref then some t else find_ref ref ts

unfoldable pub ticket_for : SessionRecord → String → Option Ticket
unfolding find_ref
ticket_for r ref = find_ref ref r.tickets

unfoldable pub new_ticket : String → OpenRequest → Ticket
new_ticket id request = record {
  approval_id = id;
  provider_ref = request.provider_ref;
  kind = request.kind;
  summary = request.summary;
  expires_at = request.expires_at;
  answerable = request.answerable;
  blocking = request.blocking;
  question_ids = map (λ q. q.id) request.questions;
  reserved = false;
  resolved_by = none;
}

unfoldable pub announcement : String → OpenRequest → Payload
announcement id request = elim request.kind [
  | RequestKind.approval ↦
      Payload.approval_request id request.summary request.expires_at request.detail
  | RequestKind.input ↦
      Payload.user_input_required id request.summary request.detail request.questions
        request.expires_at request.answerable request.blocking
]

unfoldable pub put_ticket : Ticket → SessionRecord → SessionRecord
put_ticket t r = record r { tickets = insert t.approval_id t r.tickets }

-- The two guards of `_open_ticket`.
unfoldable pub opens : Core → SessionRecord → OpenRequest → ℕ → Bool
opens c r request now =
    not (present (ticket_for r request.provider_ref))
    && (ltb (length r.tickets) c.limits.max_tickets && ltb now request.expires_at)

-- `_open_ticket` past its guards.
unfoldable pub add_ticket : SessionKey → OpenRequest → ℕ → Bool → Core → Core
unfolding new_ticket announcement put_ticket new_id counted update
add_ticket key request now announce c =
    let id = new_id "a" c in
    let added = update key (put_ticket (new_ticket id request)) (counted c) in
    if announce then interaction key (announcement id request) id now added else added

unfoldable pub open_ticket : SessionKey → OpenRequest → ℕ → Bool → Core → Core
unfolding opens add_ticket
open_ticket key request now announce c = elim (lookup key c.sessions) [
  | none ↦ c
  | some r ↦ if opens c r request now then add_ticket key request now announce c else c
]

-- `for request in requests: self._open_ticket(...)`
unfoldable pub open_tickets : SessionKey → List OpenRequest → ℕ → Core → Core
open_tickets key [] now c = c
open_tickets key (request ∷ rest) now c =
    open_tickets key rest now (open_ticket key request now true c)

unfoldable pub drop_ticket : String → SessionRecord → SessionRecord
drop_ticket id r = record r { tickets = remove id r.tickets }

-- `record.tickets.pop(id)` into `decided`.
unfoldable pub decide : Ticket → SessionRecord → SessionRecord
decide t r = record r {
  tickets = remove t.approval_id r.tickets;
  decided = insert t.approval_id t.expires_at r.decided;
}

unfoldable pub change_ticket : String → (Ticket → Ticket) → SessionRecord → SessionRecord
change_ticket id f r = record r { tickets = modify id f r.tickets }

-- The fact `request_resolved`, for the ticket it names.
unfoldable pub vendor_resolved : SessionKey → Ticket → ResolvedBy → Option Answers → ℕ → Core → Core
unfolding decide change_ticket update
vendor_resolved key t by answers now c =
    if t.reserved
    then update key (change_ticket t.approval_id (λ t. record t { resolved_by = some by })) c
    else resolved key t (record { by = by; decision = none; answers = answers; unknown = false })
        now (update key (decide t) c)

-- `for id in ids: self._resolved(record, record.tickets.pop(id), by, now)`, over the tickets.
unfoldable pub end_tickets : SessionKey → List Ticket → ResolvedBy → ℕ → Core → Core
unfolding drop_ticket update
end_tickets key [] by now c = c
end_tickets key (t ∷ ts) by now c =
    end_tickets key ts by now
      (resolved key t (ended by) now (update key (drop_ticket t.approval_id) c))

unfoldable pub failure_name : Failure → String
failure_name Failure.provider = "provider"
failure_name Failure.usage_limit = "usage_limit"
failure_name Failure.auth = "auth"
failure_name Failure.protocol = "protocol"
failure_name Failure.transport_lost = "transport_lost"
failure_name Failure.process_exit = "process_exit"
failure_name Failure.timeout = "timeout"

unfoldable pub error_code : TurnStatus → Option Failure → String
unfolding failure_name
error_code TurnStatus.interrupted failure = "interrupted"
error_code status none = "agent_failed"
error_code status (some failure) = failure_name failure

unfoldable pub terminal_payload : Terminal → Payload
unfolding error_code
terminal_payload t = elim t.status [
  | TurnStatus.completed ↦ Payload.task_completed t.message
  | TurnStatus.interrupted ↦
      Payload.task_failed t.message (error_code TurnStatus.interrupted t.failure)
  | TurnStatus.failed ↦ Payload.task_failed t.message (error_code TurnStatus.failed t.failure)
]

unfoldable pub end_turn : Terminal → SessionRecord → SessionRecord
end_turn t r = record r {
  last_outcome = some (record {
    status = t.status;
    failure = t.failure;
    reusable = t.reusable;
    turn_id = r.turn_id;
  });
  turn_id = none;
  turn_correlation = none;
  attention = false;
}

abbrev pub text_or_empty : Option String → String
text_or_empty none = ""
text_or_empty (some s) = s

-- `_turn_terminal`: requests that block the turn end with it, unless a decision is in flight.
unfoldable pub turn_terminal : SessionKey → SessionRecord → Terminal → ℕ → Core → Core
unfolding end_turn terminal_payload update
turn_terminal key r t now c =
    let ending = select (λ t. not t.reserved && t.blocking) (values r.tickets) in
    interaction key (terminal_payload t) (text_or_empty r.turn_correlation) now
      (end_tickets key ending ResolvedBy.cancelled now (update key (end_turn t) c))

-- ===== src/Core/Commands.antt =====
-- `_command` of bridge/deskhelm_core/core.py: a client's command becomes a
-- refusal, a repeated answer, a change of focus, or an effect for the session's host.
pub mod Authority
pub mod Scopes
pub mod Decisions
pub mod Decided
use mathlib.Core.Bool.{not}
use deskhelm.Prelude.{
  ℕ, ◌+◌, max, String, string_eq, pair_eq, Bool, true, false, ◌&&◌, ◌||◌, List, [], ◌∷◌, ◌++◌,
  Option, none, some, ltb, leb, length, all, contains, present, ◌==◌, if◌then◌else◌,
}
use deskhelm.Dict.{lookup, insert, modify, has_key, keys}
use deskhelm.Json.{Json, Object, members}
use deskhelm.Protocol.Fields.{Result, ok, violation, get}
use deskhelm.Protocol.Session.{SessionKey, key_eq}
use deskhelm.Protocol.Capability.{PromptWhileBusy, ApprovalSupport, InputSupport}
use deskhelm.Protocol.Request.{Answers}
use deskhelm.Protocol.Command.{CommandKind, Action, Command, kind_of, command_from_dict, canonical}
use deskhelm.Core.Events.{Decision}
use deskhelm.Core.Frames.{Activity, Lifecycle, ResultCode, Effect, Frame}
use deskhelm.Core.State.{Core, SessionRecord, Ticket, Connection, Receipt, Tier}
use deskhelm.Core.Actions.{
  send_to, send_result, result_frame, new_id, counted, update, set_focus, is_approval, is_input,
}
use deskhelm.Core.Tickets.{change_ticket}
use deskhelm.Core.Plans.{Plan, plan_effect, is_permitted}

abbrev pub scope_of : Command → String × String
scope_of command = (command.issued_by, command.idempotency_key)

-- `command.fingerprint()`
unfoldable pub fingerprint : Core → Command → String
unfolding canonical
fingerprint c command = c.sha256 (canonical command)

-- The first three refusals: of the issuer, the time and the tier.
unfoldable pub refused_early : Connection → Command → ℕ → Option ResultCode
unfolding is_permitted kind_of
refused_early state command now =
    if not (command.issued_by == state.client_id)
    then some ResultCode.issuer_mismatch
    else if leb command.expires_at now
    then some ResultCode.expired
    else if not (is_permitted state.tier (kind_of command.action))
    then some ResultCode.not_permitted
    else none

-- A command whose scope has a receipt.
unfoldable pub repeat_command : String → Command → Receipt → Core → Core
repeat_command connection command receipt c =
    if not (receipt.fingerprint == fingerprint c command)
    then send_result connection command.command_id ResultCode.idempotency_conflict c
    else elim receipt.result [
      | some result ↦ send_to (some connection) (Frame.command_result result true) c
      | none ↦ record c {
        receipts =
            modify (scope_of command) (λ r. record r { waiters = r.waiters ++ connection ∷ [] })
              c.receipts;
      }
    ]

unfoldable pub retained_until : Core → Command → ℕ → ℕ
retained_until c command now = max command.expires_at (now + c.limits.receipt_retention_ms)

unfoldable pub add_receipt : Command → Receipt → Core → Core
add_receipt command receipt c = record c { receipts = insert (scope_of command) receipt c.receipts }

unfoldable pub focus_command : String → SessionRecord → Command → ℕ → Core → Core
unfolding add_receipt
focus_command connection r command now c =
    let result = result_frame command.command_id ResultCode.focused in
    send_to (some connection) (Frame.command_result result false) (
      add_receipt command
        (record {
          fingerprint = fingerprint c command;
          retained_until = retained_until c command now;
          result = some result;
          waiters = [];
        })
        (set_focus (some r.key) c))

unfoldable pub reserve : SessionKey → Option Ticket → Core → Core
unfolding change_ticket update
reserve key none c = c
reserve key (some t) c =
    update key (change_ticket t.approval_id (λ t. record t { reserved = true })) c

abbrev ticket_id : Option Ticket → Option String
ticket_id none = none
ticket_id (some t) = some t.approval_id

-- The command goes to the host: a receipt, a flight, a reserved ticket and an effect frame.
unfoldable pub dispatch :
    String → SessionRecord → Command → Effect → Option Ticket → ℕ → Core → Core
unfolding add_receipt new_id counted
dispatch connection r command effect ticket now c =
    let effect_id = new_id "e" c in
    let noted =
      add_receipt command
        (record {
          fingerprint = fingerprint c command;
          retained_until = retained_until c command now;
          result = none;
          waiters = connection ∷ [];
        })
        (counted c) in
    send_to r.owner (Frame.effect effect_id command.command_id effect) (
      reserve command.target ticket (record noted {
        in_flight =
            insert effect_id
              (record {
                effect_id = effect_id;
                command = command;
                session = r.key;
                deadline = now + c.limits.effect_deadline_ms;
                approval_id = ticket_id ticket;
                scope = scope_of command;
              })
              noted.in_flight;
      }))

unfoldable pub is_active : SessionRecord → Bool
is_active r = (elim r.lifecycle [ Lifecycle.active ↦ true | _ ↦ false ]) && present r.owner

unfoldable pub run_plan : String → SessionRecord → Command → Plan → ℕ → Core → Core
run_plan connection r command (Plan.refusal code) now c =
    send_result connection command.command_id code c
run_plan connection r command (Plan.deliver effect ticket) now c =
    dispatch connection r command effect ticket now c

unfoldable pub run_action : String → SessionRecord → Command → Action → ℕ → Core → Core
unfolding run_plan
run_action connection r command Action.focus now c = focus_command connection r command now c
run_action connection r command action now c =
    run_plan connection r command (plan_effect r action now) now c

-- A new command, past the receipts.
unfoldable pub new_command : String → Command → ℕ → Core → Core
unfolding run_action is_active
new_command connection command now c = elim (lookup command.target c.sessions) [
  | none ↦ send_result connection command.command_id ResultCode.target_not_found c
  | some r ↦
      if not (is_active r)
      then send_result connection command.command_id ResultCode.target_inactive c
      else if leb c.limits.max_receipts (length c.receipts)
      then send_result connection command.command_id ResultCode.idempotency_capacity c
      else run_action connection r command command.action now c
]

-- `_command` on a checked command.
unfoldable pub run_command : Connection → Command → ℕ → Core → Core
unfolding refused_early repeat_command new_command
run_command state command now c = elim (refused_early state command now) [
  | some code ↦ send_result state.connection_id command.command_id code c
  | none ↦ elim (lookup (scope_of command) c.receipts) [
    | some receipt ↦ repeat_command state.connection_id command receipt c
    | none ↦ new_command state.connection_id command now c
  ]
]

-- The id that an invalid command is answered under.
unfoldable pub claimed_id : Json → String
claimed_id (Json.obj ms) = elim (get (members ms) "command_id") [ Json.str id ↦ id | _ ↦ "" ]
claimed_id _ = ""

-- `_command`
unfoldable pub command : Connection → Json → ℕ → Core → Core
unfolding claimed_id run_command
command state raw now c = elim (command_from_dict raw) [
  | violation ↦ send_result state.connection_id (claimed_id raw) ResultCode.invalid_command c
  | ok cmd ↦ run_command state cmd now c
]

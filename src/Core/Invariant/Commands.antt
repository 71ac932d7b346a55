-- ===== src/Core/Invariant/Commands.antt =====
-- A client's commands, subscriptions and queries keep the capacity invariant.
use deskhelm.Prelude.{
  ℕ, ◌<◌, String, string_eq, pair_eq, Option, none, some, arith, inl, inr, if-keeps, Bool-cases,
  Option-cases, length, leb, not_leb→lt, ◌==◌, refl, true,
}
use deskhelm.Dict.{lookup}
use deskhelm.Dict.Laws.{length-insert, length-modify}
use deskhelm.Json.{Json}
use deskhelm.Protocol.Session.{SessionKey, key_eq}
use deskhelm.Protocol.Fields.{Result-cases}
use deskhelm.Protocol.Command.{Action, Command, command_from_dict}
use deskhelm.Core.Frames.{Effect}
use deskhelm.Core.State.{SessionRecord, Core, Ticket, Connection, Receipt}
use deskhelm.Core.Actions.{counted, set_focus}
use deskhelm.Core.Plans.{Plan}
use deskhelm.Core.Commands.{
  refused_early, repeat_command, add_receipt, focus_command, reserve, dispatch, run_plan,
  run_action, new_command, run_command, claimed_id, command, scope_of, is_active, fingerprint,
}
use deskhelm.Core.Invariant.{Fits, update-Fits}
use deskhelm.Core.Invariant.Actions.{send_to-Fits, send_result-Fits, counted-Fits, set_focus-Fits}
use deskhelm.Core.Invariant.Tickets.{change_ticket-RecordFits}

add_receipt-Fits :
    (cmd : Command) (receipt : Receipt) (c : Core)
    → length c.receipts < c.limits.max_receipts
    → Fits c
    → Fits (add_receipt cmd receipt c)
unfolding add_receipt
add_receipt-Fits cmd receipt c room h = record {
  sessions_fit = h.sessions_fit;
  receipts_fit = ground (arith, length-insert (scope_of cmd) receipt c.receipts);
  deltas_fit = h.deltas_fit;
  deltas_run = h.deltas_run;
  hosts_fit = h.hosts_fit;
  clients_fit = h.clients_fit;
  records_fit = h.records_fit;
}

repeat_command-Fits :
    (connection : String) (cmd : Command) (receipt : Receipt) (c : Core)
    → Fits c
    → Fits (repeat_command connection cmd receipt c)
unfolding repeat_command
repeat_command-Fits connection cmd receipt c h =
    elim (Bool-cases (receipt.fingerprint == fingerprint c cmd)) [
      | inr other ↦ rw other (send_result-Fits connection cmd.command_id _ c h)
      | inl same ↦ rw same (elim (Option-cases receipt.result) [
        | inl pending ↦ rw pending (record {
          sessions_fit = h.sessions_fit;
          receipts_fit = omega (arith, h.receipts_fit, length-modify (scope_of cmd) _ c.receipts);
          deltas_fit = h.deltas_fit;
          deltas_run = h.deltas_run;
          hosts_fit = h.hosts_fit;
          clients_fit = h.clients_fit;
          records_fit = h.records_fit;
        })
        | inr (result, known) ↦ rw known (send_to-Fits (some connection) _ c h)
      ])
    ]

set_focus-receipts :
    (key : Option SessionKey) (c : Core)
    → length c.receipts < c.limits.max_receipts
    → length (set_focus key c).receipts < (set_focus key c).limits.max_receipts
unfolding set_focus
set_focus-receipts key c room =
    if-keeps (λ (d : Core). length d.receipts < d.limits.max_receipts) _ room room

focus_command-Fits :
    (connection : String) (r : SessionRecord) (cmd : Command) (now : ℕ) (c : Core)
    → length c.receipts < c.limits.max_receipts
    → Fits c
    → Fits (focus_command connection r cmd now c)
unfolding focus_command
focus_command-Fits connection r cmd now c room h = send_to-Fits (some connection) _ _ (
    add_receipt-Fits cmd _ _ (set_focus-receipts (some r.key) c room)
      (set_focus-Fits (some r.key) c h))

reserve-Fits : (key : SessionKey) (t : Option Ticket) (c : Core) → Fits c → Fits (reserve key t c)
unfolding reserve
reserve-Fits key none c h = h
reserve-Fits key (some t) c h =
    update-Fits key _ c
      (λ r _.
        change_ticket-RecordFits c.limits t.approval_id (λ u. record u { reserved = true }) r
          (λ u. refl))
      h

dispatch-Fits :
    (connection : String) (r : SessionRecord) (cmd : Command) (effect : Effect) (t : Option Ticket)
    (now : ℕ) (c : Core)
    → length c.receipts < c.limits.max_receipts
    → Fits c
    → Fits (dispatch connection r cmd effect t now c)
unfolding dispatch
dispatch-Fits connection r cmd effect t now c room h =
    let noted = add_receipt-Fits cmd _ (counted c) room (counted-Fits c h) in
    send_to-Fits r.owner _ _ (
      reserve-Fits cmd.target t _ (record {
        sessions_fit = noted.sessions_fit;
        receipts_fit = noted.receipts_fit;
        deltas_fit = noted.deltas_fit;
        deltas_run = noted.deltas_run;
        hosts_fit = noted.hosts_fit;
        clients_fit = noted.clients_fit;
        records_fit = noted.records_fit;
      }))

run_plan-Fits :
    (connection : String) (r : SessionRecord) (cmd : Command) (plan : Plan) (now : ℕ) (c : Core)
    → length c.receipts < c.limits.max_receipts
    → Fits c
    → Fits (run_plan connection r cmd plan now c)
unfolding run_plan
run_plan-Fits connection r cmd (Plan.refusal code) now c room h =
    send_result-Fits connection cmd.command_id code c h
run_plan-Fits connection r cmd (Plan.deliver effect t) now c room h =
    dispatch-Fits connection r cmd effect t now c room h

run_action-Fits :
    (connection : String) (r : SessionRecord) (cmd : Command) (action : Action) (now : ℕ) (c : Core)
    → length c.receipts < c.limits.max_receipts
    → Fits c
    → Fits (run_action connection r cmd action now c)
unfolding run_action
run_action-Fits connection r cmd Action.focus now c room h =
    focus_command-Fits connection r cmd now c room h
run_action-Fits connection r cmd action now c room h = run_plan-Fits connection r cmd _ now c room h

new_command-Fits :
    (connection : String) (cmd : Command) (now : ℕ) (c : Core)
    → Fits c
    → Fits (new_command connection cmd now c)
unfolding new_command
new_command-Fits connection cmd now c h = elim (Option-cases (lookup cmd.target c.sessions)) [
  | inl missing ↦ rw (missing, new_command) (send_result-Fits connection cmd.command_id _ c h)
  | inr (r, found) ↦
      rw (found, new_command)
        (elim (Bool-cases (is_active r)) [
          | inr gone ↦ rw gone (send_result-Fits connection cmd.command_id _ c h)
          | inl live ↦ rw live (elim (Bool-cases (leb c.limits.max_receipts (length c.receipts))) [
            | inl full ↦ rw full (send_result-Fits connection cmd.command_id _ c h)
            | inr room ↦
                rw room (run_action-Fits connection r cmd cmd.action now c (not_leb→lt _ _ room) h)
          ])
        ])
]

pub run_command-Fits :
    (state : Connection) (cmd : Command) (now : ℕ) (c : Core)
    → Fits c
    → Fits (run_command state cmd now c)
unfolding run_command
run_command-Fits state cmd now c h = elim (Option-cases (refused_early state cmd now)) [
  | inr (code, refused) ↦
      rw (refused, run_command) (send_result-Fits state.connection_id cmd.command_id code c h)
  | inl permitted ↦
      rw (permitted, run_command)
        (elim (Option-cases (lookup (scope_of cmd) c.receipts)) [
          | inl fresh ↦ rw fresh (new_command-Fits state.connection_id cmd now c h)
          | inr (receipt, found) ↦
              rw found (repeat_command-Fits state.connection_id cmd receipt c h)
        ])
]

pub command-Fits :
    (state : Connection) (raw : Json) (now : ℕ) (c : Core) → Fits c → Fits (command state raw now c)
unfolding command
command-Fits state raw now c h = elim (Result-cases (command_from_dict raw)) [
  | inl wrong ↦ rw (wrong, command) (send_result-Fits state.connection_id (claimed_id raw) _ c h)
  | inr (cmd, fine) ↦ rw (fine, command) (run_command-Fits state cmd now c h)
]

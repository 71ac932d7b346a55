-- ===== src/Core/Commands/Scopes.antt =====
-- One scope makes the core act once: the receipts of `_command` in bridge/deskhelm_core/core.py.
use deskhelm.Prelude.{
  ℕ, ◌≡◌, refl, String, string_eq, pair_eq, true, Option, none, some, ◌⊎◌, inl, inr, Bool-cases,
  Option-cases, leb, length,
}
use deskhelm.Dict.{lookup, has_key}
use deskhelm.Dict.Laws.{lookup-insert_self}
use deskhelm.Protocol.Session.{SessionKey, key_eq}
use deskhelm.Protocol.Command.{Action, Command}
use deskhelm.Core.Frames.{Effect, Frame}
use deskhelm.Core.State.{Core, SessionRecord, Connection, Receipt, Ticket}
use deskhelm.Core.Actions.{send_to, set_focus, counted, update}
use deskhelm.Core.Plans.{Plan}
use deskhelm.Core.Commands.{
  scope_of, refused_early, focus_command, dispatch, reserve, is_active, add_receipt, run_plan,
  run_action, new_command, run_command,
}
use deskhelm.Core.Commands.Authority.{Untouched, send_result-Untouched, repeat_command-Untouched}

send_to-receipts :
    (to : Option String) (frame : Frame) (c : Core) → (send_to to frame c).receipts ≡ c.receipts
unfolding send_to
send_to-receipts none frame c = refl
send_to-receipts (some connection) frame c = refl

reserve-receipts :
    (key : SessionKey) (ticket : Option Ticket) (c : Core)
    → (reserve key ticket c).receipts ≡ c.receipts
unfolding reserve update
reserve-receipts key none c = refl
reserve-receipts key (some t) c = refl

-- A receipt of the command's scope is there.
abbrev Noted : Command → Core → Type 0
Noted cmd c = has_key (scope_of cmd) c.receipts ≡ true

add_receipt-Noted :
    (cmd : Command) (receipt : Receipt) (c : Core) → Noted cmd (add_receipt cmd receipt c)
unfolding add_receipt has_key
add_receipt-Noted cmd receipt c = rw (lookup-insert_self (scope_of cmd) receipt c.receipts) refl

focus_command-Noted :
    (connection : String) (r : SessionRecord) (cmd : Command) (now : ℕ) (c : Core)
    → Noted cmd (focus_command connection r cmd now c)
unfolding focus_command send_to
focus_command-Noted connection r cmd now c = add_receipt-Noted cmd _ (set_focus (some r.key) c)

dispatch-Noted :
    (connection : String) (r : SessionRecord) (cmd : Command) (what : Effect)
    (ticket : Option Ticket) (now : ℕ) (c : Core)
    → Noted cmd (dispatch connection r cmd what ticket now c)
unfolding dispatch
dispatch-Noted connection r cmd what ticket now c =
    rw (send_to-receipts r.owner _ _, reserve-receipts cmd.target ticket _)
      (add_receipt-Noted cmd _ (counted c))

run_plan-Noted :
    (connection : String) (r : SessionRecord) (cmd : Command) (plan : Plan) (now : ℕ) (c : Core)
    → Untouched c (run_plan connection r cmd plan now c)
      ⊎ Noted cmd (run_plan connection r cmd plan now c)
unfolding run_plan
run_plan-Noted connection r cmd (Plan.refusal code) now c =
    inl (send_result-Untouched connection cmd.command_id code c)
run_plan-Noted connection r cmd (Plan.deliver what ticket) now c =
    inr (dispatch-Noted connection r cmd what ticket now c)

run_action-Noted :
    (connection : String) (r : SessionRecord) (cmd : Command) (action : Action) (now : ℕ) (c : Core)
    → Untouched c (run_action connection r cmd action now c)
      ⊎ Noted cmd (run_action connection r cmd action now c)
unfolding run_action
run_action-Noted connection r cmd Action.focus now c =
    inr (focus_command-Noted connection r cmd now c)
run_action-Noted connection r cmd action now c = run_plan-Noted connection r cmd _ now c

new_command-Noted :
    (connection : String) (cmd : Command) (now : ℕ) (c : Core)
    → Untouched c (new_command connection cmd now c) ⊎ Noted cmd (new_command connection cmd now c)
unfolding new_command
new_command-Noted connection cmd now c = elim (Option-cases (lookup cmd.target c.sessions)) [
  | inl missing ↦
      inl (rw (missing, new_command) (send_result-Untouched connection cmd.command_id _ c))
  | inr (r, found) ↦ elim (Bool-cases (is_active r)) [
    | inr gone ↦
        inl (rw (found, new_command, gone) (send_result-Untouched connection cmd.command_id _ c))
    | inl live ↦ elim (Bool-cases (leb c.limits.max_receipts (length c.receipts))) [
      | inl full ↦ inl (
          rw (found, new_command, live, full) (send_result-Untouched connection cmd.command_id _ c))
      | inr room ↦
          rw (found, new_command, live, room) (run_action-Noted connection r cmd cmd.action now c)
    ]
  ]
]

run_command-Noted :
    (state : Connection) (cmd : Command) (now : ℕ) (c : Core)
    → Untouched c (run_command state cmd now c) ⊎ Noted cmd (run_command state cmd now c)
unfolding run_command
run_command-Noted state cmd now c = elim (Option-cases (refused_early state cmd now)) [
  | inr (code, refused) ↦
      inl (
        rw (refused, run_command) (send_result-Untouched state.connection_id cmd.command_id code c))
  | inl permitted ↦ elim (Option-cases (lookup (scope_of cmd) c.receipts)) [
    | inr (receipt, known) ↦ inl (
        rw (permitted, run_command, known)
          (repeat_command-Untouched state.connection_id cmd receipt c))
    | inl unused ↦
        rw (permitted, run_command, unused) (new_command-Noted state.connection_id cmd now c)
  ]
]

known_scope :
    (state : Connection) (cmd : Command) (now : ℕ) (c : Core)
    → Noted cmd c
    → Untouched c (run_command state cmd now c)
unfolding run_command has_key
known_scope state cmd now c h = elim (Option-cases (refused_early state cmd now)) [
  | inr (code, refused) ↦
      rw (refused, run_command) (send_result-Untouched state.connection_id cmd.command_id code c)
  | inl permitted ↦ elim (Option-cases (lookup (scope_of cmd) c.receipts)) [
    | inr (receipt, known) ↦
        rw (permitted, run_command, known)
          (repeat_command-Untouched state.connection_id cmd receipt c)
    | inl unused ↦ cc
  ]
]

-- Of two commands with the same issuer and idempotency key, run one after the other by any
-- connections at any times, at most one changes a session, the focus, the flights or the ids.
pub at_most_once :
    (first second : Connection) (cmd cmd' : Command) (now later : ℕ) (c : Core)
    → scope_of cmd' ≡ scope_of cmd
    → Untouched c (run_command first cmd now c)
      ⊎ Untouched
          (run_command first cmd now c)
          (run_command second cmd' later (run_command first cmd now c))
at_most_once first second cmd cmd' now later c same = elim (run_command-Noted first cmd now c) [
  | inl untouched ↦ inl untouched
  | inr noted ↦ inr (known_scope second cmd' later _ (rw same noted))
]

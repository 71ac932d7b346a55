-- ===== src/Core/Commands/Decided.antt =====
-- At most one decision of a request acts: `_command` of bridge/deskhelm_core/core.py.
use deskhelm.Prelude.{
  ℕ, ◌≡◌, refl, sym, subst, String, string_eq, pair_eq, Option, some, ◌⊎◌, inl, inr, Bool-cases,
  Option-cases, leb, length, List,
}
use deskhelm.Dict.{lookup}
use deskhelm.Dict.Every.{Every-lookup}
use deskhelm.Protocol.Session.{key_eq}
use deskhelm.Protocol.Command.{Action, Command}
use deskhelm.Core.Frames.{Effect}
use deskhelm.Core.State.{Config, Core, SessionRecord, Connection, Ticket, init}
use deskhelm.Core.Plans.{Plan, plan_effect}
use deskhelm.Core.Plans.Grants.{Grants, plan_effect-Grants}
use deskhelm.Core.Commands.{
  scope_of, refused_early, is_active, run_plan, run_action, new_command, run_command,
}
use deskhelm.Core.Commands.Authority.{Untouched, send_result-Untouched, repeat_command-Untouched}
use deskhelm.Core.Invariant.{Fits, RecordFits, Named}
use deskhelm.Core.Invariant.Names.{Named-lookup}
use deskhelm.Core.Invariant.Inputs.{run-init-Fits}
use deskhelm.Core.Machine.{Input, run}
use deskhelm.Core.Commands.Decisions.{
  requested, Taken, TakenIn, Grants-not_Taken, Grants-request, dispatch-TakenIn,
}

module _ (connection : String) (cmd : Command) (now : ℕ) (c : Core) (id : String) where
  run_plan-TakenIn :
      (r : SessionRecord) (action : Action) (plan : Plan)
      → ((what : Effect) (ticket : Option Ticket)
          → plan ≡ Plan.deliver what ticket
          → Grants r now action what ticket)
      → requested action ≡ some id
      → lookup cmd.target c.sessions ≡ some r
      → Named r.tickets
      → Untouched c (run_plan connection r cmd plan now c)
        ⊎ TakenIn cmd.target id (run_plan connection r cmd plan now c)
  unfolding run_plan
  run_plan-TakenIn r action (Plan.refusal code) grants q found named =
      inl (send_result-Untouched connection cmd.command_id code c)
  run_plan-TakenIn r action (Plan.deliver what ticket) grants q found named =
      let (t, this, has) = Grants-request r now action what ticket id (grants what ticket refl) q in
      let own = Named-lookup id t r.tickets named has in
      inr (
        rw (this, sym own)
          (dispatch-TakenIn connection r cmd what t now c found
            (subst (λ i. lookup i r.tickets ≡ some t) (sym own) has)))

  run_action-TakenIn :
      (r : SessionRecord) (action : Action)
      → requested action ≡ some id
      → lookup cmd.target c.sessions ≡ some r
      → Named r.tickets
      → Untouched c (run_action connection r cmd action now c)
        ⊎ TakenIn cmd.target id (run_action connection r cmd action now c)
  unfolding run_action requested
  run_action-TakenIn r Action.focus q found named = cc
  run_action-TakenIn r action q found named =
      run_plan-TakenIn r action (plan_effect r action now) (plan_effect-Grants r action now) q found
        named

  run_plan-Taken :
      (r : SessionRecord) (action : Action) (plan : Plan)
      → ((what : Effect) (ticket : Option Ticket)
          → plan ≡ Plan.deliver what ticket
          → Grants r now action what ticket)
      → requested action ≡ some id
      → Taken id r
      → Untouched c (run_plan connection r cmd plan now c)
  unfolding run_plan
  run_plan-Taken r action (Plan.refusal code) grants q taken =
      send_result-Untouched connection cmd.command_id code c
  run_plan-Taken r action (Plan.deliver what ticket) grants q taken =
      absurd (Grants-not_Taken r now action what ticket id (grants what ticket refl) q taken)

  run_action-Taken :
      (r : SessionRecord) (action : Action)
      → requested action ≡ some id
      → Taken id r
      → Untouched c (run_action connection r cmd action now c)
  unfolding run_action requested
  run_action-Taken r Action.focus q taken = cc
  run_action-Taken r action q taken =
      run_plan-Taken r action (plan_effect r action now) (plan_effect-Grants r action now) q taken

  -- The cases of a new command: all but the last leave the core untouched.
  new_command-cases :
      {P : Core → Type 0}
      → ((d : Core) → Untouched c d → P d)
      → ((r : SessionRecord)
          → lookup cmd.target c.sessions ≡ some r
          → P (run_action connection r cmd cmd.action now c))
      → P (new_command connection cmd now c)
  unfolding new_command
  new_command-cases {P} untouched acts = elim (Option-cases (lookup cmd.target c.sessions)) [
    | inl missing ↦
        rw (missing, new_command)
          (untouched _ (send_result-Untouched connection cmd.command_id _ c))
    | inr (r, found) ↦ elim (Bool-cases (is_active r)) [
      | inr gone ↦
          rw (found, new_command, gone)
            (untouched _ (send_result-Untouched connection cmd.command_id _ c))
      | inl live ↦ elim (Bool-cases (leb c.limits.max_receipts (length c.receipts))) [
        | inl full ↦
            rw (found, new_command, live, full)
              (untouched _ (send_result-Untouched connection cmd.command_id _ c))
        | inr room ↦ rw (found, new_command, live, room) (acts r found)
      ]
    ]
  ]

module _ (state : Connection) (cmd : Command) (now : ℕ) (c : Core) (id : String) where
  run_command-cases :
      {P : Core → Type 0}
      → ((d : Core) → Untouched c d → P d)
      → ((r : SessionRecord)
          → lookup cmd.target c.sessions ≡ some r
          → P (run_action state.connection_id r cmd cmd.action now c))
      → P (run_command state cmd now c)
  unfolding run_command
  run_command-cases {P} untouched acts = elim (Option-cases (refused_early state cmd now)) [
    | inr (code, refused) ↦
        rw (refused, run_command)
          (untouched _ (send_result-Untouched state.connection_id cmd.command_id code c))
    | inl permitted ↦ elim (Option-cases (lookup (scope_of cmd) c.receipts)) [
      | inr (receipt, known) ↦
          rw (permitted, run_command, known)
            (untouched _ (repeat_command-Untouched state.connection_id cmd receipt c))
      | inl unused ↦
          rw (permitted, run_command, unused)
            (new_command-cases state.connection_id cmd now c id {P = P} untouched acts)
    ]
  ]

  run_command-TakenIn :
      Fits c
      → requested cmd.action ≡ some id
      → Untouched c (run_command state cmd now c)
        ⊎ TakenIn cmd.target id (run_command state cmd now c)
  run_command-TakenIn fits q =
      run_command-cases {P = λ d. Untouched c d ⊎ TakenIn cmd.target id d} (λ d h. inl h)
        (λ r found.
          let named =
            (Every-lookup (RecordFits c.limits) cmd.target c.sessions fits.records_fit
              found).tickets_named in
          run_action-TakenIn state.connection_id cmd now c id r cmd.action q found named)

  run_command-Taken :
      TakenIn cmd.target id c
      → requested cmd.action ≡ some id
      → Untouched c (run_command state cmd now c)
  run_command-Taken taken q =
      run_command-cases {P = Untouched c} (λ d h. h)
        (λ r found.
          run_action-Taken state.connection_id cmd now c id r cmd.action q
            (subst (Taken id) (cc) taken.taken))

-- Of two commands that decide the same request of the same session, run one after the other by any
-- connections at any times in a core that its server has run, at most one acts: the second finds the
-- request reserved, whatever its idempotency key.
pub decided_once :
    (config : Config) (inputs : List Input) (first second : Connection) (cmd cmd' : Command)
    (now later : ℕ) (id : String)
    → requested cmd.action ≡ some id
    → requested cmd'.action ≡ some id
    → cmd'.target ≡ cmd.target
    → Untouched (run inputs (init config)) (run_command first cmd now (run inputs (init config)))
      ⊎ Untouched
          (run_command first cmd now (run inputs (init config)))
          (run_command second cmd' later (run_command first cmd now (run inputs (init config))))
decided_once config inputs first second cmd cmd' now later id asks again same =
    let c = run inputs (init config) in
    elim (run_command-TakenIn first cmd now c id (run-init-Fits config inputs) asks) [
      | inl untouched ↦ inl untouched
      | inr taken ↦ inr (
          run_command-Taken second cmd' later (run_command first cmd now c) id
            (subst (λ target. TakenIn target id (run_command first cmd now c)) (sym same) taken)
            again)
    ]

-- ===== src/Core/Plans.antt =====
-- `_TIER_COMMANDS` and `_plan_effect` of bridge/deskhelm_core/core.py: what a tier may ask for, and
-- what becomes of a command that names a live session.
pub mod Grants
use mathlib.Core.Bool.{not}
use deskhelm.Prelude.{
  ℕ, String, string_eq, pair_eq, Bool, true, false, ◌&&◌, ◌||◌, Option, none, some, leb, all,
  contains, present, if◌then◌else◌,
}
use deskhelm.Dict.{lookup, has_key, keys}
use deskhelm.Protocol.Session.{key_eq}
use deskhelm.Protocol.Capability.{PromptWhileBusy, ApprovalSupport, InputSupport}
use deskhelm.Protocol.Request.{Answers}
use deskhelm.Protocol.Command.{CommandKind, Action}
use deskhelm.Core.Events.{Decision}
use deskhelm.Core.Frames.{Activity, ResultCode, Effect}
use deskhelm.Core.State.{SessionRecord, Ticket, Tier}
use deskhelm.Core.Actions.{is_approval, is_input}

-- `_TIER_COMMANDS`
unfoldable pub permits : Tier → CommandKind → Bool
permits Tier.operator kind = true
permits Tier.voice CommandKind.submit_prompt = true
permits Tier.voice CommandKind.approve = true
permits Tier.voice CommandKind.reject = true
permits Tier.voice _ = false
permits Tier.device CommandKind.focus = true
permits Tier.device CommandKind.interrupt = true
permits Tier.device CommandKind.approve = true
permits Tier.device CommandKind.reject = true
permits Tier.device _ = false
permits Tier.observer _ = false

unfoldable pub is_permitted : Option Tier → CommandKind → Bool
unfolding permits
is_permitted none kind = false
is_permitted (some tier) kind = permits tier kind

unfoldable pub is_busy : Activity → Bool
is_busy Activity.working = true
is_busy Activity.waiting_approval = true
is_busy Activity.waiting_input = true
is_busy _ = false

unfoldable pub rejects_busy : SessionRecord → Bool
unfolding is_busy
rejects_busy r =
    is_busy r.activity
    && (elim r.capabilities.prompt_while_busy [ PromptWhileBusy.reject ↦ true | _ ↦ false ])

-- An effect with the ticket that it decides, or a refusal.
pub data Plan : Type 0 where
  deliver : Effect → Option Ticket → Plan
  refusal : ResultCode → Plan

abbrev pub asks : Option (Option String) → Bool → Bool
asks setting supported = not (present setting) || supported

unfoldable pub takes_input : SessionRecord → Bool
takes_input r = elim r.capabilities.user_input [ InputSupport.answerable ↦ true | _ ↦ false ]

unfoldable pub takes_approvals : SessionRecord → Bool
takes_approvals r = elim r.capabilities.approvals [ ApprovalSupport.answerable ↦ true | _ ↦ false ]

unfoldable pub answer_plan : SessionRecord → Ticket → Answers → Plan
unfolding takes_input
answer_plan r t answers =
    if not t.answerable || not (takes_input r)
    then Plan.refusal ResultCode.unsupported
    else if not (all (contains t.question_ids) (keys answers))
    then Plan.refusal ResultCode.invalid_command
    else Plan.deliver (Effect.answer t.provider_ref answers) (some t)

unfoldable pub decision_plan : SessionRecord → Ticket → Decision → Plan
unfolding takes_approvals
decision_plan r t decision =
    if not t.answerable || not (takes_approvals r)
    then Plan.refusal ResultCode.unsupported
    else Plan.deliver (Effect.respond t.provider_ref decision) (some t)

-- The checks that an answer and a decision share: the id is not decided, and names an open ticket
-- of the wanted kind that has not expired and is not reserved.
unfoldable pub ticket_plan : SessionRecord → String → (Ticket → Bool) → ℕ → (Ticket → Plan) → Plan
ticket_plan r id is_wanted now plan =
    if has_key id r.decided
    then Plan.refusal ResultCode.approval_already_decided
    else elim (lookup id r.tickets) [
      | none ↦ Plan.refusal ResultCode.approval_not_found
      | some t ↦
          if not (is_wanted t) || leb t.expires_at now
          then Plan.refusal ResultCode.approval_not_found
          else if t.reserved
          then Plan.refusal ResultCode.approval_already_decided
          else plan t
    ]

-- `_plan_effect`
unfoldable pub plan_effect : SessionRecord → Action → ℕ → Plan
unfolding rejects_busy ticket_plan answer_plan decision_plan is_approval is_input
plan_effect r (Action.submit_prompt text) now =
    if rejects_busy r
    then Plan.refusal ResultCode.unsupported
    else Plan.deliver (Effect.submit text) none
plan_effect r Action.interrupt now =
    if not r.capabilities.interrupt
    then Plan.refusal ResultCode.unsupported
    else Plan.deliver Effect.interrupt none
plan_effect r (Action.configure_session model effort) now =
    if not
      (asks model r.capabilities.configure.model && asks effort r.capabilities.configure.effort)
    then Plan.refusal ResultCode.unsupported
    else Plan.deliver (Effect.configure model effort) none
plan_effect r (Action.answer id answers) now =
    ticket_plan r id is_input now (λ t. answer_plan r t answers)
plan_effect r (Action.approve id) now =
    ticket_plan r id is_approval now (λ t. decision_plan r t Decision.approve)
plan_effect r (Action.reject id) now =
    ticket_plan r id is_approval now (λ t. decision_plan r t Decision.reject)
-- Never asked: a focus command is answered before.
plan_effect r Action.focus now = Plan.refusal ResultCode.unsupported

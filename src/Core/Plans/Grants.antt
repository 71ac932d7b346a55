-- ===== src/Core/Plans/Grants.antt =====
-- What `_plan_effect` of bridge/deskhelm_core/core.py hands to a host.
use mathlib.Core.Bool.{not}
use deskhelm.Prelude.{
  ℕ, ◌<◌, ◌≡◌, refl, arith, String, string_eq, Bool, true, false, ◌&&◌, ◌||◌, Option, none, some,
  inl, inr, Bool-cases, Option-cases, leb, all, contains, subst, if◌then◌else◌,
}
use deskhelm.Dict.{lookup, has_key, keys}
use deskhelm.Protocol.Request.{RequestKind, Answers}
use deskhelm.Protocol.Command.{Action}
use deskhelm.Core.Events.{Decision}
use deskhelm.Core.Frames.{Effect}
use deskhelm.Core.State.{SessionRecord, Ticket}
use deskhelm.Core.Actions.{is_approval, is_input}
use deskhelm.Core.Plans.{
  Plan, plan_effect, ticket_plan, decision_plan, answer_plan, rejects_busy, asks, takes_approvals,
  takes_input,
}

-- The session's request of this id waits for an answer from here.
pub record Waits (r : SessionRecord) (id : String) (kind : RequestKind) (now : ℕ) (t : Ticket)
    : Type 0 where
  pub undecided : has_key id r.decided ≡ false
  pub found : lookup id r.tickets ≡ some t
  pub of_kind : t.kind ≡ kind
  pub unexpired : now < t.expires_at
  pub free : t.reserved ≡ false
  pub answerable : t.answerable ≡ true

-- The effects that a session may get for an action, with the request that each decides.
pub data Grants (r : SessionRecord) (now : ℕ) : Action → Effect → Option Ticket → Type 0 where
  prompt :
      (text : String)
      → rejects_busy r ≡ false
      → Grants r now (Action.submit_prompt text) (Effect.submit text) none
  interrupt : r.capabilities.interrupt ≡ true → Grants r now Action.interrupt Effect.interrupt none
  configure :
      (model effort : Option (Option String))
      → asks model r.capabilities.configure.model ≡ true
      → asks effort r.capabilities.configure.effort ≡ true
      → Grants r now (Action.configure_session model effort) (Effect.configure model effort) none
  approve :
      (id : String) (t : Ticket)
      → takes_approvals r ≡ true
      → Waits r id RequestKind.approval now t
      → Grants r now (Action.approve id) (Effect.respond t.provider_ref Decision.approve) (some t)
  reject :
      (id : String) (t : Ticket)
      → takes_approvals r ≡ true
      → Waits r id RequestKind.approval now t
      → Grants r now (Action.reject id) (Effect.respond t.provider_ref Decision.reject) (some t)
  answer :
      (id : String) (answers : Answers) (t : Ticket)
      → takes_input r ≡ true
      → all (contains t.question_ids) (keys answers) ≡ true
      → Waits r id RequestKind.input now t
      → Grants r now (Action.answer id answers) (Effect.answer t.provider_ref answers) (some t)

-- What a plan grants for an action; a refusal grants nothing.
Granted : SessionRecord → ℕ → Action → Plan → Type 0
Granted r now action (Plan.refusal code) = Unit
Granted r now action (Plan.deliver what ticket) = Grants r now action what ticket

module _ (r : SessionRecord) (now : ℕ) where
  if-Granted :
      (action : Action) (b : Bool) (p q : Plan)
      → (b ≡ true → Granted r now action p)
      → (b ≡ false → Granted r now action q)
      → Granted r now action (if b then p else q)
  if-Granted action true p q on_true on_false = on_true refl
  if-Granted action false p q on_true on_false = on_false refl

  decision_plan-Granted :
      (t : Ticket) (d : Decision) (action : Action)
      → (t.answerable ≡ true
          → takes_approvals r ≡ true
          → Grants r now action (Effect.respond t.provider_ref d) (some t))
      → Granted r now action (decision_plan r t d)
  unfolding decision_plan Granted
  decision_plan-Granted t d action each =
      elim (Bool-cases (not t.answerable || not (takes_approvals r))) [
        | inl unfit ↦ rw (unfit, decision_plan) tt
        | inr fit ↦ rw (fit, decision_plan) (each (ground arith) (ground arith))
      ]

  answer_plan-Granted :
      (t : Ticket) (answers : Answers) (action : Action)
      → (t.answerable ≡ true
          → takes_input r ≡ true
          → all (contains t.question_ids) (keys answers) ≡ true
          → Grants r now action (Effect.answer t.provider_ref answers) (some t))
      → Granted r now action (answer_plan r t answers)
  unfolding answer_plan Granted
  answer_plan-Granted t answers action each =
      elim (Bool-cases (not t.answerable || not (takes_input r))) [
        | inl unfit ↦ rw (unfit, answer_plan) tt
        | inr fit ↦ elim (Bool-cases (all (contains t.question_ids) (keys answers))) [
          | inr unknown ↦ rw (fit, answer_plan, unknown) tt
          | inl known ↦ rw (fit, answer_plan, known) (each (ground arith) (ground arith) known)
        ]
      ]

  -- What the checks of a request leave.
  ticket_plan-Granted :
      (id : String) (is_wanted : Ticket → Bool) (plan : Ticket → Plan) (action : Action)
      → ((t : Ticket)
          → has_key id r.decided ≡ false
          → lookup id r.tickets ≡ some t
          → is_wanted t ≡ true
          → now < t.expires_at
          → t.reserved ≡ false
          → Granted r now action (plan t))
      → Granted r now action (ticket_plan r id is_wanted now plan)
  unfolding ticket_plan Granted
  ticket_plan-Granted id is_wanted plan action each = elim (Bool-cases (has_key id r.decided)) [
    | inl decided ↦ rw (decided, ticket_plan) tt
    | inr undecided ↦ elim (Option-cases (lookup id r.tickets)) [
      | inl missing ↦ rw (undecided, ticket_plan, missing) tt
      | inr (t, found) ↦ elim (Bool-cases (not (is_wanted t) || leb t.expires_at now)) [
        | inl unfit ↦ rw (undecided, ticket_plan, found, unfit) tt
        | inr fit ↦
            rw (undecided, ticket_plan, found, fit)
              (if-Granted action t.reserved _ (plan t) (λ taken. tt)
                (each t undecided found (ground arith) (ground arith)))
      ]
    ]
  ]

  is_approval-kind : (t : Ticket) → is_approval t ≡ true → t.kind ≡ RequestKind.approval
  unfolding is_approval
  is_approval-kind t h = ground arith

  is_input-kind : (t : Ticket) → is_input t ≡ true → t.kind ≡ RequestKind.input
  unfolding is_input
  is_input-kind t h = ground arith

  plan_effect-Granted : (action : Action) → Granted r now action (plan_effect r action now)
  unfolding plan_effect Granted
  plan_effect-Granted Action.focus = tt
  plan_effect-Granted (Action.submit_prompt text) = elim (Bool-cases (rejects_busy r)) [
    | inl busy ↦ rw (busy, plan_effect) tt
    | inr free ↦ rw (free, plan_effect) (prompt text free)
  ]
  plan_effect-Granted Action.interrupt =
      if-Granted Action.interrupt (not r.capabilities.interrupt) _ _ (λ cannot. tt)
        (λ can. interrupt (ground arith))
  plan_effect-Granted (Action.configure_session model effort) =
      elim (Bool-cases (
        asks model r.capabilities.configure.model && asks effort r.capabilities.configure.effort)) [
          | inr cannot ↦ rw (cannot, plan_effect) tt
          | inl can ↦ rw (can, plan_effect) (configure model effort (ground arith) (ground arith))
        ]
  plan_effect-Granted (Action.answer id answers) =
      ticket_plan-Granted id is_input _ (Action.answer id answers)
        λ t undecided found wanted unexpired free.
          answer_plan-Granted t answers _ λ answerable takes known.
            answer id answers t takes known (record {
              undecided = undecided;
              found = found;
              of_kind = is_input-kind t wanted;
              unexpired = unexpired;
              free = free;
              answerable = answerable;
            })
  plan_effect-Granted (Action.approve id) =
      ticket_plan-Granted id is_approval _ (Action.approve id)
        λ t undecided found wanted unexpired free.
          decision_plan-Granted t Decision.approve _ λ answerable takes.
            approve id t takes (record {
              undecided = undecided;
              found = found;
              of_kind = is_approval-kind t wanted;
              unexpired = unexpired;
              free = free;
              answerable = answerable;
            })
  plan_effect-Granted (Action.reject id) =
      ticket_plan-Granted id is_approval _ (Action.reject id)
        λ t undecided found wanted unexpired free.
          decision_plan-Granted t Decision.reject _ λ answerable takes. reject id t takes (record {
            undecided = undecided;
            found = found;
            of_kind = is_approval-kind t wanted;
            unexpired = unexpired;
            free = free;
            answerable = answerable;
          })

-- An effect goes to a host only where its session grants it: a prompt unless a busy session rejects
-- prompts, an interruption and a setting that the session supports, and an answer or a decision for
-- a request of its kind that is open, not expired, not decided, not reserved and can be answered.
pub plan_effect-Grants :
    (r : SessionRecord) (action : Action) (now : ℕ) (what : Effect) (ticket : Option Ticket)
    → plan_effect r action now ≡ Plan.deliver what ticket
    → Grants r now action what ticket
unfolding Granted
plan_effect-Grants r action now what ticket h =
    subst (Granted r now action) h (plan_effect-Granted r now action)

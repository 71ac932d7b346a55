-- ===== src/Core/Invariant/Facts.antt =====
-- A host's facts and effect results keep the capacity invariant.
use deskhelm.Prelude.{
  ℕ, ◌+◌, eqb, Bool-cases, String, string_eq, Bool, true, Option, inl, inr, if-keeps, Option-cases,
}
use deskhelm.Dict.{lookup}
use deskhelm.Json.{Object}
use deskhelm.Protocol.Session.{SessionKey, key_eq}
use deskhelm.Protocol.Fields.{Result-cases}
use deskhelm.Protocol.Request.{Answers}
use deskhelm.Protocol.Shapes.{FactBody, ResolvedBy}
use deskhelm.Protocol.Fact.{Fact}
use deskhelm.Core.State.{SessionRecord, Core, InFlight}
use deskhelm.Core.Tickets.{ticket_for}
use deskhelm.Core.Facts.{
  Outcome, EffectOutcome, resolve_request, set_attention, apply_fact, fact, is_ended,
  settle_outcome, report_effect, effect_report, effect_result,
}
use deskhelm.Core.Invariant.{Fits, update-Fits}
use deskhelm.Core.Invariant.Actions.{counted-Fits, interaction-Fits, recompute-Fits}
use deskhelm.Core.Invariant.Tickets.{open_ticket-Fits, vendor_resolved-Fits, turn_terminal-Fits}
use deskhelm.Core.Invariant.Settle.{settle-Fits, remove_session-Fits}

-- What a handler leaves, whether it returns or raises.
abbrev pub OutcomeFits : Outcome → Type 0
OutcomeFits (Outcome.done c) = Fits c
OutcomeFits (Outcome.raised code c) = Fits c

resolve_request-Fits :
    (key : SessionKey) (r : SessionRecord) (ref : String) (by : ResolvedBy)
    (answers : Option Answers) (now : ℕ) (c : Core)
    → Fits c
    → Fits (resolve_request key r ref by answers now c)
unfolding resolve_request
resolve_request-Fits key r ref by answers now c h = elim (Option-cases (ticket_for r ref)) [
  | inl missing ↦ rw (missing, resolve_request) h
  | inr (t, found) ↦ rw (found, resolve_request) (vendor_resolved-Fits key t by answers now c h)
]

set_attention-Fits :
    (key : SessionKey) (r : SessionRecord) (attention : Bool) (now : ℕ) (c : Core)
    → Fits c
    → Fits (set_attention key r attention now c)
unfolding set_attention
set_attention-Fits key r attention now c h =
    if-keeps Fits _
      (interaction-Fits key _ _ now _ (
        update-Fits key _ c
          (λ s _ f. record {
            tickets_fit = f.tickets_fit;
            tickets_named = f.tickets_named;
            window_fits = f.window_fits;
          })
          h))
      h

apply_fact-Fits :
    (key : SessionKey) (r : SessionRecord) (body : FactBody) (now : ℕ) (c : Core)
    → Fits c
    → Fits (apply_fact key r body now c)
unfolding apply_fact
apply_fact-Fits key r FactBody.ready now c h =
    update-Fits key _ c
      (λ s _ f. record {
        tickets_fit = f.tickets_fit;
        tickets_named = f.tickets_named;
        window_fits = f.window_fits;
      })
      h
apply_fact-Fits key r (FactBody.turn_started command_id) now c h =
    update-Fits key _ _
      (λ s _ f. record {
        tickets_fit = f.tickets_fit;
        tickets_named = f.tickets_named;
        window_fits = f.window_fits;
      })
      (counted-Fits c h)
apply_fact-Fits key r (FactBody.message m) now c h = interaction-Fits key _ _ now c h
apply_fact-Fits key r (FactBody.tool t) now c h = interaction-Fits key _ _ now c h
apply_fact-Fits key r (FactBody.request_opened request) now c h =
    open_ticket-Fits key request now true c h
apply_fact-Fits key r (FactBody.request_resolved ref by answers) now c h =
    resolve_request-Fits key r ref by answers now c h
apply_fact-Fits key r (FactBody.turn_terminal t) now c h = turn_terminal-Fits key r t now c h
apply_fact-Fits key r (FactBody.status attention) now c h =
    set_attention-Fits key r attention now c h
apply_fact-Fits key r (FactBody.catalog catalog) now c h =
    update-Fits key _ c
      (λ s _ f. record {
        tickets_fit = f.tickets_fit;
        tickets_named = f.tickets_named;
        window_fits = f.window_fits;
      })
      h
apply_fact-Fits key r (FactBody.capabilities matrix) now c h =
    update-Fits key _ c
      (λ s _ f. record {
        tickets_fit = f.tickets_fit;
        tickets_named = f.tickets_named;
        window_fits = f.window_fits;
      })
      h
apply_fact-Fits key r FactBody.session_ended now c h = remove_session-Fits key now c h

pub fact-Fits :
    (key : SessionKey) (r : SessionRecord) (f : Fact) (now : ℕ) (c : Core)
    → Fits c
    → OutcomeFits (fact key r f now c)
unfolding fact
fact-Fits key r f now c h =
    let seen =
      update-Fits key (λ r. record r { host_seq = f.seq }) c
        (λ s _ g. record {
          tickets_fit = g.tickets_fit;
          tickets_named = g.tickets_named;
          window_fits = g.window_fits;
        })
        h in
    let applied = apply_fact-Fits key r f.body now _ seen in
    elim (Bool-cases (eqb f.seq (r.host_seq + 1))) [
      | inr gap ↦ rw gap h
      | inl next ↦ rw next (elim (Bool-cases (is_ended f.body)) [
        | inl over ↦ rw over applied
        | inr goes_on ↦ rw goes_on (recompute-Fits key _ applied)
      ])
    ]

settle_outcome-Fits :
    (flight : InFlight) (outcome : EffectOutcome) (now : ℕ) (c : Core)
    → Fits c
    → Fits (settle_outcome flight outcome now c)
unfolding settle_outcome
settle_outcome-Fits flight EffectOutcome.accepted now c h = settle-Fits flight _ _ now c h
settle_outcome-Fits flight EffectOutcome.undelivered now c h = settle-Fits flight _ _ now c h
settle_outcome-Fits flight EffectOutcome.unsupported now c h = settle-Fits flight _ _ now c h

report_effect-Fits :
    (key : SessionKey) (effect_id : String) (outcome : EffectOutcome) (now : ℕ) (c : Core)
    → Fits c
    → Fits (report_effect key effect_id outcome now c)
unfolding report_effect
report_effect-Fits key effect_id outcome now c h =
    elim (Option-cases (lookup effect_id c.in_flight)) [
      | inl missing ↦ rw (missing, report_effect) h
      | inr (flight, found) ↦
          rw (found, report_effect) (if-keeps Fits _ (settle_outcome-Fits flight outcome now c h) h)
    ]

pub effect_result-Fits :
    (key : SessionKey) (frame : Object) (now : ℕ) (c : Core)
    → Fits c
    → OutcomeFits (effect_result key frame now c)
unfolding effect_result
effect_result-Fits key frame now c h = elim (Result-cases (effect_report frame)) [
  | inl wrong ↦ rw (wrong, effect_result) h
  | inr ((effect_id, outcome), fine) ↦
      rw (fine, effect_result) (report_effect-Fits key effect_id outcome now c h)
]

-- ===== src/Core/Facts.antt =====
-- `_fact` and `_effect_result` of bridge/deskhelm_core/core.py: what a session host reports.
pub mod Sequence
use mathlib.Core.Bool.{not, xor}
use deskhelm.Prelude.{
  ℕ, ◌+◌, String, string_eq, Bool, true, false, List, [], ◌∷◌, Option, none, some, eqb, ◌==◌,
  if◌then◌else◌,
}
use deskhelm.Dict.{lookup}
use deskhelm.Json.{Object}
use deskhelm.Protocol.Fields.{Result, ok, violation, ◌>>=◌, get, identity_field, enum_field}
use deskhelm.Protocol.Session.{SessionKey, key_eq}
use deskhelm.Protocol.Shapes.{FactBody, ResolvedBy}
use deskhelm.Protocol.Request.{Answers}
use deskhelm.Protocol.Fact.{Fact}
use deskhelm.Core.Events.{Payload}
use deskhelm.Core.Frames.{ResultCode, ErrorCode}
use deskhelm.Core.State.{Core, SessionRecord, InFlight}
use deskhelm.Core.Actions.{new_id, counted, update, interaction, recompute}
use deskhelm.Core.Tickets.{open_ticket, ticket_for, vendor_resolved, turn_terminal}
use deskhelm.Core.Settle.{settle, remove_session}

-- A handler returns, or raises: a `ProtocolViolation` is the code `protocol_violation`. What it
-- wrote before it raised stays written.
pub data Outcome : Type 0 where
  done : Core → Outcome
  raised : ErrorCode → Core → Outcome

abbrev pub or_else : Option String → String → String
or_else none s = s
or_else (some t) s = t

unfoldable pub start_turn : String → Option String → SessionRecord → SessionRecord
start_turn id command_id r = record r {
  ready = true;
  turn_id = some id;
  turn_correlation = some (or_else command_id id);
}

unfoldable pub resolve_request :
    SessionKey → SessionRecord → String → ResolvedBy → Option Answers → ℕ → Core → Core
resolve_request key r ref by answers now c = elim (ticket_for r ref) [
  | none ↦ c
  | some t ↦ vendor_resolved key t by answers now c
]

unfoldable pub set_attention : SessionKey → SessionRecord → Bool → ℕ → Core → Core
set_attention key r attention now c =
    if xor r.attention attention
    then interaction key (Payload.attention attention) "" now
        (update key (λ r. record r { attention = attention }) c)
    else c

-- The branches on `fact.kind`; `r` is the session's record as the fact finds it.
unfoldable pub apply_fact : SessionKey → SessionRecord → FactBody → ℕ → Core → Core
unfolding start_turn resolve_request set_attention
apply_fact key r FactBody.ready now c = update key (λ r. record r { ready = true }) c
apply_fact key r (FactBody.turn_started command_id) now c =
    update key (start_turn (new_id "t" c) command_id) (counted c)
apply_fact key r (FactBody.message m) now c =
    interaction key (Payload.message m.role m.phase m.text) (or_else m.command_id m.message_ref) now
      c
apply_fact key r (FactBody.tool t) now c = interaction key (Payload.tool t) t.tool_ref now c
apply_fact key r (FactBody.request_opened request) now c = open_ticket key request now true c
apply_fact key r (FactBody.request_resolved ref by answers) now c =
    resolve_request key r ref by answers now c
apply_fact key r (FactBody.turn_terminal t) now c = turn_terminal key r t now c
apply_fact key r (FactBody.status attention) now c = set_attention key r attention now c
apply_fact key r (FactBody.catalog catalog) now c =
    update key (λ r. record r { catalog = some catalog; catalog_rev = r.catalog_rev + 1 }) c
apply_fact key r (FactBody.capabilities matrix) now c =
    update key (λ r. record r { capabilities = matrix }) c
apply_fact key r FactBody.session_ended now c = remove_session key now c

unfoldable pub is_ended : FactBody → Bool
is_ended FactBody.session_ended = true
is_ended _ = false

-- `_fact`
unfoldable pub fact : SessionKey → SessionRecord → Fact → ℕ → Core → Outcome
unfolding is_ended
fact key r f now c =
    let seen = update key (λ r. record r { host_seq = f.seq }) c in
    let applied = apply_fact key r f.body now seen in
    if not (eqb f.seq (r.host_seq + 1))
    then Outcome.raised ErrorCode.protocol_violation c
    else if is_ended f.body
    then Outcome.done applied
    else Outcome.done (recompute key applied)

pub data EffectOutcome : Type 0 where
  accepted undelivered unsupported : EffectOutcome

abbrev pub outcome_values : List (String × EffectOutcome)
outcome_values =
    ("accepted", EffectOutcome.accepted)
    ∷ ("undelivered", EffectOutcome.undelivered)
    ∷ ("unsupported", EffectOutcome.unsupported)
    ∷ []

unfoldable pub settle_outcome : InFlight → EffectOutcome → ℕ → Core → Core
settle_outcome flight EffectOutcome.accepted now c = settle flight ResultCode.dispatched true now c
settle_outcome flight EffectOutcome.undelivered now c =
    settle flight ResultCode.undelivered false now c
settle_outcome flight EffectOutcome.unsupported now c =
    settle flight ResultCode.unsupported false now c

-- An outcome of an effect that is not in flight for this session changes nothing.
unfoldable pub report_effect : SessionKey → String → EffectOutcome → ℕ → Core → Core
unfolding settle_outcome
report_effect key effect_id outcome now c = elim (lookup effect_id c.in_flight) [
  | none ↦ c
  | some flight ↦ if flight.session == key then settle_outcome flight outcome now c else c
]

unfoldable pub effect_report : Object → Result (String × EffectOutcome)
effect_report frame = do
  effect_id ← identity_field (get frame "effect_id")
  outcome ← enum_field outcome_values (get frame "outcome")
  ok (effect_id, outcome)

-- `_effect_result`
unfoldable pub effect_result : SessionKey → Object → ℕ → Core → Outcome
unfolding effect_report report_effect
effect_result key frame now c = elim (effect_report frame) [
  | violation ↦ Outcome.raised ErrorCode.protocol_violation c
  | ok (effect_id, outcome) ↦ Outcome.done (report_effect key effect_id outcome now c)
]

-- ===== src/Examples/Effects.antt =====
-- An approval on its way to a host: `_plan_effect` and `_settle` of bridge/deskhelm_core/core.py.
use deskhelm.Prelude.{refl, ◌∷◌, [], some, none, true, false, string_eq, pair_eq}
use deskhelm.Dict.{lookup}
use deskhelm.Protocol.Request.{RequestKind}
use deskhelm.Protocol.Command.{Action}
use deskhelm.Core.Events.{Decision}
use deskhelm.Core.Frames.{Effect, ResultCode}
use deskhelm.Core.State.{Core, SessionRecord, Ticket, Receipt, InFlight, init}
use deskhelm.Core.Plans.{plan_effect}
use deskhelm.Core.Plans.Grants.{Grants, plan_effect-Grants}
use deskhelm.Core.Settle.{settle}
use deskhelm.Core.Settle.Receipts.{Settled, settle-Settled}
use deskhelm.Examples.Frames.{codex_key}
use deskhelm.Examples.Core.{config}
use deskhelm.Examples.Commands.{approval}
use deskhelm.Examples.Window.{talking}

abbrev request : Ticket
request = record {
  approval_id = "a-i-1";
  provider_ref = "r-1";
  kind = RequestKind.approval;
  summary = "run tests";
  expires_at = 9000;
  answerable = true;
  blocking = true;
  question_ids = [];
  reserved = false;
  resolved_by = none;
}

abbrev asking : SessionRecord
asking = record talking { tickets = ("a-i-1", request) ∷ [] }

plan_effect-Grants_example :
    Grants asking 500
      (Action.approve "a-i-1")
      (Effect.respond "r-1" Decision.approve)
      (some request)
unfolding plan_effect lookup
plan_effect-Grants_example =
    plan_effect-Grants asking (Action.approve "a-i-1") 500 (Effect.respond "r-1" Decision.approve)
      (some request) refl

abbrev flight : InFlight
flight = record {
  effect_id = "e-i-2";
  command = approval "c-1";
  session = codex_key;
  deadline = 600;
  approval_id = some "a-i-1";
  scope = ("desk", "k-1");
}

abbrev receipt : Receipt
receipt = record {
  fingerprint = "f";
  retained_until = 9000;
  result = none;
  waiters = "client" ∷ "page" ∷ [];
}

abbrev waiting_core : Core
waiting_core = record (init config) {
  sessions =
      (codex_key, record asking { tickets = ("a-i-1", record request { reserved = true }) ∷ [] })
      ∷ [];
  receipts = (("desk", "k-1"), receipt) ∷ [];
  in_flight = ("e-i-2", flight) ∷ [];
}

settle-Settled_example :
    Settled flight ResultCode.dispatched true receipt
      (settle flight ResultCode.dispatched true 550 waiting_core)
unfolding lookup
settle-Settled_example =
    settle-Settled flight ResultCode.dispatched true 550 waiting_core receipt refl

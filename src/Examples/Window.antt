-- ===== src/Examples/Window.antt =====
-- A window that a completed message replaces its deltas in, and that evicts: `_interaction` of
-- bridge/deskhelm_core/core.py.
use deskhelm.Prelude.{ℕ, ◌≡◌, refl, arith, String, List, [], ◌∷◌, ◌++◌, none, some, true, false}
use deskhelm.Json.{of_members}
use deskhelm.Protocol.Shapes.{MessageRole, MessagePhase}
use deskhelm.Core.Events.{Event, Payload, size}
use deskhelm.Core.Window.{append_event, drop_deltas}
use deskhelm.Core.Window.Bounds.{IsWindow, total, append_event-IsWindow, append_event-keeps_newest}
use deskhelm.Core.Window.Deltas.{Without, drop_deltas-Without}
use deskhelm.Core.State.{SessionRecord}
use deskhelm.Examples.Frames.{codex_key}
use deskhelm.Examples.Core.{small_limits}
use deskhelm.Protocol.Capability.{
  CapabilityMatrix, PromptWhileBusy, ApprovalSupport, ApprovalOverflow, InputSupport,
}
use deskhelm.Core.Frames.{Lifecycle, Activity}
use deskhelm.Examples.Frames.{codex_runtime}

abbrev said : ℕ → MessagePhase → String → Event
said n phase text = record {
  event_id = "i-1";
  key = codex_key;
  sequence = n;
  occurred_at = 100;
  correlation_id = "t-1";
  payload = Payload.message MessageRole.assistant phase text;
}

abbrev deltas : List Event
deltas =
    said 1 MessagePhase.delta "he"
    ∷ said 2 MessagePhase.complete "ok"
    ∷ said 3 MessagePhase.delta "llo"
    ∷ []

abbrev pub matrix : CapabilityMatrix
matrix = record {
  version = 1;
  prompt_while_busy = PromptWhileBusy.reject;
  interrupt = true;
  approvals = ApprovalSupport.answerable;
  approval_overflow = ApprovalOverflow.decline;
  user_input = InputSupport.answerable;
  resume = true;
  configure = record { model = true; effort = true };
  catalog = record { models = false; mcp = false; skills = false };
}

abbrev pub talking : SessionRecord
talking = record {
  key = codex_key;
  owner = some "host";
  runtime = codex_runtime;
  capabilities = matrix;
  opened_at = 20;
  lifecycle = Lifecycle.active;
  activity = Activity.working;
  ready = true;
  turn_id = some "t-1";
  turn_correlation = none;
  last_outcome = none;
  tickets = [];
  decided = [];
  attention = false;
  host_seq = 3;
  disconnected_at = none;
  catalog = none;
  catalog_rev = 0;
  window = deltas;
  window_bytes = total deltas;
  sent_view = none;
}

abbrev complete : Event
complete = said 4 MessagePhase.complete "hello"

append_event-keeps_newest_example :
    (kept : List Event) × ((append_event small_limits complete talking).events
      ≡ kept ++ complete ∷ [])
unfolding size of_members
append_event-keeps_newest_example =
    append_event-keeps_newest small_limits complete talking refl (omega arith) (omega arith)

append_event-IsWindow_example :
    IsWindow small_limits
      (append_event small_limits complete talking).events
      (append_event small_limits complete talking).bytes
append_event-IsWindow_example = append_event-IsWindow small_limits complete talking refl

drop_deltas-Without_example :
    Without "t-1" MessageRole.assistant deltas
      (drop_deltas "t-1" MessageRole.assistant deltas (total deltas)).events
drop_deltas-Without_example = drop_deltas-Without "t-1" MessageRole.assistant deltas (total deltas)

-- ===== src/Core/Events.antt =====
-- The interaction events of bridge/deskhelm_core/core.py: what a session's window holds and the
-- operator's stream carries. A payload is a value of its event's kind; `event_json` is the dict.
use Prim.Native.String.{count}
use deskhelm.Prelude.{
  ℕ, String, Bool, true, List, [], ◌∷◌, ◌++◌, Option, none, some, map, if◌then◌else◌,
}
use deskhelm.Json.{ℤ, Json, Object, pos, object, array}
use deskhelm.Json.Dumps.{dumps, plain}
use deskhelm.Protocol.Session.{SessionKey, key_fields}
use deskhelm.Protocol.Request.{RequestKind, Question, Answers, Choice}
use deskhelm.Protocol.Shapes.{MessageRole, MessagePhase, ToolPhase, ToolStatus, ResolvedBy, Tool}
use deskhelm.Protocol.Command.{answers_json}

pub data Decision : Type 0 where
  approve reject : Decision

-- How a request ended, as `_resolved` reports it.
pub record Resolution : Type 0 where
  pub kind : RequestKind
  pub request_id : String
  pub by : ResolvedBy
  pub decision : Option Decision
  pub answers : Option Answers
  pub unknown : Bool

pub data Payload : Type 0 where
  message : MessageRole → MessagePhase → String → Payload
  tool : Tool → Payload
  approval_request : String → String → ℕ → String → Payload
  user_input_required : String → String → String → List Question → ℕ → Bool → Bool → Payload
  resolved : Resolution → Payload
  attention : Bool → Payload
  task_completed : String → Payload
  task_failed : String → String → Payload

pub record Event : Type 0 where
  pub event_id : String
  pub key : SessionKey
  pub sequence : ℕ
  pub occurred_at : ℕ
  pub correlation_id : String
  pub payload : Payload

unfoldable pub kind_name : Payload → String
kind_name (Payload.message role phase text) = "message"
kind_name (Payload.tool t) = "tool"
kind_name (Payload.approval_request id summary expires_at detail) = "approval_request"
kind_name (Payload.user_input_required id prompt detail qs expires_at answerable blocking) =
    "user_input_required"
kind_name (Payload.resolved r) = elim r.kind [
  | RequestKind.approval ↦ "approval_resolved"
  | RequestKind.input ↦ "input_resolved"
]
kind_name (Payload.attention active) = "attention"
kind_name (Payload.task_completed text) = "task_completed"
kind_name (Payload.task_failed text code) = "task_failed"

role_name : MessageRole → String
role_name MessageRole.user = "user"
role_name MessageRole.assistant = "assistant"
role_name MessageRole.system = "system"

phase_name : MessagePhase → String
phase_name MessagePhase.delta = "delta"
phase_name MessagePhase.complete = "complete"

tool_phase_name : ToolPhase → String
tool_phase_name ToolPhase.start = "start"
tool_phase_name ToolPhase.output = "output"
tool_phase_name ToolPhase.complete = "complete"

tool_status_json : Option ToolStatus → Json
tool_status_json none = Json.null
tool_status_json (some ToolStatus.completed) = Json.str "completed"
tool_status_json (some ToolStatus.failed) = Json.str "failed"
tool_status_json (some ToolStatus.declined) = Json.str "declined"

exit_code_json : Option ℤ → Json
exit_code_json none = Json.null
exit_code_json (some z) = Json.int z

by_name : ResolvedBy → String
by_name ResolvedBy.native = "native"
by_name ResolvedBy.desk_helm = "deskhelm"
by_name ResolvedBy.cancelled = "cancelled"
by_name ResolvedBy.expired = "expired"

decision_member : Option Decision → Object
decision_member none = []
decision_member (some Decision.approve) = ("decision", Json.str "approve") ∷ []
decision_member (some Decision.reject) = ("decision", Json.str "reject") ∷ []

-- `if answers:` leaves an empty dict out.
answers_member : Option Answers → Object
answers_member none = []
answers_member (some []) = []
answers_member (some (a ∷ answers)) = ("answers", answers_json (a ∷ answers)) ∷ []

choice_json : Choice → Json
choice_json o = object (("label", Json.str o.label) ∷ ("description", Json.str o.description) ∷ [])

question_json : Question → Json
unfolding choice_json
question_json q = object (
    ("id", Json.str q.id)
    ∷ ("header", Json.str q.header)
    ∷ ("title", Json.str q.title)
    ∷ ("options", array (map choice_json q.options))
    ∷ ("other", Json.bool q.other)
    ∷ ("secret", Json.bool q.secret)
    ∷ [])

payload_fields : Payload → Object
unfolding role_name phase_name tool_phase_name tool_status_json exit_code_json by_name
    decision_member answers_member question_json
payload_fields (Payload.message role phase text) =
    ("role", Json.str (role_name role))
    ∷ ("phase", Json.str (phase_name phase))
    ∷ ("text", Json.str text)
    ∷ []
payload_fields (Payload.tool t) =
    ("tool_call_id", Json.str t.tool_ref)
    ∷ ("name", Json.str t.label)
    ∷ ("phase", Json.str (tool_phase_name t.phase))
    ∷ ("text", Json.str t.text)
    ∷ ("stream", t.stream)
    ∷ ("exit_code", exit_code_json t.exit_code)
    ∷ ("status", tool_status_json t.status)
    ∷ (if t.replace then ("replace", Json.bool true) ∷ [] else [])
payload_fields (Payload.approval_request id summary expires_at detail) =
    ("request_id", Json.str id)
    ∷ ("summary", Json.str summary)
    ∷ ("expires_at", Json.int (pos expires_at))
    ∷ ("detail", Json.str detail)
    ∷ []
payload_fields (Payload.user_input_required id prompt detail qs expires_at answerable blocking) =
    ("request_id", Json.str id)
    ∷ ("prompt", Json.str prompt)
    ∷ ("detail", Json.str detail)
    ∷ ("questions", array (map question_json qs))
    ∷ ("expires_at", Json.int (pos expires_at))
    ∷ ("answerable", Json.bool answerable)
    ∷ ("blocking", Json.bool blocking)
    ∷ []
payload_fields (Payload.resolved r) =
    ("request_id", Json.str r.request_id)
    ∷ ("by", Json.str (by_name r.by))
    ∷ (decision_member r.decision
        ++ (answers_member r.answers
            ++ (if r.unknown then ("unknown", Json.bool true) ∷ [] else [])))
payload_fields (Payload.attention active) =
    ("reason", Json.str "approval") ∷ ("active", Json.bool active) ∷ []
payload_fields (Payload.task_completed text) =
    ("message", Json.str text) ∷ ("error_code", Json.str "") ∷ []
payload_fields (Payload.task_failed text code) =
    ("message", Json.str text) ∷ ("error_code", Json.str code) ∷ []

event_json : Event → Json
unfolding kind_name key_fields payload_fields
event_json e = object (
    ("event_id", Json.str e.event_id)
    ∷ ("kind", Json.str (kind_name e.payload))
    ∷ (key_fields e.key
        ++ (("sequence", Json.int (pos e.sequence))
            ∷ ("occurred_at", Json.int (pos e.occurred_at))
            ∷ ("correlation_id", Json.str e.correlation_id)
            ∷ ("payload", object (payload_fields e.payload))
            ∷ [])))

-- `len(json.dumps(event, ensure_ascii=False))`
unfoldable pub size : Event → ℕ
unfolding event_json dumps
size e = count (dumps plain (event_json e))

-- ===== src/Protocol/Shapes.antt =====
-- The kinds of facts of bridge/deskhelm_protocol/model.py: their enums with the tables of their
-- values, and what the Bridge reads of a checked fact.
use deskhelm.Prelude.{String, Bool, List, [], ◌∷◌, Option}
use deskhelm.Json.{ℤ, Json, Object}
use deskhelm.Protocol.Capability.{CapabilityMatrix}
use deskhelm.Protocol.Request.{OpenRequest, Answers}

pub data FactKind : Type 0 where
  ready turn_started message tool request_opened request_resolved : FactKind
  turn_terminal status catalog capabilities session_ended : FactKind

pub data MessageRole : Type 0 where
  user assistant system : MessageRole

pub data MessagePhase : Type 0 where
  delta complete : MessagePhase

pub data ToolPhase : Type 0 where
  start output complete : ToolPhase

pub data ToolStatus : Type 0 where
  completed failed declined : ToolStatus

pub data TurnStatus : Type 0 where
  completed interrupted failed : TurnStatus

pub data Failure : Type 0 where
  provider usage_limit auth protocol transport_lost process_exit timeout : Failure

pub data ResolvedBy : Type 0 where
  native desk_helm cancelled expired : ResolvedBy

abbrev pub fact_values : List (String × FactKind)
fact_values =
    ("ready", FactKind.ready)
    ∷ ("turn_started", FactKind.turn_started)
    ∷ ("message", FactKind.message)
    ∷ ("tool", FactKind.tool)
    ∷ ("request_opened", FactKind.request_opened)
    ∷ ("request_resolved", FactKind.request_resolved)
    ∷ ("turn_terminal", FactKind.turn_terminal)
    ∷ ("status", FactKind.status)
    ∷ ("catalog", FactKind.catalog)
    ∷ ("capabilities", FactKind.capabilities)
    ∷ ("session_ended", FactKind.session_ended)
    ∷ []

abbrev pub role_values : List (String × MessageRole)
role_values =
    ("user", MessageRole.user)
    ∷ ("assistant", MessageRole.assistant)
    ∷ ("system", MessageRole.system)
    ∷ []

abbrev pub phase_values : List (String × MessagePhase)
phase_values = ("delta", MessagePhase.delta) ∷ ("complete", MessagePhase.complete) ∷ []

abbrev pub tool_phase_values : List (String × ToolPhase)
tool_phase_values =
    ("start", ToolPhase.start)
    ∷ ("output", ToolPhase.output)
    ∷ ("complete", ToolPhase.complete)
    ∷ []

abbrev pub tool_status_values : List (String × ToolStatus)
tool_status_values =
    ("completed", ToolStatus.completed)
    ∷ ("failed", ToolStatus.failed)
    ∷ ("declined", ToolStatus.declined)
    ∷ []

abbrev pub turn_status_values : List (String × TurnStatus)
turn_status_values =
    ("completed", TurnStatus.completed)
    ∷ ("interrupted", TurnStatus.interrupted)
    ∷ ("failed", TurnStatus.failed)
    ∷ []

abbrev pub failure_values : List (String × Failure)
failure_values =
    ("provider", Failure.provider)
    ∷ ("usage_limit", Failure.usage_limit)
    ∷ ("auth", Failure.auth)
    ∷ ("protocol", Failure.protocol)
    ∷ ("transport_lost", Failure.transport_lost)
    ∷ ("process_exit", Failure.process_exit)
    ∷ ("timeout", Failure.timeout)
    ∷ []

abbrev pub resolved_values : List (String × ResolvedBy)
resolved_values =
    ("native", ResolvedBy.native)
    ∷ ("deskhelm", ResolvedBy.desk_helm)
    ∷ ("cancelled", ResolvedBy.cancelled)
    ∷ ("expired", ResolvedBy.expired)
    ∷ []

pub record Message : Type 0 where
  pub message_ref : String
  pub role : MessageRole
  pub phase : MessagePhase
  pub command_id : Option String
  pub text : String

pub record Tool : Type 0 where
  pub tool_ref : String
  pub label : String
  pub phase : ToolPhase
  pub status : Option ToolStatus
  pub exit_code : Option ℤ
  pub replace : Bool
  pub stream : Json
  pub text : String

pub record Terminal : Type 0 where
  pub status : TurnStatus
  pub failure : Option Failure
  pub reusable : Bool
  pub message : String

-- A fact's `meta` and `content`, by its kind.
pub data FactBody : Type 0 where
  ready : FactBody
  turn_started : Option String → FactBody
  message : Message → FactBody
  tool : Tool → FactBody
  request_opened : OpenRequest → FactBody
  request_resolved : String → ResolvedBy → Option Answers → FactBody
  turn_terminal : Terminal → FactBody
  status : Bool → FactBody
  catalog : Object → FactBody
  capabilities : CapabilityMatrix → FactBody
  session_ended : FactBody

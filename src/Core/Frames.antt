-- ===== src/Core/Frames.antt =====
-- What the core of bridge/deskhelm_core/core.py sends: frames as values, one constructor for each
-- type of frame. The prose of an error frame is left out.
use deskhelm.Prelude.{ℕ, String, Bool, List, Option}
use deskhelm.Json.{Object}
use deskhelm.Protocol.Session.{SessionKey, RuntimeIdentity}
use deskhelm.Protocol.Capability.{CapabilityMatrix}
use deskhelm.Protocol.Request.{RequestKind, Answers}
use deskhelm.Protocol.Shapes.{TurnStatus, Failure}
use deskhelm.Core.Events.{Event, Decision}

pub data Activity : Type 0 where
  starting idle working waiting_approval waiting_input : Activity

pub data Lifecycle : Type 0 where
  active disconnected : Lifecycle

pub data ResultCode : Type 0 where
  focused dispatched expired issuer_mismatch idempotency_conflict idempotency_capacity : ResultCode
  target_not_found target_inactive not_permitted unsupported approval_not_found : ResultCode
  approval_already_decided undelivered dispatch_failed invalid_command : ResultCode

pub data ErrorCode : Type 0 where
  protocol_violation unsupported_version capacity already_active not_permitted : ErrorCode

pub data OpenStatus : Type 0 where
  opened already_active capacity : OpenStatus

pub record TicketView : Type 0 where
  pub approval_id : String
  pub kind : RequestKind
  pub summary : String
  pub expires_at : ℕ
  pub answerable : Bool

pub record TurnOutcome : Type 0 where
  pub status : TurnStatus
  pub failure : Option Failure
  pub reusable : Bool
  pub turn_id : Option String

pub record View : Type 0 where
  pub key : SessionKey
  pub runtime : RuntimeIdentity
  pub capabilities : CapabilityMatrix
  pub lifecycle : Lifecycle
  pub activity : Activity
  pub turn_id : Option String
  pub last_outcome : Option TurnOutcome
  pub approvals : List TicketView
  pub attention : Bool
  pub opened_at : ℕ
  pub catalog_rev : ℕ

pub data Change : Type 0 where
  session_removed : SessionKey → Change
  session : View → Change
  focus : Option SessionKey → Change

-- An effect with its payload; the command's id stands beside it in the frame.
pub data Effect : Type 0 where
  submit : String → Effect
  interrupt : Effect
  respond : String → Decision → Effect
  answer : String → Answers → Effect
  configure : Option (Option String) → Option (Option String) → Effect

pub record CommandResult : Type 0 where
  pub command_id : String
  pub accepted : Bool
  pub code : ResultCode

pub data QueryStatus : Type 0 where
  ok not_permitted unavailable : QueryStatus

pub data Frame : Type 0 where
  hello_ok : String → String → Frame
  error : ErrorCode → Frame
  session_open_result : OpenStatus → Frame
  effect : String → String → Effect → Frame
  command_result : CommandResult → Bool → Frame
  query_result : String → QueryStatus → Object → Frame
  console_snapshot : String → ℕ → Option SessionKey → List View → Frame
  interaction_snapshot : String → ℕ → ℕ → Frame
  interaction : ℕ → Bool → Event → Frame
  delta : String → ℕ → List Change → Frame

pub data Output : Type 0 where
  send : String → Frame → Output
  close : String → ErrorCode → Output

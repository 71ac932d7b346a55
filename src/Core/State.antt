-- ===== src/Core/State.antt =====
-- The state of `Core` in bridge/deskhelm_core/core.py. An object that a dict holds is the dict's
-- value; a change of it is a `modify` under its key.
use deskhelm.Prelude.{ℕ, ◌*◌, String, Bool, List, [], Option, none, false, map}
use deskhelm.Dict.{Dict, values}
use deskhelm.Json.{Object}
use deskhelm.Protocol.Session.{SessionKey, RuntimeIdentity}
use deskhelm.Protocol.Capability.{CapabilityMatrix}
use deskhelm.Protocol.Request.{RequestKind}
use deskhelm.Protocol.Shapes.{ResolvedBy}
use deskhelm.Protocol.Command.{Command}
use deskhelm.Core.Events.{Event}
use deskhelm.Core.Frames.{
  Activity, Lifecycle, TicketView, TurnOutcome, View, Change, CommandResult, Output,
}

pub data Role : Type 0 where
  host client : Role

pub data Tier : Type 0 where
  operator voice device observer : Tier

pub data Stream : Type 0 where
  console interaction : Stream

pub record CoreLimits : Type 0 where
  pub max_sessions : ℕ
  pub max_hosts : ℕ
  pub max_clients : ℕ
  pub max_receipts : ℕ
  pub receipt_retention_ms : ℕ
  pub effect_deadline_ms : ℕ
  pub disconnected_ttl_ms : ℕ
  pub delta_history : ℕ
  pub window_events : ℕ
  pub window_bytes : ℕ
  pub max_tickets : ℕ

abbrev pub default_limits : CoreLimits
default_limits = record {
  max_sessions = 32;
  max_hosts = 32;
  max_clients = 16;
  max_receipts = 1024;
  receipt_retention_ms = 300_000;
  effect_deadline_ms = 5_000;
  disconnected_ttl_ms = 120_000;
  delta_history = 256;
  window_events = 200;
  window_bytes = 256 * 1024;
  max_tickets = 16;
}

pub record Ticket : Type 0 where
  pub approval_id : String
  pub provider_ref : String
  pub kind : RequestKind
  pub summary : String
  pub expires_at : ℕ
  pub answerable : Bool
  pub blocking : Bool
  pub question_ids : List String
  pub reserved : Bool
  pub resolved_by : Option ResolvedBy

unfoldable pub ticket_view : Ticket → TicketView
ticket_view t = record {
  approval_id = t.approval_id;
  kind = t.kind;
  summary = t.summary;
  expires_at = t.expires_at;
  answerable = t.answerable;
}

pub record SessionRecord : Type 0 where
  pub key : SessionKey
  pub owner : Option String
  pub runtime : RuntimeIdentity
  pub capabilities : CapabilityMatrix
  pub opened_at : ℕ
  pub lifecycle : Lifecycle
  pub activity : Activity
  pub ready : Bool
  pub turn_id : Option String
  pub turn_correlation : Option String
  pub last_outcome : Option TurnOutcome
  pub tickets : Dict String Ticket
  pub decided : Dict String ℕ
  pub attention : Bool
  pub host_seq : ℕ
  pub disconnected_at : Option ℕ
  pub catalog : Option Object
  pub catalog_rev : ℕ
  pub window : List Event
  pub window_bytes : ℕ
  pub sent_view : Option View

unfoldable pub view : SessionRecord → View
unfolding ticket_view
view r = record {
  key = r.key;
  runtime = r.runtime;
  capabilities = r.capabilities;
  lifecycle = r.lifecycle;
  activity = r.activity;
  turn_id = r.turn_id;
  last_outcome = r.last_outcome;
  approvals = map ticket_view (values r.tickets);
  attention = r.attention;
  opened_at = r.opened_at;
  catalog_rev = r.catalog_rev;
}

pub record Connection : Type 0 where
  pub connection_id : String
  pub role : Option Role
  pub client_id : String
  pub tier : Option Tier
  pub session : Option SessionKey
  pub console : Bool
  pub interaction : Bool
  pub interaction_filter : Option (List SessionKey)

abbrev pub new_connection : String → Connection
new_connection id = record {
  connection_id = id;
  role = none;
  client_id = "";
  tier = none;
  session = none;
  console = false;
  interaction = false;
  interaction_filter = none;
}

pub record Receipt : Type 0 where
  pub fingerprint : String
  pub retained_until : ℕ
  pub result : Option CommandResult
  pub waiters : List String

pub record InFlight : Type 0 where
  pub effect_id : String
  pub command : Command
  pub session : SessionKey
  pub deadline : ℕ
  pub approval_id : Option String
  pub scope : String × String

-- `sha256` stands for `hashlib.sha256(text.encode("utf-8")).hexdigest()`.
pub record Config : Type 0 where
  pub instance_id : String
  pub limits : CoreLimits
  pub sha256 : String → String

pub record Core : Type 0 where
  pub config : Config
  pub open config use *
  pub connections : Dict String Connection
  pub sessions : Dict SessionKey SessionRecord
  pub focus : Option SessionKey
  pub receipts : Dict (String × String) Receipt
  pub in_flight : Dict String InFlight
  pub counter : ℕ
  pub console_seq : ℕ
  pub interaction_seq : ℕ
  pub deltas : List (ℕ × List Change)
  pub out : List Output
  pub dirty : List SessionKey
  pub removed : List SessionKey
  pub focus_dirty : Bool

abbrev pub init : Config → Core
init config = record {
  config = config;
  connections = [];
  sessions = [];
  focus = none;
  receipts = [];
  in_flight = [];
  counter = 0;
  console_seq = 0;
  interaction_seq = 0;
  deltas = [];
  out = [];
  dirty = [];
  removed = [];
  focus_dirty = false;
}

-- ===== src/Core/Hosts.antt =====
-- `_hello`, `_host_frame`, `_owned` and `_session_open` of bridge/deskhelm_core/core.py.
pub mod Sequence
use mathlib.Core.Bool.{not}
use deskhelm.Prelude.{
  ℕ, String, string_eq, option_eq, Bool, true, false, List, [], ◌∷◌, Option, none, some, eqb, leb,
  length, select, present, ◌==◌, if◌then◌else◌,
}
use deskhelm.Dict.{Dict, lookup, insert, has_key, values}
use deskhelm.Json.{Json, Object, pos, array}
use deskhelm.Protocol.Fields.{
  Result, ok, violation, ◌>>=◌, ◌>>◌, require, get, get_or, identity_field, enum_field, list_field,
  check_all,
}
use deskhelm.Protocol.Session.{
  SessionKey, RuntimeIdentity, key_eq, key_from_dict, runtime_from_dict,
}
use deskhelm.Protocol.Capability.{CapabilityMatrix, capabilities_from_dict}
use deskhelm.Protocol.Request.{OpenRequest, request_from_dict, max_open_requests}
use deskhelm.Protocol.Fact.{fact_from_dict}
use deskhelm.Core.Frames.{Activity, Lifecycle, ErrorCode, OpenStatus, Frame}
use deskhelm.Core.State.{Core, SessionRecord, Connection, Role, Tier}
use deskhelm.Core.Actions.{send_to, update, recompute}
use deskhelm.Core.Tickets.{open_tickets}
use deskhelm.Core.Settle.{remove_session}
use deskhelm.Core.Facts.{Outcome, fact, effect_result}
use deskhelm.Core.Clients.{is_text, update_connection}

abbrev pub role_values : List (String × Role)
role_values = ("host", Role.host) ∷ ("client", Role.client) ∷ []

abbrev pub tier_values : List (String × Tier)
tier_values =
    ("operator", Tier.operator)
    ∷ ("voice", Tier.voice)
    ∷ ("device", Tier.device)
    ∷ ("observer", Tier.observer)
    ∷ []

unfoldable pub same_role : Role → Option Role → Bool
same_role Role.host (some Role.host) = true
same_role Role.client (some Role.client) = true
same_role role _ = false

-- The connections that have said hello in a role.
unfoldable pub role_count : Role → Dict String Connection → ℕ
unfolding same_role select
role_count role connections = length (select (λ s. same_role role s.role) (values connections))

unfoldable pub role_limit : Core → Role → ℕ
role_limit c Role.host = c.limits.max_hosts
role_limit c Role.client = c.limits.max_clients

-- `frame.get("protocol_version") == 2`; a float may equal it.
unfoldable pub is_version_two : Json → Bool
is_version_two (Json.int (pos n)) = eqb n 2
is_version_two (Json.real s) = s == "2.0"
is_version_two _ = false

pub record Hello : Type 0 where
  pub role : Role
  pub client_id : String
  pub tier : Option Tier

hello_tier : Role → Object → Result (Option Tier)
hello_tier Role.client frame = do tier ← enum_field tier_values (get frame "tier"); ok (some tier)
hello_tier Role.host frame = do require (not (has_key "tier" frame)); ok none

unfoldable pub hello_fields : Object → Result Hello
unfolding hello_tier
hello_fields frame = do
  role ← enum_field role_values (get frame "role")
  client_id ← identity_field (get frame "client_id")
  tier ← hello_tier role frame
  ok (record { role = role; client_id = client_id; tier = tier })

unfoldable pub greet : Hello → Connection → Connection
greet h s = record s { role = some h.role; client_id = h.client_id; tier = h.tier }

-- `_hello` past the checks of its fields.
unfoldable pub accept_hello : Connection → Hello → Core → Outcome
unfolding role_count role_limit greet update_connection
accept_hello state h c =
    if leb (role_limit c h.role) (role_count h.role c.connections)
    then Outcome.raised ErrorCode.capacity c
    else Outcome.done (
        send_to (some state.connection_id) (Frame.hello_ok state.connection_id c.instance_id)
          (update_connection state.connection_id (greet h) c))

-- `_hello`
unfoldable pub hello : Connection → Object → Core → Outcome
unfolding is_version_two hello_fields is_text
hello state frame c =
    if not (is_text (get frame "type") "hello")
    then Outcome.raised ErrorCode.protocol_violation c
    else if not (is_version_two (get frame "protocol_version"))
    then Outcome.raised ErrorCode.unsupported_version c
    else elim (hello_fields frame) [
      | violation ↦ Outcome.raised ErrorCode.protocol_violation c
      | ok h ↦ accept_hello state h c
    ]

pub record Opening : Type 0 where
  pub key : SessionKey
  pub runtime : RuntimeIdentity
  pub capabilities : CapabilityMatrix
  pub requests : List OpenRequest

unfoldable pub opening_fields : Object → Result Opening
opening_fields frame = do
  key ← key_from_dict (get frame "session")
  runtime ← runtime_from_dict (get frame "runtime")
  capabilities ← capabilities_from_dict (get frame "capabilities")
  raw_requests ← list_field (get_or frame "open_requests" (array []))
  require (leb (length raw_requests) max_open_requests)
  requests ← check_all request_from_dict raw_requests
  ok (record { key = key; runtime = runtime; capabilities = capabilities; requests = requests })

unfoldable pub new_session : String → Opening → ℕ → SessionRecord
new_session owner o now = record {
  key = o.key;
  owner = some owner;
  runtime = o.runtime;
  capabilities = o.capabilities;
  opened_at = now;
  lifecycle = Lifecycle.active;
  activity = Activity.starting;
  ready = false;
  turn_id = none;
  turn_correlation = none;
  last_outcome = none;
  tickets = [];
  decided = [];
  attention = false;
  host_seq = 0;
  disconnected_at = none;
  catalog = none;
  catalog_rev = 0;
  window = [];
  window_bytes = 0;
  sent_view = none;
}

-- A replacement host reopens a disconnected session.
unfoldable pub reopened : String → Opening → SessionRecord → SessionRecord
reopened owner o r = record r {
  owner = some owner;
  runtime = o.runtime;
  capabilities = o.capabilities;
  lifecycle = Lifecycle.active;
  disconnected_at = none;
  host_seq = 0;
  ready = false;
  tickets = [];
  attention = false;
}

unfoldable pub is_live : SessionRecord → Bool
is_live r = elim r.lifecycle [ Lifecycle.active ↦ true | _ ↦ false ]

-- What `_session_open` does once the record is in its dict.
unfoldable pub announce_session : String → Opening → ℕ → Core → Core
unfolding update_connection
announce_session id o now c = send_to (some id) (Frame.session_open_result OpenStatus.opened) (
    recompute o.key (
      open_tickets o.key o.requests now
        (update_connection id (λ s. record s { session = some o.key }) c)))

-- `_session_open` past the checks of its fields.
unfoldable pub open_session : Connection → Opening → ℕ → Core → Outcome
unfolding new_session reopened is_live update
open_session state o now c =
    let id = state.connection_id in
    elim (lookup o.key c.sessions) [
      | none ↦
          if leb c.limits.max_sessions (length c.sessions)
          then Outcome.raised ErrorCode.capacity
              (send_to (some id) (Frame.session_open_result OpenStatus.capacity) c)
          else Outcome.done (
              announce_session id o now
                (record c { sessions = insert o.key (new_session id o now) c.sessions }))
      | some r ↦
          if is_live r
          then Outcome.raised ErrorCode.already_active
              (send_to (some id) (Frame.session_open_result OpenStatus.already_active) c)
          else Outcome.done (announce_session id o now (update o.key (reopened id o) c))
    ]

-- `_session_open`
unfoldable pub session_open : Connection → Object → ℕ → Core → Outcome
unfolding opening_fields
session_open state frame now c =
    if present state.session
    then Outcome.raised ErrorCode.protocol_violation c
    else elim (opening_fields frame) [
      | violation ↦ Outcome.raised ErrorCode.protocol_violation c
      | ok o ↦ open_session state o now c
    ]

-- `_owned`
unfoldable pub owned : Connection → Core → Option (SessionKey × SessionRecord)
owned state c = elim state.session [
  | none ↦ none
  | some key ↦ elim (lookup key c.sessions) [
    | none ↦ none
    | some r ↦ if r.owner == some state.connection_id then some (key, r) else none
  ]
]

unfoldable pub report_fact : SessionKey → SessionRecord → Object → ℕ → Core → Outcome
report_fact key r frame now c = elim (fact_from_dict frame) [
  | violation ↦ Outcome.raised ErrorCode.protocol_violation c
  | ok f ↦ fact key r f now c
]

unfoldable pub close_session : Connection → SessionKey → ℕ → Core → Core
unfolding update_connection
close_session state key now c =
    update_connection state.connection_id (λ s. record s { session = none })
      (remove_session key now c)

-- The frames of a host that has a session.
unfoldable pub session_frame : Connection → SessionKey → SessionRecord → Object → ℕ → Core → Outcome
unfolding report_fact close_session is_text
session_frame state key r frame now c =
    let kind = get frame "type" in
    if is_text kind "fact"
    then report_fact key r frame now c
    else if is_text kind "effect_result"
    then effect_result key frame now c
    else if is_text kind "session_close"
    then Outcome.done (close_session state key now c)
    else Outcome.raised ErrorCode.protocol_violation c

-- `_host_frame`
unfoldable pub host_frame : Connection → Object → ℕ → Core → Outcome
unfolding owned is_text
host_frame state frame now c =
    if is_text (get frame "type") "session_open"
    then session_open state frame now c
    else elim (owned state c) [
      | none ↦ Outcome.raised ErrorCode.protocol_violation c
      | some (key, r) ↦ session_frame state key r frame now c
    ]

-- The frames of one host one after another, each with its time, until one raises.
unfoldable pub host_frames : Connection → List (ℕ × Object) → Core → Outcome
host_frames state [] c = Outcome.done c
host_frames state ((now, frame) ∷ rest) c = elim (host_frame state frame now c) [
  | Outcome.done d ↦ host_frames state rest d
  | Outcome.raised code d ↦ Outcome.raised code d
]

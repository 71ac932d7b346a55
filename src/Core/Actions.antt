-- ===== src/Core/Actions.antt =====
-- The shared helpers of `Core` in bridge/deskhelm_core/core.py: `_send`, `_result`, `_new_id`,
-- `_interaction`, `_resolved`, `_recompute` and `_set_focus`.
use Prim.Native.String.{◌++◌ as join}
use mathlib.Core.Bool.{not}
use deskhelm.Prelude.{
  ℕ, ◌+◌, String, string_eq, option_eq, Bool, true, false, ◌&&◌, ◌||◌, List, [], ◌∷◌, ◌++◌, Option,
  none, some, map, any, select, contains, present, ◌==◌, if◌then◌else◌,
}
use deskhelm.Dict.{modify, values}
use deskhelm.Json.Dumps.{decimal}
use deskhelm.Protocol.Session.{SessionKey, key_eq}
use deskhelm.Protocol.Request.{RequestKind, Answers, is_empty}
use deskhelm.Protocol.Shapes.{ResolvedBy}
use deskhelm.Core.Events.{Event, Payload, Decision}
use deskhelm.Core.Frames.{Activity, ResultCode, CommandResult, Frame, Output, send}
use deskhelm.Core.State.{Core, SessionRecord, Connection, Ticket}
use deskhelm.Core.Window.{append_event}

-- `_send`: nothing goes out without a connection.
unfoldable pub send_to : Option String → Frame → Core → Core
send_to none frame c = c
send_to (some connection) frame c = record c { out = c.out ++ send connection frame ∷ [] }

-- Every output of a list of frames, in order.
unfoldable pub send_all : List Output → Core → Core
send_all outputs c = record c { out = c.out ++ outputs }

is_accepted : ResultCode → Bool
is_accepted ResultCode.focused = true
is_accepted ResultCode.dispatched = true
is_accepted _ = false

unfoldable pub result_frame : String → ResultCode → CommandResult
unfolding is_accepted
result_frame command_id code = record {
  command_id = command_id;
  accepted = is_accepted code;
  code = code;
}

-- `_result`
unfoldable pub send_result : String → String → ResultCode → Core → Core
unfolding send_to
send_result connection command_id code c =
    send_to (some connection) (Frame.command_result (result_frame command_id code) false) c

-- f"{prefix}-{self.instance_id}-{self._counter}"
unfoldable pub fresh_id : String → String → ℕ → String
unfolding decimal
fresh_id prefix instance_id n = join prefix (join "-" (join instance_id (join "-" (decimal n))))

-- `_new_id`: the id that the next count gives, and the core that has counted it.
unfoldable pub new_id : String → Core → String
new_id prefix c = fresh_id prefix c.instance_id (c.counter + 1)

unfoldable pub counted : Core → Core
counted c = record c { counter = c.counter + 1 }

-- A change of the record that `_sessions` holds under the key.
unfoldable pub update : SessionKey → (SessionRecord → SessionRecord) → Core → Core
update key f c = record c { sessions = modify key f c.sessions }

unfoldable pub wanted : Connection → SessionKey → Bool
wanted state key = elim state.interaction_filter [
  | none ↦ true
  | some sessions ↦ contains sessions key
]

unfoldable pub interaction_outputs : SessionKey → Frame → List Connection → List Output
unfolding wanted select
interaction_outputs key frame states =
    map (λ s. send s.connection_id frame) (select (λ s. s.interaction && wanted s key) states)

unfoldable pub new_event : Core → SessionKey → Payload → String → ℕ → Event
new_event c key payload correlation now = record {
  event_id = join c.instance_id (join "-" (decimal (c.interaction_seq + 1)));
  key = key;
  sequence = c.interaction_seq + 1;
  occurred_at = now;
  correlation_id = correlation;
  payload = payload;
}

-- `_interaction`
unfoldable pub interaction : SessionKey → Payload → String → ℕ → Core → Core
unfolding new_event interaction_outputs
interaction key payload correlation now c =
    let event = new_event c key payload correlation now in
    let remember = λ (r : SessionRecord). record r {
      window = (append_event c.limits event r).events;
      window_bytes = (append_event c.limits event r).bytes;
    } in
    record c {
      interaction_seq = c.interaction_seq + 1;
      sessions = modify key remember c.sessions;
      out =
          c.out
          ++ interaction_outputs key (Frame.interaction event.sequence false event)
              (values c.connections);
    }

pub record Ending : Type 0 where
  pub by : ResolvedBy
  pub decision : Option Decision
  pub answers : Option Answers
  pub unknown : Bool

abbrev pub ended : ResolvedBy → Ending
ended by = record { by = by; decision = none; answers = none; unknown = false }

-- `_resolved`
unfoldable pub resolved : SessionKey → Ticket → Ending → ℕ → Core → Core
resolved key ticket ending now c =
    interaction key
      (Payload.resolved (record {
        kind = ticket.kind;
        request_id = ticket.approval_id;
        by = ending.by;
        decision = ending.decision;
        answers = ending.answers;
        unknown = ending.unknown;
      }))
      ticket.approval_id now c

unfoldable pub is_approval : Ticket → Bool
is_approval t = elim t.kind [ RequestKind.approval ↦ true | RequestKind.input ↦ false ]

unfoldable pub is_input : Ticket → Bool
is_input t = elim t.kind [ RequestKind.approval ↦ false | RequestKind.input ↦ true ]

unfoldable pub activity_of : SessionRecord → Activity
unfolding is_approval is_input any select
activity_of r =
    let tickets = values r.tickets in
    let inputs = select is_input tickets in
    if any is_approval tickets || r.attention
    then Activity.waiting_approval
    else if any (λ t. t.blocking) inputs
    then Activity.waiting_input
    else if present r.turn_id
    then Activity.working
    else if not (is_empty inputs)
    then Activity.waiting_input
    else if r.ready
    then Activity.idle
    else Activity.starting

-- A set of keys, as the list of its members.
unfoldable pub mark : SessionKey → List SessionKey → List SessionKey
unfolding contains
mark key keys = if contains keys key then keys else keys ++ key ∷ []

-- `_recompute`
unfoldable pub recompute : SessionKey → Core → Core
unfolding activity_of mark
recompute key c = record c {
  sessions = modify key (λ r. record r { activity = activity_of r }) c.sessions;
  dirty = mark key c.dirty;
}

-- `_set_focus`
unfoldable pub set_focus : Option SessionKey → Core → Core
set_focus key c = if c.focus == key then c else record c { focus = key; focus_dirty = true }

-- ===== src/Transcript/Requests.antt =====
-- The handlers of `Transcript` in bridge/deskhelm_client/transcript.py for approvals, questions and
-- the ends of turns, and `settle`.
use Prim.Native.String.{◌++◌ as join}
use deskhelm.Prelude.{
  ◌+◌, String, string_eq, Bool, false, not, [], ◌∷◌, ◌++◌, Option, none, some, contains, ◌==◌,
  if◌then◌else◌,
}
use deskhelm.Dict.{Dict, lookup, has_key}
use deskhelm.Json.{Object}
use deskhelm.Json.Dumps.{decimal}
use deskhelm.Protocol.Fields.{get}
use deskhelm.Transcript.{Approval, Input, Turn, Body, Item, max_item_summary, max_item_detail}
use deskhelm.Transcript.Texts.{
  or_else, identity, reference, text_of, is_true, not_false, int_or_zero, bounded, shown_questions,
  shown_answers,
}
use deskhelm.Transcript.Storage.{TranscriptState, Folded, new_item, create, upsert}

-- An item that is new, with its patch; an id that is known changes nothing.
unfoldable pub add_item : String → Body → Object → TranscriptState → Folded
unfolding lookup new_item create upsert
add_item id body event s =
    let item = new_item id body event s in
    if has_key id s.items then (s, []) else upsert item (create item s)

new_approval : String → Object → Approval
unfolding bounded int_or_zero get
new_approval id payload = record {
  approval_id = id;
  summary = bounded payload "summary" max_item_summary;
  detail = bounded payload "detail" max_item_detail;
  expires_at = int_or_zero (get payload "expires_at");
  resolution = "";
  decision = "";
  uncertain = false;
}

-- `_approval`
unfoldable pub approval_event : Object → Object → TranscriptState → Folded
unfolding add_item new_approval identity get
approval_event event payload s =
    let id = identity (get payload "request_id") in
    if id == ""
    then (s, [])
    else add_item (join "a:" id) (Body.approval (new_approval id payload)) event s

unfoldable pub is_resolver : String → Bool
unfolding contains
is_resolver = contains ("deskhelm" ∷ "native" ∷ "cancelled" ∷ "expired" ∷ [])

is_decision : String → Bool
unfolding contains
is_decision = contains ("approve" ∷ "reject" ∷ [])

resolved_approval : Object → Approval → Approval
unfolding is_decision text_of is_true get
resolved_approval payload a =
    let decision = text_of (get payload "decision") in
    record a {
      resolution = text_of (get payload "by");
      decision = if is_decision decision then decision else "";
      uncertain = is_true (get payload "unknown");
    }

unfoldable pub found_approval : Item → Body → Object → TranscriptState → Folded
unfolding is_resolver resolved_approval upsert text_of get
found_approval item (Body.approval a) payload s =
    if is_resolver (text_of (get payload "by"))
    then upsert (record item { body = Body.approval (resolved_approval payload a) }) s
    else (s, [])
found_approval item _ payload s = (s, [])

-- `_resolution`
unfoldable pub resolution_event : Object → TranscriptState → Folded
unfolding lookup found_approval identity get
resolution_event payload s =
    elim (lookup (join "a:" (identity (get payload "request_id"))) s.items) [
      | none ↦ (s, [])
      | some item ↦ found_approval item item.body payload s
    ]

new_input : String → Object → Input
unfolding bounded int_or_zero shown_questions is_true not_false get
new_input id payload = record {
  approval_id = id;
  prompt = bounded payload "prompt" max_item_summary;
  detail = bounded payload "detail" max_item_detail;
  questions = shown_questions (get payload "questions");
  expires_at = int_or_zero (get payload "expires_at");
  answerable = is_true (get payload "answerable");
  blocking = not_false (get payload "blocking");
  resolution = "";
  answers = [];
  uncertain = false;
}

-- `_input`
unfoldable pub input_event : Object → Object → TranscriptState → Folded
unfolding add_item new_input or_else identity reference get
input_event event payload s =
    let id = or_else (identity (get payload "request_id")) (reference event) in
    add_item (join "i:" id) (Body.input (new_input id payload)) event s

resolved_input : Object → Input → Input
unfolding shown_answers text_of is_true get
resolved_input payload i = record i {
  resolution = text_of (get payload "by");
  answers = shown_answers (get payload "answers");
  uncertain = is_true (get payload "unknown");
}

unfoldable pub found_input : Item → Body → Object → TranscriptState → Folded
unfolding is_resolver resolved_input upsert text_of get
found_input item (Body.input i) payload s =
    if is_resolver (text_of (get payload "by"))
    then upsert (record item { body = Body.input (resolved_input payload i) }) s
    else (s, [])
found_input item _ payload s = (s, [])

-- `_input_resolution`
unfoldable pub input_resolution_event : Object → TranscriptState → Folded
unfolding lookup found_input identity get
input_resolution_event payload s =
    elim (lookup (join "i:" (identity (get payload "request_id"))) s.items) [
      | none ↦ (s, [])
      | some item ↦ found_input item item.body payload s
    ]

-- What `settle` makes of a body that is still in flight.
unfoldable pub settled_body : Body → Option Body
settled_body (Body.tool t) =
    if t.status == "running" then some (Body.tool (record t { status = "stopped" })) else none
settled_body (Body.message m) =
    if m.streaming then some (Body.message (record m { streaming = false })) else none
settled_body _ = none

-- The loop of `settle`. The items keep their order, and none is passed twice.
unfoldable pub settle_items : Dict String Item → TranscriptState → Folded
unfolding settled_body upsert
settle_items [] s = (s, [])
settle_items ((id, item) ∷ rest) s = elim (settled_body item.body) [
  | none ↦ settle_items rest s
  | some body ↦
      let first = upsert (record item { body = body }) s in
      let more = settle_items rest first.0 in (more.0, first.1 ++ more.1)
]

-- `settle`
unfoldable pub settle_transcript : TranscriptState → Folded
unfolding settle_items
settle_transcript s = settle_items s.items s

turn_status : Bool → String → String
turn_status failed code =
    if not failed then "completed" else if code == "interrupted" then "interrupted" else "failed"

unfoldable pub new_turn : Bool → Object → Turn
unfolding turn_status bounded get
new_turn failed payload =
    let code = bounded payload "error_code" 64 in
    let status = turn_status failed code in
    record {
      status = status;
      code = if status == "failed" then code else "";
      message = bounded payload "message" max_item_summary;
    }

unfoldable pub turn_id : Object → TranscriptState → String
unfolding or_else identity decimal get
turn_id event s = join "r:" (or_else (identity (get event "event_id")) (decimal (s.seq + 1)))

-- `_turn`: nothing of a turn is still running once the turn has ended.
unfoldable pub turn_event : Bool → Object → Object → TranscriptState → Folded
unfolding lookup settle_transcript new_turn turn_id new_item create upsert
turn_event failed event payload s =
    let id = turn_id event s in
    let settled = settle_transcript s in
    let item = new_item id (Body.turn (new_turn failed payload)) event settled.0 in
    let added = upsert item (create item settled.0) in
    if has_key id s.items then (s, []) else (added.0, settled.1 ++ added.1)

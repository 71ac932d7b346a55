-- ===== src/Transcript/Kinds.antt =====
-- The handlers of `Transcript` in bridge/deskhelm_client/transcript.py, one for each kind of event.
-- The first letter of an item's id says its type, so an item of another type is never found under
-- the id that a handler looks up; the clauses for it change nothing. A role, a status and a
-- resolver are texts or missing, as the Bridge has checked.
use Prim.Native.String.{count, ◌++◌ as join}
use deskhelm.Prelude.{
  zero, ◌-◌, String, string_eq, Bool, true, false, not, ◌&&◌, ◌||◌, [], ◌∷◌, Option, none, some,
  ltb, leb, contains, ◌==◌, if◌then◌else◌,
}
use deskhelm.Dict.{Dict, lookup}
use deskhelm.Json.{ℤ, Json, Object, pos}
use deskhelm.Protocol.Fields.{strip, get}
use deskhelm.Voice.Notices.{take_chars}
use deskhelm.Transcript.{
  Message, Tool, Body, Field, Item, max_message_chars, max_title_chars, max_output_chars,
}
use deskhelm.Transcript.Texts.{
  drop_chars, last_chars, or_else, is_blank, identity, reference, text_of, is_true,
}
use deskhelm.Transcript.Storage.{TranscriptState, Folded, new_item, create, store, upsert, append}

unfoldable pub is_role : String → Bool
unfolding contains
is_role = contains ("user" ∷ "assistant" ∷ "system" ∷ [])

unfoldable pub role_of : Object → String
unfolding is_role text_of get
role_of payload =
    let role = text_of (get payload "role") in if is_role role then role else "assistant"

abbrev body_role : Body → String
body_role (Body.message m) = m.role
body_role _ = ""

-- A notice may name the prompt it is about; it does not replace it.
unfoldable pub message_id : String → String → TranscriptState → String
unfolding lookup
message_id role ref s =
    let id = join "m:" ref in
    elim (lookup id s.items) [
      | none ↦ id
      | some item ↦ if body_role item.body == role then id else join "m:" (join role (join ":" ref))
    ]

abbrev pub with_message : Item → Message → Item
with_message item m = record item { body = Body.message m }

unfoldable pub message_delta : Bool → Item → Message → String → TranscriptState → Folded
unfolding upsert append take_chars
message_delta created item m text s =
    let chunk = take_chars (max_message_chars - count m.text) text in
    let longer = with_message item (record m { text = join m.text chunk }) in
    if not m.streaming
    then (if created then upsert item s else (s, []))
    else if created
    then upsert longer s
    else if chunk == ""
    then (s, [])
    else append longer Field.text chunk 0 s

unfoldable pub completed_text : Message → String → String
unfolding take_chars
completed_text m text = if text == "" then m.text else take_chars max_message_chars text

unfoldable pub message_phase : Bool → Item → Message → Object → TranscriptState → Folded
unfolding message_delta completed_text upsert text_of get
message_phase created item m payload s =
    let phase = text_of (get payload "phase") in
    let text = text_of (get payload "text") in
    let whole = record m { text = completed_text m text; streaming = false } in
    if phase == "delta"
    then message_delta created item m text s
    else if phase == "complete"
    then upsert (with_message item whole) s
    else upsert item s

abbrev pub new_message : String → Message
new_message role = record { role = role; text = ""; streaming = true }

unfoldable pub found_message : Item → Body → Object → TranscriptState → Folded
unfolding message_phase
found_message item (Body.message m) payload s = message_phase false item m payload s
found_message item _ payload s = (s, [])

unfoldable pub message_at : String → String → Object → Object → TranscriptState → Folded
unfolding lookup message_phase found_message new_item create
message_at id role event payload s =
    let item = new_item id (Body.message (new_message role)) event s in
    elim (lookup id s.items) [
      | none ↦ message_phase true item (new_message role) payload (create item s)
      | some found ↦ found_message found found.body payload s
    ]

-- `_message`
unfoldable pub message_event : Object → Object → TranscriptState → Folded
unfolding message_at message_id role_of reference
message_event event payload s =
    let role = role_of payload in
    message_at (message_id role (reference event) s) role event payload s

abbrev pub with_tool : Item → Tool → Item
with_tool item t = record item { body = Body.tool t }

-- A tool keeps the label it had when it started.
unfoldable pub labelled : Bool → Object → Tool → Tool
unfolding take_chars text_of get
labelled created payload t =
    let label = text_of (get payload "name") in
    if not (label == "") && (created || t.kind == "tool")
    then record t { kind = take_chars 128 label }
    else t

unfoldable pub tool_start : String → Tool → Tool
unfolding is_blank strip take_chars
tool_start text t =
    if is_blank text then t else record t { title = take_chars max_title_chars (strip text) }

-- A replacement, where the vendor gave the whole output.
unfoldable pub replaced_output : String → Tool → Tool
unfolding last_chars
replaced_output text t = record t {
  truncated = ltb max_output_chars (count text);
  output = last_chars max_output_chars text;
}

-- More output. `changed` says that an upsert is due anyway.
unfoldable pub more_output : Bool → Item → Tool → String → TranscriptState → Folded
unfolding drop_chars upsert append
more_output changed item t text s =
    let output = join t.output text in
    let trim = count output - max_output_chars in
    let whole = record t { output = output } in
    let cut = record t { output = drop_chars trim output } in
    if leb (count output) max_output_chars
    then (if changed
        then upsert (with_tool item whole) s
        else append (with_tool item whole) Field.output text 0 s)
    else if changed || not t.truncated || leb max_output_chars (count text)
    then upsert (with_tool item (record cut { truncated = true })) s
    else append (with_tool item cut) Field.output text trim s

-- `changed` says that an upsert is due: the tool was created, or its flag has just been set.
unfoldable pub tool_written : Bool → Item → Tool → Object → TranscriptState → Folded
unfolding replaced_output more_output upsert store is_true text_of get
tool_written changed item t payload s =
    let text = text_of (get payload "text") in
    if is_true (get payload "replace")
    then upsert (with_tool item (replaced_output text t)) s
    else if not (text == "")
    then more_output changed item t text s
    else if changed
    then upsert (with_tool item t) s
    else (store (with_tool item t) s, [])

unfoldable pub tool_output : Bool → Item → Tool → Object → TranscriptState → Folded
unfolding tool_written text_of get
tool_output created item t payload s =
    let flagged = text_of (get payload "stream") == "stderr" && not t.stderr in
    tool_written (created || flagged) item (record t { stderr = t.stderr || flagged }) payload s

exit_status : Object → Option ℤ
unfolding get
exit_status payload = elim (get payload "exit_code") [ Json.int z ↦ some z | _ ↦ none ]

tool_endings : Dict String String
tool_endings = ("completed", "done") ∷ ("failed", "failed") ∷ ("declined", "declined") ∷ []

-- The status that an exit code stands for.
fallback_status : Option ℤ → String
fallback_status none = "done"
fallback_status (some (pos zero)) = "done"
fallback_status (some z) = "failed"

tool_ending : String → Option ℤ → String
unfolding tool_endings fallback_status lookup
tool_ending status code = elim (lookup status tool_endings) [
  | none ↦ fallback_status code
  | some ending ↦ ending
]

unfoldable pub tool_complete : Object → Tool → Tool
unfolding exit_status tool_ending text_of get
tool_complete payload t =
    let code = exit_status payload in
    record t { exit_code = code; status = tool_ending (text_of (get payload "status")) code }

unfoldable pub tool_phase : Bool → Item → Tool → Object → TranscriptState → Folded
unfolding tool_start tool_output tool_complete upsert text_of get
tool_phase created item t payload s =
    let phase = text_of (get payload "phase") in
    if phase == "start"
    then upsert (with_tool item (tool_start (text_of (get payload "text")) t)) s
    else if phase == "output"
    then tool_output created item t payload s
    else if phase == "complete"
    then upsert (with_tool item (tool_complete payload t)) s
    else upsert (with_tool item t) s

abbrev pub new_tool : Tool
new_tool = record {
  kind = "tool";
  title = "";
  output = "";
  truncated = false;
  status = "running";
  exit_code = none;
  stderr = false;
}

unfoldable pub found_tool : Item → Body → Object → TranscriptState → Folded
unfolding labelled tool_phase
found_tool item (Body.tool t) payload s = tool_phase false item (labelled false payload t) payload s
found_tool item _ payload s = (s, [])

unfoldable pub tool_at : String → Object → Object → TranscriptState → Folded
unfolding lookup labelled tool_phase found_tool new_item create
tool_at id event payload s =
    let item = new_item id (Body.tool new_tool) event s in
    elim (lookup id s.items) [
      | none ↦ tool_phase true item (labelled true payload new_tool) payload (create item s)
      | some found ↦ found_tool found found.body payload s
    ]

-- `_tool`
unfoldable pub tool_event : Object → Object → TranscriptState → Folded
unfolding tool_at or_else identity reference get
tool_event event payload s =
    tool_at (join "t:" (or_else (identity (get payload "tool_call_id")) (reference event))) event
      payload s

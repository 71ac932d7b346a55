-- ===== src/Protocol/Fact.antt =====
-- `Fact.from_dict` and the validators of bridge/deskhelm_protocol/model.py. A checked fact keeps
-- what the Bridge reads of it, as a value of its kind.
use Prim.Native.String.{count}
use mathlib.Core.Bool.{not}
use deskhelm.Prelude.{
  ℕ, ◌*◌, ◌++◌, String, string_eq, true, false, List, [], ◌∷◌, Option, none, some, leb, all, any,
  contains, if◌then◌else◌,
}
use deskhelm.Dict.{has_key, keys}
use deskhelm.Json.{ℤ, Json, Object, object}
use deskhelm.Json.Dumps.{dumps, plain_ascii}
use deskhelm.Protocol.Fields.{
  Result, ok, violation, ◌>>=◌, ◌>>◌, require, get, get_or, object_field, int_field, bool_field,
  enum_field, text_field, identity_field, optional_identity, max_label_chars, max_summary_chars,
  max_text_chars,
}
use deskhelm.Protocol.Capability.{capabilities_from_dict}
use deskhelm.Protocol.Request.{request_from_object, Answers, answers_field, is_empty}
use deskhelm.Protocol.Shapes.{
  FactKind, ToolPhase, ToolStatus, Failure, FactBody, fact_values, role_values, phase_values,
  tool_phase_values, tool_status_values, turn_status_values, failure_values, resolved_values,
}

abbrev pub max_catalog_bytes : ℕ
max_catalog_bytes = 256 * 1024

no_content : Object → Result (Unit {0})
no_content content = require (is_empty content)

turn_started_fact : Object → Object → Result FactBody
turn_started_fact meta content = do
  turn_ref ← identity_field (get meta "turn_ref")
  command_id ← optional_identity meta "command_id"
  no_content content
  ok (FactBody.turn_started command_id)

message_fact : Object → Object → Result FactBody
message_fact meta content = do
  message_ref ← identity_field (get meta "message_ref")
  role ← enum_field role_values (get meta "role")
  phase ← enum_field phase_values (get meta "phase")
  command_id ← optional_identity meta "command_id"
  text ← text_field (get_or content "text" (Json.str "")) max_text_chars true
  ok (
      FactBody.message (record {
        message_ref = message_ref;
        role = role;
        phase = phase;
        command_id = command_id;
        text = text;
      }))

-- Every completion says how the tool ended; nothing else may.
tool_status : ToolPhase → Object → Result (Option ToolStatus)
tool_status ToolPhase.complete meta = do
  ended ← enum_field tool_status_values (get meta "status")
  ok (some ended)
tool_status phase meta = do require (not (has_key "status" meta)); ok none

exit_code : Json → Result (Option ℤ)
exit_code Json.null = ok none
exit_code (Json.int z) = ok (some z)
exit_code _ = violation

tool_fact : Object → Object → Result FactBody
unfolding tool_status exit_code
tool_fact meta content = do
  tool_ref ← identity_field (get meta "tool_ref")
  label ← text_field (get meta "label") max_label_chars false
  phase ← enum_field tool_phase_values (get meta "phase")
  status ← tool_status phase meta
  code ← exit_code (get meta "exit_code")
  replace ← bool_field (get_or meta "replace" (Json.bool false))
  text ← text_field (get_or content "text" (Json.str "")) max_text_chars true
  ok (
      FactBody.tool (record {
        tool_ref = tool_ref;
        label = label;
        phase = phase;
        status = status;
        exit_code = code;
        replace = replace;
        stream = get meta "stream";
        text = text;
      }))

abbrev request_content : List String
request_content = "detail" ∷ "questions" ∷ []

-- `{**meta, **content}`: a name of the content hides the same name of the meta.
request_opened_fact : Object → Object → Result FactBody
request_opened_fact meta content = do
  require (not (any (contains request_content) (keys meta)))
  require (all (contains request_content) (keys content))
  request ← request_from_object (content ++ meta)
  ok (FactBody.request_opened request)

optional_answers : Object → Result (Option Answers)
optional_answers content =
    if has_key "answers" content
    then (do answers ← answers_field (get content "answers"); ok (some answers))
    else ok none

request_resolved_fact : Object → Object → Result FactBody
unfolding optional_answers
request_resolved_fact meta content = do
  provider_ref ← identity_field (get meta "provider_ref")
  by ← enum_field resolved_values (get meta "by")
  require (all (contains ("answers" ∷ [])) (keys content))
  answers ← optional_answers content
  ok (FactBody.request_resolved provider_ref by answers)

optional_failure : Json → Result (Option Failure)
optional_failure Json.null = ok none
optional_failure value = do failure ← enum_field failure_values value; ok (some failure)

turn_terminal_fact : Object → Object → Result FactBody
unfolding optional_failure
turn_terminal_fact meta content = do
  status ← enum_field turn_status_values (get meta "status")
  failure ← optional_failure (get meta "failure")
  reusable ← bool_field (get_or meta "reusable" (Json.bool true))
  turn_ref ← optional_identity meta "turn_ref"
  message ← text_field (get_or content "message" (Json.str "")) max_summary_chars true
  ok (
      FactBody.turn_terminal
        (record { status = status; failure = failure; reusable = reusable; message = message }))

status_fact : Object → Object → Result FactBody
status_fact meta content = do
  attention ← bool_field (get meta "attention")
  no_content content
  ok (FactBody.status attention)

catalog_fact : Object → Object → Result FactBody
catalog_fact meta content = do
  catalog ← object_field (get content "catalog")
  require (leb (count (dumps plain_ascii (object catalog))) max_catalog_bytes)
  ok (FactBody.catalog catalog)

capabilities_fact : Object → Object → Result FactBody
capabilities_fact meta content = do
  matrix ← capabilities_from_dict (get meta "capabilities")
  no_content content
  ok (FactBody.capabilities matrix)

session_ended_fact : Object → Object → Result FactBody
session_ended_fact meta content = do
  reason ← text_field (get_or meta "reason" (Json.str "ended")) max_label_chars false
  no_content content
  ok FactBody.session_ended

-- `_FACT_VALIDATORS[kind](meta, content)`
unfoldable pub fact_body : FactKind → Object → Object → Result FactBody
unfolding no_content turn_started_fact message_fact tool_fact request_opened_fact
    request_resolved_fact turn_terminal_fact status_fact catalog_fact capabilities_fact
    session_ended_fact
fact_body FactKind.ready meta content = do no_content content; ok FactBody.ready
fact_body FactKind.turn_started meta content = turn_started_fact meta content
fact_body FactKind.message meta content = message_fact meta content
fact_body FactKind.tool meta content = tool_fact meta content
fact_body FactKind.request_opened meta content = request_opened_fact meta content
fact_body FactKind.request_resolved meta content = request_resolved_fact meta content
fact_body FactKind.turn_terminal meta content = turn_terminal_fact meta content
fact_body FactKind.status meta content = status_fact meta content
fact_body FactKind.catalog meta content = catalog_fact meta content
fact_body FactKind.capabilities meta content = capabilities_fact meta content
fact_body FactKind.session_ended meta content = session_ended_fact meta content

pub record Fact : Type 0 where
  pub seq : ℕ
  pub body : FactBody

unfoldable pub fact_from_dict : Object → Result Fact
unfolding fact_body
fact_from_dict o = do
  seq ← int_field (get o "seq") 1
  kind ← enum_field fact_values (get o "kind")
  meta ← object_field (get_or o "meta" (object []))
  content ← object_field (get_or o "content" (object []))
  body ← fact_body kind meta content
  ok (record { seq = seq; body = body })

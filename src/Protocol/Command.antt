-- ===== src/Protocol/Command.antt =====
-- `Command` of bridge/deskhelm_protocol/model.py: the client's control envelope.
use mathlib.Core.Bool.{not}
use deskhelm.Prelude.{
  ℕ, String, string_eq, false, List, [], ◌∷◌, ◌++◌, Option, none, some, map, leb, all, contains,
  ◌&&◌,
}
use deskhelm.Dict.{lookup, keys}
use deskhelm.Json.{Json, Object, pos, object, array}
use deskhelm.Json.Dumps.{dumps, compact, sort_keys}
use deskhelm.Protocol.Fields.{
  Result, ok, ◌>>=◌, ◌>>◌, require, get, get_or, object_field, int_field, enum_field, text_field,
  identity_field, has_exactly, max_label_chars, max_text_chars,
}
use deskhelm.Protocol.Session.{SessionKey, key_from_object, key_fields}
use deskhelm.Protocol.Request.{Answers, answers_field, is_empty}

pub data CommandKind : Type 0 where
  focus submit_prompt interrupt approve reject answer configure_session : CommandKind

abbrev pub command_values : List (String × CommandKind)
command_values =
    ("focus", CommandKind.focus)
    ∷ ("submit_prompt", CommandKind.submit_prompt)
    ∷ ("interrupt", CommandKind.interrupt)
    ∷ ("approve", CommandKind.approve)
    ∷ ("reject", CommandKind.reject)
    ∷ ("answer", CommandKind.answer)
    ∷ ("configure_session", CommandKind.configure_session)
    ∷ []

-- The checked payload of each kind. A setting may be missing, `None` or a text.
pub data Action : Type 0 where
  focus interrupt : Action
  submit_prompt : String → Action
  approve reject : String → Action
  answer : String → Answers → Action
  configure_session : Option (Option String) → Option (Option String) → Action

unfoldable pub kind_of : Action → CommandKind
kind_of Action.focus = CommandKind.focus
kind_of Action.interrupt = CommandKind.interrupt
kind_of (Action.submit_prompt text) = CommandKind.submit_prompt
kind_of (Action.approve id) = CommandKind.approve
kind_of (Action.reject id) = CommandKind.reject
kind_of (Action.answer id answers) = CommandKind.answer
kind_of (Action.configure_session model effort) = CommandKind.configure_session

pub record Command : Type 0 where
  pub command_id : String
  pub action : Action
  pub target : SessionKey
  pub issued_by : String
  pub issued_at : ℕ
  pub expires_at : ℕ
  pub idempotency_key : String

empty_payload : Object → Action → Result Action
empty_payload payload action = do require (is_empty payload); ok action

prompt_payload : Object → Result Action
prompt_payload payload = do
  require (has_exactly ("text" ∷ []) payload)
  text ← text_field (get payload "text") max_text_chars false
  ok (Action.submit_prompt text)

decision_payload : Object → (String → Action) → Result Action
decision_payload payload decision = do
  require (has_exactly ("approval_id" ∷ []) payload)
  approval_id ← identity_field (get payload "approval_id")
  ok (decision approval_id)

answer_payload : Object → Result Action
answer_payload payload = do
  require (has_exactly ("approval_id" ∷ "answers" ∷ []) payload)
  approval_id ← identity_field (get payload "approval_id")
  answers ← answers_field (get payload "answers")
  ok (Action.answer approval_id answers)

unfoldable pub setting : Option Json → Result (Option (Option String))
setting none = ok none
setting (some Json.null) = ok (some none)
setting (some value) = do text ← text_field value max_label_chars false; ok (some (some text))

configure_payload : Object → Result Action
unfolding setting
configure_payload payload = do
  require (not (is_empty payload) && all (contains ("model" ∷ "effort" ∷ [])) (keys payload))
  model ← setting (lookup "model" payload)
  effort ← setting (lookup "effort" payload)
  ok (Action.configure_session model effort)

-- `_COMMAND_PAYLOADS[kind](payload)`
unfoldable pub action_from : CommandKind → Object → Result Action
unfolding empty_payload prompt_payload decision_payload answer_payload configure_payload
action_from CommandKind.focus payload = empty_payload payload Action.focus
action_from CommandKind.submit_prompt payload = prompt_payload payload
action_from CommandKind.interrupt payload = empty_payload payload Action.interrupt
action_from CommandKind.approve payload = decision_payload payload Action.approve
action_from CommandKind.reject payload = decision_payload payload Action.reject
action_from CommandKind.answer payload = answer_payload payload
action_from CommandKind.configure_session payload = configure_payload payload

unfoldable pub command_from_dict : Json → Result Command
unfolding action_from
command_from_dict value = do
  o ← object_field value
  kind ← enum_field command_values (get o "kind")
  issued_at ← int_field (get o "issued_at") 1
  expires_at ← int_field (get o "expires_at") 1
  require (not (leb expires_at issued_at))
  payload ← object_field (get_or o "payload" (object []))
  action ← action_from kind payload
  command_id ← identity_field (get o "command_id")
  target ← key_from_object o
  issued_by ← identity_field (get o "issued_by")
  idempotency_key ← identity_field (get o "idempotency_key")
  ok (record {
    command_id = command_id;
    action = action;
    target = target;
    issued_by = issued_by;
    issued_at = issued_at;
    expires_at = expires_at;
    idempotency_key = idempotency_key;
  })

unfoldable pub kind_value : Action → String
kind_value Action.focus = "focus"
kind_value Action.interrupt = "interrupt"
kind_value (Action.submit_prompt text) = "submit_prompt"
kind_value (Action.approve id) = "approve"
kind_value (Action.reject id) = "reject"
kind_value (Action.answer id answers) = "answer"
kind_value (Action.configure_session model effort) = "configure_session"

setting_json : Option String → Json
setting_json none = Json.null
setting_json (some text) = Json.str text

setting_member : String → Option (Option String) → Object
unfolding setting_json
setting_member name none = []
setting_member name (some value) = (name, setting_json value) ∷ []

unfoldable pub answers_json : Answers → Json
answers_json answers = object (map (λ p. (p.0, array (map Json.str p.1))) answers)

unfoldable pub payload_fields : Action → Object
unfolding setting_member answers_json
payload_fields Action.focus = []
payload_fields Action.interrupt = []
payload_fields (Action.submit_prompt text) = ("text", Json.str text) ∷ []
payload_fields (Action.approve id) = ("approval_id", Json.str id) ∷ []
payload_fields (Action.reject id) = ("approval_id", Json.str id) ∷ []
payload_fields (Action.answer id answers) =
    ("approval_id", Json.str id) ∷ ("answers", answers_json answers) ∷ []
payload_fields (Action.configure_session model effort) =
    setting_member "model" model ++ setting_member "effort" effort

unfoldable pub command_fields : Command → Object
unfolding payload_fields kind_value key_fields
command_fields c =
    ("command_id", Json.str c.command_id)
      ∷ ("kind", Json.str (kind_value c.action))
      ∷ key_fields c.target
    ++ (("issued_by", Json.str c.issued_by)
        ∷ ("issued_at", Json.int (pos c.issued_at))
        ∷ ("expires_at", Json.int (pos c.expires_at))
        ∷ ("idempotency_key", Json.str c.idempotency_key)
        ∷ ("payload", object (payload_fields c.action))
        ∷ [])

-- `json.dumps(self.to_dict(), sort_keys=True, separators=(",", ":"))`
unfoldable pub canonical : Command → String
unfolding command_fields dumps sort_keys
canonical c = dumps compact (sort_keys (object (command_fields c)))

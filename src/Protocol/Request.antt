-- ===== src/Protocol/Request.antt =====
-- `OpenRequest`, `questions_field` and `answers_field` of bridge/deskhelm_protocol/model.py.
use mathlib.Core.Bool.{not}
use deskhelm.Prelude.{
  ℕ, ◌*◌, String, string_eq, Bool, true, false, ◌&&◌, ◌||◌, List, [], ◌∷◌, leb, length, contains,
}
use deskhelm.Dict.{Dict}
use deskhelm.Json.{Json, Object, array}
use deskhelm.Protocol.Fields.{
  Result, ok, ◌>>=◌, ◌>>◌, require, get, get_or, object_field, int_field, bool_field, list_field,
  enum_field, text_field, identity_field, check_all, max_label_chars, max_summary_chars,
}

abbrev pub max_open_requests : ℕ
max_open_requests = 16

abbrev pub max_questions : ℕ
max_questions = 8

abbrev pub max_options : ℕ
max_options = 16

abbrev pub max_question_chars : ℕ
max_question_chars = 1024

abbrev pub max_option_chars : ℕ
max_option_chars = 512

abbrev pub max_detail_chars : ℕ
max_detail_chars = 8 * 1024

abbrev pub max_answer_chars : ℕ
max_answer_chars = 4 * 1024

pub data RequestKind : Type 0 where
  approval input : RequestKind

abbrev pub request_values : List (String × RequestKind)
request_values = ("approval", RequestKind.approval) ∷ ("input", RequestKind.input) ∷ []

pub record Choice : Type 0 where
  pub label : String
  pub description : String

pub record Question : Type 0 where
  pub id : String
  pub header : String
  pub title : String
  pub options : List Choice
  pub other : Bool
  pub secret : Bool

pub record OpenRequest : Type 0 where
  pub provider_ref : String
  pub kind : RequestKind
  pub summary : String
  pub expires_at : ℕ
  pub answerable : Bool
  pub detail : String
  pub blocking : Bool
  pub questions : List Question

unfoldable pub option_field : Json → Result Choice
option_field value = do
  o ← object_field value
  label ← text_field (get o "label") max_option_chars false
  description ← text_field (get_or o "description" (Json.str "")) max_option_chars true
  ok (record { label = label; description = description })

abbrev pub is_empty {ℓ} : {A : Type ℓ} → List A → Bool
is_empty [] = true
is_empty (x ∷ xs) = false

unfoldable pub question_field : Json → List String → Result Question
unfolding option_field
question_field value ids = do
  item ← object_field value
  id ← identity_field (get item "id")
  require (not (contains ids id))
  raw_options ← list_field (get_or item "options" (array []))
  require (leb (length raw_options) max_options)
  options ← check_all option_field raw_options
  other ← bool_field (get_or item "other" (Json.bool (is_empty options)))
  require (not (is_empty options && not other))
  header ← text_field (get_or item "header" (Json.str "")) max_label_chars true
  title ← text_field (get item "title") max_question_chars false
  secret ← bool_field (get_or item "secret" (Json.bool false))
  ok (record {
    id = id;
    header = header;
    title = title;
    options = options;
    other = other;
    secret = secret;
  })

-- The loop over the questions; `ids` are those of the earlier ones.
unfoldable pub question_list : List Json → List String → Result (List Question)
question_list [] ids = ok []
question_list (value ∷ rest) ids = do
  q ← question_field value ids
  qs ← question_list rest (q.id ∷ ids)
  ok (q ∷ qs)

unfoldable pub questions_field : Json → Result (List Question)
unfolding question_list
questions_field value = do
  raw ← list_field value
  require (leb (length raw) max_questions)
  question_list raw []

-- `cls(...)` on an object; what follows the check of the questions.
unfoldable pub request_from_object : Object → Result OpenRequest
unfolding questions_field
request_from_object o = do
  kind ← enum_field request_values (get o "kind")
  questions ← questions_field (get_or o "questions" (array []))
  require (
      is_empty questions || (elim kind [ RequestKind.input ↦ true | RequestKind.approval ↦ false ]))
  provider_ref ← identity_field (get o "provider_ref")
  summary ← text_field (get o "summary") max_summary_chars false
  expires_at ← int_field (get o "expires_at") 1
  answerable ← bool_field (get o "answerable")
  detail ← text_field (get_or o "detail" (Json.str "")) max_detail_chars true
  blocking ← bool_field (get_or o "blocking" (Json.bool true))
  ok (record {
    provider_ref = provider_ref;
    kind = kind;
    summary = summary;
    expires_at = expires_at;
    answerable = answerable;
    detail = detail;
    blocking = blocking;
    questions = questions;
  })

unfoldable pub request_from_dict : Json → Result OpenRequest
unfolding request_from_object
request_from_dict value = do o ← object_field value; request_from_object o

abbrev pub Answers : Type 0
Answers = Dict String (List String)

unfoldable pub answer_text : Json → Result String
answer_text value = text_field value max_answer_chars false

unfoldable pub answer_entry : String × Json → Result (String × List String)
unfolding answer_text
answer_entry (name, value) = do
  question_id ← identity_field (Json.str name)
  raw ← list_field value
  require (leb 1 (length raw) && leb (length raw) max_options)
  texts ← check_all answer_text raw
  ok (question_id, texts)

unfoldable pub answers_field : Json → Result Answers
unfolding answer_entry
answers_field value = do
  o ← object_field value
  require (not (is_empty o) && leb (length o) max_questions)
  check_all answer_entry o

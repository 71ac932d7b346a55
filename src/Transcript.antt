-- ===== src/Transcript.antt =====
-- The items that bridge/deskhelm_client/transcript.py shows of one session, and the patches that it
-- sends. An item is a dict in the source: the fields that all items have stand in `Item`, those of
-- each type in its body, and the field `type` is the body's name.
pub mod Texts
pub mod Storage
pub mod Kinds
pub mod Requests
pub mod Fold
pub mod Surface
pub mod Tidy
pub mod Tells
use Prim.Native.String.{count}
use deskhelm.Prelude.{ℕ, ◌+◌, ◌*◌, String, Bool, List, Option, map, ◌∷◌, []}
use deskhelm.Dict.{Dict}
use deskhelm.Json.{ℤ, Json, array, object}
use deskhelm.Json.Dumps.{dumps, plain}

abbrev pub max_items_default : ℕ
max_items_default = 200

abbrev pub max_chars_default : ℕ
max_chars_default = 512 * 1024

abbrev pub max_message_chars : ℕ
max_message_chars = 64 * 1024

abbrev pub max_title_chars : ℕ
max_title_chars = 2 * 1024

abbrev pub max_output_chars : ℕ
max_output_chars = 32 * 1024

abbrev pub max_item_summary : ℕ
max_item_summary = 512

abbrev pub max_item_detail : ℕ
max_item_detail = 8 * 1024

abbrev pub max_item_questions : ℕ
max_item_questions = 8

abbrev pub max_item_options : ℕ
max_item_options = 16

abbrev pub max_item_answer : ℕ
max_item_answer = 4 * 1024

abbrev pub max_preview_chars : ℕ
max_preview_chars = 160

pub record Message : Type 0 where
  pub role : String
  pub text : String
  pub streaming : Bool

pub record Tool : Type 0 where
  pub kind : String
  pub title : String
  pub output : String
  pub truncated : Bool
  pub status : String
  pub exit_code : Option ℤ
  pub stderr : Bool

pub record Approval : Type 0 where
  pub approval_id : String
  pub summary : String
  pub detail : String
  pub expires_at : ℤ
  pub resolution : String
  pub decision : String
  pub uncertain : Bool

pub record Choice : Type 0 where
  pub label : String
  pub description : String

pub record ShownQuestion : Type 0 where
  pub id : String
  pub header : String
  pub title : String
  pub options : List Choice
  pub other : Bool
  pub secret : Bool

pub record Input : Type 0 where
  pub approval_id : String
  pub prompt : String
  pub detail : String
  pub questions : List ShownQuestion
  pub expires_at : ℤ
  pub answerable : Bool
  pub blocking : Bool
  pub resolution : String
  pub answers : Dict String (List String)
  pub uncertain : Bool

pub record Turn : Type 0 where
  pub status : String
  pub code : String
  pub message : String

pub data Body : Type 0 where
  message : Message → Body
  tool : Tool → Body
  approval : Approval → Body
  input : Input → Body
  turn : Turn → Body

pub record Item : Type 0 where
  pub id : String
  pub seq : ℕ
  pub at : ℤ
  pub body : Body

pub data Field : Type 0 where
  text output : Field

-- `append` has the number of characters that go first; 0 stands for a patch without "trim".
pub data Patch : Type 0 where
  upsert : Item → Patch
  append : String → Field → String → ℕ → Patch
  remove : String → Patch

choice_json : Choice → Json
choice_json c = object (("label", Json.str c.label) ∷ ("description", Json.str c.description) ∷ [])

question_json : ShownQuestion → Json
unfolding choice_json
question_json q = object (
    ("id", Json.str q.id)
    ∷ ("header", Json.str q.header)
    ∷ ("title", Json.str q.title)
    ∷ ("options", array (map choice_json q.options))
    ∷ ("other", Json.bool q.other)
    ∷ ("secret", Json.bool q.secret)
    ∷ [])

answers_json : Dict String (List String) → Json
answers_json answers = object (map (λ p. (p.0, array (map Json.str p.1))) answers)

-- The characters of the texts of a body and of its type; a list and a dict count as their JSON.
body_chars : Body → ℕ
unfolding question_json answers_json
body_chars (Body.message m) = count "message" + count m.role + count m.text
body_chars (Body.tool t) =
    count "tool" + count t.kind + count t.title + count t.output + count t.status
body_chars (Body.approval a) =
    count "approval"
    + count a.approval_id
    + count a.summary
    + count a.detail
    + count a.resolution
    + count a.decision
body_chars (Body.input i) =
    count "input"
    + count i.approval_id
    + count i.prompt
    + count i.detail
    + count (dumps plain (array (map question_json i.questions)))
    + count i.resolution
    + count (dumps plain (answers_json i.answers))
body_chars (Body.turn t) = count "turn" + count t.status + count t.code + count t.message

-- The size that `_account` computes.
unfoldable pub item_size : Item → ℕ
unfolding body_chars
item_size item = 64 + (count item.id + body_chars item.body)

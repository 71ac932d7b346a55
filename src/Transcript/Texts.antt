-- ===== src/Transcript/Texts.antt =====
-- How bridge/deskhelm_client/transcript.py reads an event: bounded texts, and nothing where a value
-- has another type.
use Prim.Native.String.{count}
use deskhelm.Prelude.{
  ℕ, zero, suc, ◌-◌, ◌*◌, String, string_eq, Bool, true, false, ◌||◌, List, [], ◌∷◌, length, take,
  eqb, ◌==◌, if◌then◌else◌,
}
use deskhelm.Dict.{Dict, insert}
use deskhelm.Json.{ℤ, Json, Object, pos, items, members}
use deskhelm.Protocol.Fields.{strip, get}
use deskhelm.Voice.Notices.{take_chars, split_words, join_words}
use deskhelm.Transcript.{
  Choice, ShownQuestion, max_item_summary, max_item_detail, max_item_questions, max_item_options,
  max_item_answer, max_preview_chars,
}

-- text[n:]
unfoldable pub drop_chars : ℕ → String → String
drop_chars zero s = s
drop_chars (suc n) String.[] = ""
drop_chars (suc n) (String.◌∷◌ c s) = drop_chars n s

-- text[-n:], for n above 0
unfoldable pub last_chars : ℕ → String → String
unfolding drop_chars
last_chars n s = drop_chars (count s - n) s

-- a or b
unfoldable pub or_else : String → String → String
or_else a b = if a == "" then b else a

unfoldable pub is_blank : String → Bool
unfolding strip
is_blank s = strip s == ""

-- `_identity`
unfoldable pub identity : Json → String
unfolding is_blank take_chars
identity (Json.str s) = if is_blank s then "" else take_chars 256 s
identity _ = ""

-- `_reference`
unfoldable pub reference : Object → String
unfolding or_else identity get
reference event =
    or_else (or_else (identity (get event "correlation_id")) (identity (get event "event_id")))
      "unknown"

-- `_text`
unfoldable pub text_of : Json → String
text_of (Json.str s) = s
text_of _ = ""

-- value is True
unfoldable pub is_true : Json → Bool
is_true (Json.bool b) = b
is_true _ = false

-- value is not False
unfoldable pub not_false : Json → Bool
not_false (Json.bool b) = b
not_false _ = true

-- An integer that is no Boolean, or else 0.
unfoldable pub int_or_zero : Json → ℤ
int_or_zero (Json.int z) = z
int_or_zero _ = pos 0

-- A list, or else no items.
unfoldable pub list_of : Json → List Json
unfolding items
list_of (Json.arr xs) = items xs
list_of _ = []

unfoldable pub bounded : Object → String → ℕ → String
unfolding take_chars text_of get
bounded o name limit = take_chars limit (text_of (get o name))

choice_of : Object → Choice
unfolding bounded
choice_of option = record {
  label = bounded option "label" max_item_summary;
  description = bounded option "description" max_item_summary;
}

choices : List Json → List Choice
unfolding is_blank text_of choice_of members get
choices [] = []
choices (Json.obj ms ∷ rest) =
    let option = members ms in
    let more = choices rest in
    if is_blank (text_of (get option "label")) then more else choice_of option ∷ more
choices (_ ∷ rest) = choices rest

shown_question : Object → ShownQuestion
unfolding identity bounded choices list_of is_true get
shown_question q =
    let options = choices (take max_item_options (list_of (get q "options"))) in
    record {
      id = identity (get q "id");
      header = bounded q "header" max_item_summary;
      title = bounded q "title" max_item_detail;
      options = options;
      other = is_true (get q "other") || eqb (length options) 0;
      secret = is_true (get q "secret");
    }

shown_list : List Json → List ShownQuestion
unfolding shown_question identity members get
shown_list [] = []
shown_list (Json.obj ms ∷ rest) =
    let more = shown_list rest in
    if identity (get (members ms) "id") == "" then more else shown_question (members ms) ∷ more
shown_list (_ ∷ rest) = shown_list rest

-- `_questions`
unfoldable pub shown_questions : Json → List ShownQuestion
unfolding shown_list list_of
shown_questions value = shown_list (take max_item_questions (list_of value))

answer_texts : List Json → List String
unfolding take_chars
answer_texts [] = []
answer_texts (Json.str s ∷ rest) = take_chars max_item_answer s ∷ answer_texts rest
answer_texts (_ ∷ rest) = answer_texts rest

-- The comprehension of `_answers`: a key that comes again keeps its place and takes the new value.
answer_dict : Object → Dict String (List String) → Dict String (List String)
unfolding identity answer_texts insert items
answer_dict [] acc = acc
answer_dict ((key, Json.arr xs) ∷ rest) acc =
    let id = identity (Json.str key) in
    let kept = answer_dict rest (insert id (answer_texts (take max_item_options (items xs))) acc) in
    let skipped = answer_dict rest acc in if id == "" then skipped else kept
answer_dict (_ ∷ rest) acc = answer_dict rest acc

-- `_answers`
unfoldable pub shown_answers : Json → Dict String (List String)
unfolding answer_dict members
shown_answers (Json.obj ms) = answer_dict (take max_item_questions (members ms)) []
shown_answers _ = []

-- `_one_line`
unfoldable pub one_line : String → String
unfolding take_chars split_words join_words
one_line text =
    take_chars max_preview_chars
      (join_words (split_words "" (take_chars (8 * max_preview_chars) text)))

-- ===== src/Protocol/Answering.antt =====
-- The answers to a vendor's questions: `answers_field` of bridge/deskhelm_protocol/model.py.
use deskhelm.Prelude.{
  ℕ, ◌≤◌, ◌≡◌, refl, arith, String, string_eq, true, false, List, [], ◌∷◌, All, map, leb, length,
}
use deskhelm.Json.{Json, Object, array, items-of_items, members-of_members}
use deskhelm.Protocol.Fields.{ok, check_all, list_field, object_field}
use deskhelm.Protocol.Request.{
  Answers, answer_text, answer_entry, answers_field, is_empty, max_answer_chars, max_options,
  max_questions,
}
use deskhelm.Protocol.Texts.{IsText, IsIdentity, text_field-IsText, identity_field-IsIdentity}
use deskhelm.Protocol.Command.{answers_json}

-- The answers to one question.
pub record IsReply (p : String × List String) : Type 0 where
  pub question : IsIdentity p.0
  pub some_text : 1 ≤ length p.1
  pub few : length p.1 ≤ max_options
  pub texts : All (IsText max_answer_chars) p.1

pub record IsAnswers (answers : Answers) : Type 0 where
  pub some_answer : 1 ≤ length answers
  pub few : length answers ≤ max_questions
  pub replies : All IsReply answers

check_all-texts :
    (texts : List String)
    → All (IsText max_answer_chars) texts
    → check_all answer_text (map Json.str texts) ≡ ok texts
unfolding check_all answer_text
check_all-texts [] h = refl
check_all-texts (s ∷ texts) h =
    rw (text_field-IsText max_answer_chars s h.0, check_all-texts texts h.1) refl

length-map_str : (texts : List String) → length (map Json.str texts) ≡ length texts
length-map_str [] = refl
length-map_str (s ∷ texts) = omega (arith, length-map_str texts)

le→leb : (m n : ℕ) → m ≤ n → leb m n ≡ true
le→leb m n h = ground arith

answer_entry-IsReply :
    (p : String × List String) → IsReply p → answer_entry (p.0, array (map Json.str p.1)) ≡ ok p
unfolding answer_entry list_field
answer_entry-IsReply p h =
    rw
      (
        identity_field-IsIdentity p.0 h.question,
        items-of_items (map Json.str p.1),
        length-map_str p.1,
        le→leb 1 (length p.1) h.some_text,
        le→leb (length p.1) max_options h.few,
        check_all-texts p.1 h.texts,
      )
      refl

-- A dict of answers as JSON holds it.
abbrev entries : Answers → Object
entries answers = map (λ p. (p.0, array (map Json.str p.1))) answers

check_all-entries :
    (answers : Answers)
    → All IsReply answers
    → check_all answer_entry (entries answers) ≡ ok answers
unfolding check_all
check_all-entries [] h = refl
check_all-entries (p ∷ answers) h =
    rw (answer_entry-IsReply p h.0, check_all-entries answers h.1) refl

length-entries : (answers : Answers) → length (entries answers) ≡ length answers
length-entries [] = refl
length-entries (p ∷ answers) = omega (arith, length-entries answers)

not_empty : (answers : Answers) → 1 ≤ length answers → is_empty (entries answers) ≡ false
not_empty [] h = ground arith
not_empty (p ∷ answers) h = refl

pub answers_field-answers_json :
    (answers : Answers) → IsAnswers answers → answers_field (answers_json answers) ≡ ok answers
unfolding answers_field answers_json object_field
answers_field-answers_json answers h =
    rw
      (
        members-of_members (entries answers),
        not_empty answers h.some_answer,
        length-entries answers,
        le→leb (length answers) max_questions h.few,
      )
      (check_all-entries answers h.replies)

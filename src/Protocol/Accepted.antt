-- ===== src/Protocol/Accepted.antt =====
-- What a check of bridge/deskhelm_protocol/model.py leaves when it accepts: chains of checks, keys and
-- answers.
use mathlib.Core.Bool.{not}
use deskhelm.Prelude.{
  ℕ, ◌≤◌, ◌≡◌, refl, arith, sym, subst, String, string_eq, Bool, true, false, List, [], ◌∷◌, All,
  leb, length, ◌&&◌,
}
use deskhelm.Json.{Json, Object}
use deskhelm.Protocol.Fields.{
  Result, ok, violation, ◌>>=◌, ◌>>◌, require, identity_field, text_field, object_field, check_all,
  list_field,
}
use deskhelm.Protocol.Texts.{IsText, IsIdentity, text_field-ok, identity_field-ok}
use deskhelm.Protocol.Answering.{IsReply, IsAnswers}
use deskhelm.Protocol.Session.{SessionKey, key_from_object}
use deskhelm.Protocol.Request.{
  Answers, answer_text, answer_entry, answers_field, is_empty, max_options, max_questions,
  max_answer_chars,
}
use deskhelm.Protocol.Roundtrip.{IsKey}

pub bind-ok {ℓ κ} :
    {A : Type ℓ} {B : Type κ} (m : Result A) (f : A → Result B) (b : B)
    → (m >>= f) ≡ ok b
    → (a : A) × (m ≡ ok a) × (f a ≡ ok b)
bind-ok (ok a) f b h = (a, refl, h)
bind-ok violation f b h = cc

pub require-ok {ℓ} :
    {B : Type ℓ} (test : Bool) (m : Result B) (b : B)
    → (require test >> m) ≡ ok b
    → (test ≡ true) × (m ≡ ok b)
require-ok true m b h = (refl, h)
require-ok false m b h = cc

pub ok-injective {ℓ} : {A : Type ℓ} (a b : A) → ok a ≡ ok b → a ≡ b
ok-injective a b h = cc

pub identity : (v : Json) (t : String) → identity_field v ≡ ok t → IsIdentity t
identity v t h = (identity_field-ok v t h).1

pub text : (v : Json) (limit : ℕ) (t : String) → text_field v limit false ≡ ok t → IsText limit t
unfolding text_field
text (Json.str s) limit t h = let (same, is_text) = text_field-ok limit s t h in is_text
text v limit t h = cc

pub key_from_object-IsKey : (o : Object) (key : SessionKey) → key_from_object o ≡ ok key → IsKey key
unfolding key_from_object
key_from_object-IsKey o key h =
    let (agent, a, h1) = bind-ok _ _ key h in
    let (session, s, h2) = bind-ok _ _ key h1 in
    let (project, p, h3) = bind-ok _ _ key h2 in
    subst IsKey (ok-injective _ key h3) (record {
      agent = identity _ agent a;
      session = identity _ session s;
      project = identity _ project p;
    })

check_all-All {ℓ κ} :
    {A : Type 0} {B : Type ℓ} (P : B → Type κ) (check : A → Result B)
    → ((a : A) (b : B) → check a ≡ ok b → P b)
    → (xs : List A) (ys : List B) → check_all check xs ≡ ok ys
    → All P ys
unfolding check_all
check_all-All P check each [] ys h = subst (All P) (ok-injective [] ys h) tt
check_all-All P check each (x ∷ xs) ys h =
    let (y, first, h1) = bind-ok (check x) _ ys h in
    let (rest, others, h2) = bind-ok (check_all check xs) _ ys h1 in
    subst (All P) {x = y ∷ rest} (ok-injective (y ∷ rest) ys h2)
      (each x y first, check_all-All P check each xs rest others)

length-check_all {ℓ} :
    {A : Type 0} {B : Type ℓ} (check : A → Result B) (xs : List A) (ys : List B)
    → check_all check xs ≡ ok ys
    → length ys ≡ length xs
unfolding check_all
length-check_all check [] ys h = rw (sym (ok-injective [] ys h)) refl
length-check_all check (x ∷ xs) ys h =
    let (y, first, h1) = bind-ok (check x) _ ys h in
    let (rest, others, h2) = bind-ok (check_all check xs) _ ys h1 in
    rw (sym (ok-injective (y ∷ rest) ys h2)) (omega (arith, length-check_all check xs rest others))

within-ok : (m n high : ℕ) → (leb m n && leb n high) ≡ true → (m ≤ n) × (n ≤ high)
within-ok m n high h = ground arith

answer_entry-ok : (p : String × Json) (q : String × List String) → answer_entry p ≡ ok q → IsReply q
unfolding answer_entry
answer_entry-ok (name, value) q h =
    let (question, i, h1) = bind-ok (identity_field (Json.str name)) _ q h in
    let (raw, l, h2) = bind-ok (list_field value) _ q h1 in
    let (sized, h3) = require-ok _ _ q h2 in
    let (texts, t, h4) = bind-ok (check_all answer_text raw) _ q h3 in
    let (low, high) = within-ok 1 (length raw) max_options sized in
    let same = length-check_all answer_text raw texts t in
    subst IsReply (ok-injective _ q h4) (record {
      question = identity _ question i;
      some_text = omega (arith, same, low);
      few = omega (arith, same, high);
      texts = check_all-All _ answer_text (λ v s h. text v max_answer_chars s h) raw texts t;
    })

sized_entries :
    (o : Object)
    → (not (is_empty o) && leb (length o) max_questions) ≡ true
    → (1 ≤ length o) × (length o ≤ max_questions)
sized_entries [] h = cc
sized_entries (p ∷ o) h = ground arith

pub answers_field-ok :
    (v : Json) (answers : Answers) → answers_field v ≡ ok answers → IsAnswers answers
unfolding answers_field
answers_field-ok v answers h =
    let (o, e, h1) = bind-ok (object_field v) _ answers h in
    let (sized, h2) = require-ok _ _ answers h1 in
    let (low, high) = sized_entries o sized in
    let same = length-check_all answer_entry o answers h2 in
    record {
      some_answer = omega (arith, same, low);
      few = omega (arith, same, high);
      replies = check_all-All IsReply answer_entry answer_entry-ok o answers h2;
    }

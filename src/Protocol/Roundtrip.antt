-- ===== src/Protocol/Roundtrip.antt =====
-- What `to_dict` of bridge/deskhelm_protocol/model.py writes, `from_dict` reads.
use deskhelm.Prelude.{
  ℕ, ◌≤◌, ◌<◌, ◌≡◌, ◌≢◌, refl, arith, String, string_eq, false, Option, none, some, leb, ◌⊎◌,
}
use deskhelm.Json.{Json, Object, object, pos, members-of_members}
use deskhelm.Protocol.Fields.{
  ok, get, text_field, int_field, object_field, max_text_chars, max_label_chars, enum_field, get_or,
  has_exactly,
}
use deskhelm.Protocol.Texts.{IsText, IsIdentity, text_field-IsText, identity_field-IsIdentity}
use deskhelm.Protocol.Answering.{IsAnswers, answers_field-answers_json}
use deskhelm.Protocol.Session.{SessionKey, key_fields, key_from_object, key_from_dict}
use deskhelm.Protocol.Command.{
  Action, Command, action_from, kind_of, kind_value, payload_fields, command_fields,
  command_from_dict, command_values,
}

pub record IsKey (key : SessionKey) : Type 0 where
  pub agent : IsIdentity key.agent_id
  pub session : IsIdentity key.session_id
  pub project : IsIdentity key.project_id

key_from_object-fields :
    (o : Object) (key : SessionKey)
    → get o "agent_id" ≡ Json.str key.agent_id
    → get o "session_id" ≡ Json.str key.session_id
    → get o "project_id" ≡ Json.str key.project_id
    → IsKey key
    → key_from_object o ≡ ok key
unfolding key_from_object
key_from_object-fields o key a s p h =
    rw
      (
        a,
        s,
        p,
        identity_field-IsIdentity key.agent_id h.agent,
        identity_field-IsIdentity key.session_id h.session,
        identity_field-IsIdentity key.project_id h.project,
      )
      refl

-- `SessionKey.from_dict` reads back what `SessionKey.to_dict` writes, for a key of identities.
pub key_from_dict-key_fields :
    (key : SessionKey) → IsKey key → key_from_dict (object (key_fields key)) ≡ ok key
unfolding key_from_dict key_fields object_field get
key_from_dict-key_fields key h =
    rw (members-of_members (key_fields key))
      (key_from_object-fields (key_fields key) key refl refl refl h)

abbrev pub IsSetting : Option (Option String) → Type 0
IsSetting (some (some s)) = IsText max_label_chars s
IsSetting _ = Unit

abbrev pub IsAction : Action → Type 0
IsAction Action.focus = Unit
IsAction Action.interrupt = Unit
IsAction (Action.submit_prompt text) = IsText max_text_chars text
IsAction (Action.approve id) = IsIdentity id
IsAction (Action.reject id) = IsIdentity id
IsAction (Action.answer id answers) = IsIdentity id × IsAnswers answers
IsAction (Action.configure_session model effort) =
    ((model ≢ none) ⊎ (effort ≢ none)) × (IsSetting model × IsSetting effort)

pub record IsCommand (c : Command) : Type 0 where
  pub id : IsIdentity c.command_id
  pub action : IsAction c.action
  pub target : IsKey c.target
  pub issuer : IsIdentity c.issued_by
  pub issued : 1 ≤ c.issued_at
  pub lasts : c.issued_at < c.expires_at
  pub scope : IsIdentity c.idempotency_key

label :
    (s : String) → IsText max_label_chars s → text_field (Json.str s) max_label_chars false ≡ ok s
label = text_field-IsText max_label_chars

action_from-payload_fields :
    (action : Action)
    → IsAction action
    → action_from (kind_of action) (payload_fields action) ≡ ok action
unfolding action_from payload_fields kind_of get has_exactly
action_from-payload_fields Action.focus h = refl
action_from-payload_fields Action.interrupt h = refl
action_from-payload_fields (Action.submit_prompt text) h =
    rw (text_field-IsText max_text_chars text h) refl
action_from-payload_fields (Action.approve id) h = rw (identity_field-IsIdentity id h) refl
action_from-payload_fields (Action.reject id) h = rw (identity_field-IsIdentity id h) refl
action_from-payload_fields (Action.answer id answers) h =
    rw (identity_field-IsIdentity id h.0, answers_field-answers_json answers h.1) refl
action_from-payload_fields (Action.configure_session none none) h = ground arith
action_from-payload_fields (Action.configure_session none (some none)) h = refl
action_from-payload_fields (Action.configure_session none (some (some effort))) h =
    rw (label effort h.1.1) refl
action_from-payload_fields (Action.configure_session (some none) none) h = refl
action_from-payload_fields (Action.configure_session (some none) (some none)) h = refl
action_from-payload_fields (Action.configure_session (some none) (some (some effort))) h =
    rw (label effort h.1.1) refl
action_from-payload_fields (Action.configure_session (some (some model)) none) h =
    rw (label model h.1.0) refl
action_from-payload_fields (Action.configure_session (some (some model)) (some none)) h =
    rw (label model h.1.0) refl
action_from-payload_fields (Action.configure_session (some (some model)) (some (some effort))) h =
    rw (label model h.1.0, label effort h.1.1) refl

enum_field-kind_value :
    (action : Action)
    → enum_field command_values (Json.str (kind_value action)) ≡ ok (kind_of action)
unfolding enum_field kind_value kind_of
enum_field-kind_value Action.focus = refl
enum_field-kind_value Action.interrupt = refl
enum_field-kind_value (Action.submit_prompt text) = refl
enum_field-kind_value (Action.approve id) = refl
enum_field-kind_value (Action.reject id) = refl
enum_field-kind_value (Action.answer id answers) = refl
enum_field-kind_value (Action.configure_session model effort) = refl

int_field-pos : (n minimum : ℕ) → minimum ≤ n → int_field (Json.int (pos n)) minimum ≡ ok n
unfolding int_field
int_field-pos n minimum h = ground arith

not_leb : (m n : ℕ) → n < m → leb m n ≡ false
not_leb m n h = ground arith

-- `Command.from_dict` reads back what `Command.to_dict` writes: for a command whose ids are
-- identities, whose payload its kind admits, and that is issued at 1 or later and expires after that.
pub command_from_dict-command_fields :
    (c : Command) → IsCommand c → command_from_dict (object (command_fields c)) ≡ ok c
unfolding command_from_dict command_fields get get_or object_field key_fields
command_from_dict-command_fields c h =
    rw
      (
        members-of_members (command_fields c),
        command_from_dict,
        enum_field-kind_value c.action,
        int_field-pos c.issued_at 1 h.issued,
        int_field-pos c.expires_at 1 (omega (arith, h.lasts)),
        not_leb c.expires_at c.issued_at h.lasts,
        members-of_members (payload_fields c.action),
        action_from-payload_fields c.action h.action,
        identity_field-IsIdentity c.command_id h.id,
        key_from_object-fields (command_fields c) c.target refl refl refl h.target,
        identity_field-IsIdentity c.issued_by h.issuer,
        identity_field-IsIdentity c.idempotency_key h.scope,
      )
      refl

-- ===== src/Protocol/Session.antt =====
-- `SessionKey` and `RuntimeIdentity` of bridge/deskhelm_protocol/model.py.
use deskhelm.Prelude.{
  String, string_eq, Bool, true, false, ◌&&◌, [], ◌∷◌, Eq, ◌≡◌, ◌↔◌, arith, ◌==◌,
}
use deskhelm.Json.{Json, Object}
use deskhelm.Protocol.Fields.{
  Result, ok, ◌>>=◌, get, object_field, identity_field, text_field, max_label_chars,
}

pub record SessionKey : Type 0 where
  pub agent_id : String
  pub session_id : String
  pub project_id : String

abbrev pub key_beq : SessionKey → SessionKey → Bool
key_beq a b =
    a.agent_id == b.agent_id && a.session_id == b.session_id && a.project_id == b.project_id

pub key_beq_iff : (a b : SessionKey) → (key_beq a b ≡ true) ↔ (a ≡ b)
key_beq_iff a b = (
  λ h. ground (
    arith,
    s.beq_iff a.agent_id b.agent_id,
    s.beq_iff a.session_id b.session_id,
    s.beq_iff a.project_id b.project_id,
  ),
  λ h. ground (
    arith,
    s.beq_iff a.agent_id b.agent_id,
    s.beq_iff a.session_id b.session_id,
    s.beq_iff a.project_id b.project_id,
  ),
)
  where
    s : Eq String
    s = string_eq

instance abbrev pub key_eq : Eq SessionKey
key_eq = record { beq = key_beq; beq_iff = key_beq_iff }

unfoldable pub key_fields : SessionKey → Object
key_fields key =
    ("agent_id", Json.str key.agent_id)
    ∷ ("session_id", Json.str key.session_id)
    ∷ ("project_id", Json.str key.project_id)
    ∷ []

unfoldable pub key_from_object : Object → Result SessionKey
key_from_object o = do
  agent_id ← identity_field (get o "agent_id")
  session_id ← identity_field (get o "session_id")
  project_id ← identity_field (get o "project_id")
  ok (record { agent_id = agent_id; session_id = session_id; project_id = project_id })

unfoldable pub key_from_dict : Json → Result SessionKey
unfolding key_from_object object_field
key_from_dict value = do o ← object_field value; key_from_object o

pub record RuntimeIdentity : Type 0 where
  pub adapter_id : String
  pub adapter_version : String
  pub runtime_name : String
  pub runtime_version : String

unfoldable pub runtime_fields : RuntimeIdentity → Object
runtime_fields r =
    ("adapter_id", Json.str r.adapter_id)
    ∷ ("adapter_version", Json.str r.adapter_version)
    ∷ ("runtime_name", Json.str r.runtime_name)
    ∷ ("runtime_version", Json.str r.runtime_version)
    ∷ []

abbrev label_field : Object → String → Result String
label_field o name = text_field (get o name) max_label_chars false

unfoldable pub runtime_from_dict : Json → Result RuntimeIdentity
runtime_from_dict value = do
  o ← object_field value
  adapter_id ← label_field o "adapter_id"
  adapter_version ← label_field o "adapter_version"
  runtime_name ← label_field o "runtime_name"
  runtime_version ← label_field o "runtime_version"
  ok (record {
    adapter_id = adapter_id;
    adapter_version = adapter_version;
    runtime_name = runtime_name;
    runtime_version = runtime_version;
  })

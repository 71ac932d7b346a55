-- ===== src/Examples/Frames.antt =====
-- Frames that a host and a client send to bridge/deskhelm_core/core.py.
use deskhelm.Prelude.{ℕ, String, true, [], ◌∷◌}
use deskhelm.Json.{Json, Object, pos, object}
use deskhelm.Protocol.Session.{SessionKey, RuntimeIdentity, key_fields, runtime_fields}

abbrev pub codex_key : SessionKey
codex_key = record { agent_id = "codex"; session_id = "s-1"; project_id = "desk" }

abbrev pub codex_runtime : RuntimeIdentity
codex_runtime = record {
  adapter_id = "codex";
  adapter_version = "1";
  runtime_name = "Codex";
  runtime_version = "0.5";
}

abbrev pub text : String → Json
text = Json.str

abbrev pub number : ℕ → Json
number n = Json.int (pos n)

abbrev pub capabilities : Object
capabilities =
    ("version", number 1)
    ∷ ("prompt_while_busy", text "reject")
    ∷ ("interrupt", Json.bool true)
    ∷ ("approvals", text "answerable")
    ∷ ("approval_overflow", text "decline")
    ∷ ("user_input", text "answerable")
    ∷ ("resume", Json.bool true)
    ∷ []

abbrev pub host_hello : Object
host_hello =
    ("type", text "hello")
    ∷ ("protocol_version", number 2)
    ∷ ("role", text "host")
    ∷ ("client_id", text "codex-host")
    ∷ []

abbrev pub client_hello : Object
client_hello =
    ("type", text "hello")
    ∷ ("protocol_version", number 2)
    ∷ ("role", text "client")
    ∷ ("client_id", text "desk")
    ∷ ("tier", text "operator")
    ∷ []

abbrev pub session_open : Object
unfolding key_fields runtime_fields
session_open =
    ("type", text "session_open")
    ∷ ("session", object (key_fields codex_key))
    ∷ ("runtime", object (runtime_fields codex_runtime))
    ∷ ("capabilities", object capabilities)
    ∷ []

abbrev pub approval_opened : Object
approval_opened =
    ("type", text "fact")
    ∷ ("seq", number 1)
    ∷ ("kind", text "request_opened")
    ∷ (
      "meta",
      object (
          ("provider_ref", text "r-1")
          ∷ ("kind", text "approval")
          ∷ ("summary", text "run tests")
          ∷ ("expires_at", number 9000)
          ∷ ("answerable", Json.bool true)
          ∷ ("blocking", Json.bool true)
          ∷ []),
    )
    ∷ []

abbrev pub approve_command : Object
approve_command =
    ("command_id", text "c-1")
    ∷ ("kind", text "approve")
    ∷ ("agent_id", text "codex")
    ∷ ("session_id", text "s-1")
    ∷ ("project_id", text "desk")
    ∷ ("issued_by", text "desk")
    ∷ ("issued_at", number 400)
    ∷ ("expires_at", number 8000)
    ∷ ("idempotency_key", text "k-1")
    ∷ ("payload", object (("approval_id", text "a-i-1") ∷ []))
    ∷ []

abbrev pub command_frame : Object → Object
command_frame command = ("type", text "command") ∷ ("command", object command) ∷ []

abbrev pub effect_accepted : Object
effect_accepted =
    ("type", text "effect_result") ∷ ("effect_id", text "e-i-2") ∷ ("outcome", text "accepted") ∷ []

-- ===== src/Protocol/Capability.antt =====
-- `CapabilityMatrix` of bridge/deskhelm_protocol/model.py. The two sets of tokens are subsets of
-- fixed lists, so a field per token is such a set.
use deskhelm.Prelude.{ℕ, String, string_eq, Bool, List, [], ◌∷◌, all, contains}
use deskhelm.Json.{Json, array}
use deskhelm.Protocol.Fields.{
  Result, ok, violation, ◌>>=◌, ◌>>◌, require, get, get_or, object_field, int_field, bool_field,
  list_field, enum_field, check_all,
}

pub data PromptWhileBusy : Type 0 where
  steer queue reject : PromptWhileBusy

pub data ApprovalSupport : Type 0 where
  answerable notify_only none : ApprovalSupport

pub data ApprovalOverflow : Type 0 where
  decline native_ui : ApprovalOverflow

pub data InputSupport : Type 0 where
  answerable native_ui none : InputSupport

abbrev pub prompt_values : List (String × PromptWhileBusy)
prompt_values =
    ("steer", PromptWhileBusy.steer)
    ∷ ("queue", PromptWhileBusy.queue)
    ∷ ("reject", PromptWhileBusy.reject)
    ∷ []

abbrev pub approval_values : List (String × ApprovalSupport)
approval_values =
    ("answerable", ApprovalSupport.answerable)
    ∷ ("notify_only", ApprovalSupport.notify_only)
    ∷ ("none", ApprovalSupport.none)
    ∷ []

abbrev pub overflow_values : List (String × ApprovalOverflow)
overflow_values =
    ("decline", ApprovalOverflow.decline) ∷ ("native_ui", ApprovalOverflow.native_ui) ∷ []

abbrev pub input_values : List (String × InputSupport)
input_values =
    ("answerable", InputSupport.answerable)
    ∷ ("native_ui", InputSupport.native_ui)
    ∷ ("none", InputSupport.none)
    ∷ []

-- frozenset({"model", "effort"}) and frozenset({"models", "mcp", "skills"})
pub record ConfigureSet : Type 0 where
  pub model : Bool
  pub effort : Bool

pub record CatalogSet : Type 0 where
  pub models : Bool
  pub mcp : Bool
  pub skills : Bool

pub record CapabilityMatrix : Type 0 where
  pub version : ℕ
  pub prompt_while_busy : PromptWhileBusy
  pub interrupt : Bool
  pub approvals : ApprovalSupport
  pub approval_overflow : ApprovalOverflow
  pub user_input : InputSupport
  pub resume : Bool
  pub configure : ConfigureSet
  pub catalog : CatalogSet

token : Json → Result String
token (Json.str s) = ok s
token _ = violation

unfoldable pub token_set : Json → List String → Result (List String)
unfolding token check_all list_field all contains
token_set value allowed = do
  raw ← list_field value
  tokens ← check_all token raw
  require (all (contains allowed) tokens)
  ok tokens

unfoldable pub capabilities_from_dict : Json → Result CapabilityMatrix
unfolding token_set
capabilities_from_dict value = do
  o ← object_field value
  configure ← token_set (get_or o "configure" (array [])) ("model" ∷ "effort" ∷ [])
  catalog ← token_set (get_or o "catalog" (array [])) ("models" ∷ "mcp" ∷ "skills" ∷ [])
  version ← int_field (get o "version") 1
  prompt_while_busy ← enum_field prompt_values (get o "prompt_while_busy")
  interrupt ← bool_field (get o "interrupt")
  approvals ← enum_field approval_values (get o "approvals")
  approval_overflow ← enum_field overflow_values (get o "approval_overflow")
  user_input ← enum_field input_values (get o "user_input")
  resume ← bool_field (get o "resume")
  ok (record {
    version = version;
    prompt_while_busy = prompt_while_busy;
    interrupt = interrupt;
    approvals = approvals;
    approval_overflow = approval_overflow;
    user_input = user_input;
    resume = resume;
    configure = record { model = contains configure "model"; effort = contains configure "effort" };
    catalog = record {
      models = contains catalog "models";
      mcp = contains catalog "mcp";
      skills = contains catalog "skills";
    };
  })

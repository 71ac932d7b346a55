-- ===== src/Voice/Notices.antt =====
-- What `VoiceHost.on_console` of bridge/deskhelm_voice_host/policy.py says of console transitions.
use Prim.Native.String.{◌++◌ as join}
use Prim.Native.Char.{Char, code}
use deskhelm.Prelude.{
  ℕ, zero, suc, String, string_eq, Bool, ◌&&◌, ◌||◌, List, [], ◌∷◌, ◌++◌, Option, none, some, eqb,
  map, ◌==◌, if◌then◌else◌,
}
use deskhelm.Dict.{Dict, lookup}
use deskhelm.Protocol.Fields.{is_space}
use deskhelm.Protocol.Session.{SessionKey, key_eq}
use deskhelm.Protocol.Shapes.{TurnStatus, Failure}
use deskhelm.Core.Frames.{Activity, TurnOutcome, View}
use deskhelm.Core.Views.{outcome_beq}
use deskhelm.Voice.Client.{ConsoleChange}
use deskhelm.Voice.Policy.{Call, target_of}

-- `NOTICES`
pub data Notice : Type 0 where
  approval input completed interrupted failed usage_limit : Notice

unfoldable pub notice_text : String → Notice → String
notice_text agent Notice.approval = join agent " 需要你的确认。"
notice_text agent Notice.input = join agent " 需要你提供信息。"
notice_text agent Notice.completed = join agent " 已完成工作，请查看结果。"
notice_text agent Notice.interrupted = join agent " 已停止当前工作。"
notice_text agent Notice.failed = join agent " 工作未完成，请查看详情。"
notice_text agent Notice.usage_limit = join agent " 的用量已到上限。"

abbrev agent_labels : Dict String String
agent_labels = ("codex", "Codex") ∷ ("claude", "Claude") ∷ ("grok", "Grok") ∷ []

agent_name : String → String
agent_name id = elim (lookup id agent_labels) [ none ↦ "Agent" | some label ↦ label ]

unfoldable pub failure_notice : Option Failure → Notice
failure_notice (some Failure.usage_limit) = Notice.usage_limit
failure_notice _ = Notice.failed

unfoldable pub outcome_notice : TurnOutcome → Notice
unfolding failure_notice
outcome_notice o = elim o.status [
  | TurnStatus.completed ↦ Notice.completed
  | TurnStatus.interrupted ↦ Notice.interrupted
  | TurnStatus.failed ↦ failure_notice o.failure
]

unfoldable pub outcome_notices : Option TurnOutcome → Option TurnOutcome → List Notice
unfolding outcome_notice
outcome_notices before none = []
outcome_notices before (some o) = if outcome_beq before (some o) then [] else outcome_notice o ∷ []

unfoldable pub activity_notices : Activity → Activity → List Notice
activity_notices Activity.waiting_approval Activity.waiting_approval = []
activity_notices before Activity.waiting_approval = Notice.approval ∷ []
activity_notices Activity.waiting_input Activity.waiting_input = []
activity_notices before Activity.waiting_input = Notice.input ∷ []
activity_notices before _ = []

-- `_notices`
unfoldable pub notices : View → View → List Notice
unfolding outcome_notices activity_notices
notices before view =
    outcome_notices before.last_outcome view.last_outcome
    ++ activity_notices before.activity view.activity

flush : String → List String
flush word = if word == "" then [] else word ∷ []

-- `str.split()`; `word` is the word so far.
unfoldable pub split_words : String → String → List String
unfolding is_space flush
split_words word String.[] = flush word
split_words word (String.◌∷◌ c s) =
    let next = split_words "" s in
    let longer = split_words (join word (String.◌∷◌ c "")) s in
    if is_space (code c) then flush word ++ next else longer

unfoldable pub join_words : List String → String
join_words [] = ""
join_words (word ∷ []) = word
join_words (word ∷ more ∷ rest) = join word (join " " (join_words (more ∷ rest)))

-- " ._-"
unfoldable pub is_mark : ℕ → Bool
is_mark n = eqb n 32 || eqb n 46 || eqb n 95 || eqb n 45

unfoldable pub keep_chars : (Char → Bool) → String → String
keep_chars test String.[] = ""
keep_chars test (String.◌∷◌ c s) =
    let rest = keep_chars test s in if test c then String.◌∷◌ c rest else rest

lstrip_marks : String → String
unfolding is_mark
lstrip_marks String.[] = ""
lstrip_marks (String.◌∷◌ c s) =
    let rest = lstrip_marks s in if is_mark (code c) then rest else String.◌∷◌ c s

rstrip_marks : String → String
unfolding is_mark
rstrip_marks String.[] = ""
rstrip_marks (String.◌∷◌ c s) =
    let rest = rstrip_marks s in if is_mark (code c) && rest == "" then "" else String.◌∷◌ c rest

unfoldable pub take_chars : ℕ → String → String
take_chars zero s = ""
take_chars (suc n) String.[] = ""
take_chars (suc n) (String.◌∷◌ c s) = String.◌∷◌ c (take_chars n s)

abbrev pub max_project_name_chars : ℕ
max_project_name_chars = 64

-- The characters of a project's id that are said; `is_alnum` stands for `str.isalnum`.
unfoldable pub plain_name : (Char → Bool) → String → String
unfolding split_words join_words keep_chars lstrip_marks rstrip_marks
plain_name is_alnum project_id =
    let spaced = join_words (split_words "" project_id) in
    rstrip_marks (lstrip_marks (keep_chars (λ c. is_alnum c || is_mark (code c)) spaced))

unfoldable pub or_current : String → String
or_current name = if name == "" then "当前项目" else name

-- The plain label of a project.
unfoldable pub project_name : (Char → Bool) → String → String
unfolding plain_name take_chars or_current
project_name is_alnum project_id =
    or_current (take_chars max_project_name_chars (plain_name is_alnum project_id))

-- `_with_project`
unfoldable pub with_project : (Char → Bool) → String → String → String
unfolding project_name
with_project is_alnum project_id text =
    join "项目 " (join (project_name is_alnum project_id) (join "，" text))

unfoldable pub session_calls : (Char → Bool) → SessionKey → View → View → List Call
unfolding with_project notice_text agent_name notices
session_calls is_alnum key before view =
    map
      (λ notice.
        Call.say (target_of key)
          (with_project is_alnum key.project_id (notice_text (agent_name key.agent_id) notice)))
      (notices before view)

-- The loop of `on_console`. A view that is the very object of before is equal to it, and has no
-- notice.
unfoldable pub transitions : (Char → Bool) → Dict SessionKey View → Dict SessionKey View → List Call
unfolding session_calls
transitions is_alnum previous [] = []
transitions is_alnum previous ((key, view) ∷ rest) =
    (elim (lookup key previous) [
      | none ↦ []
      | some before ↦ session_calls is_alnum key before view
    ])
    ++ transitions is_alnum previous rest

-- `on_console`
unfoldable pub on_console : (Char → Bool) → ConsoleChange → List Call
unfolding transitions
on_console is_alnum change =
    if change.reset then [] else transitions is_alnum change.previous.sessions change.state.sessions

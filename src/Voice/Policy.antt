-- ===== src/Voice/Policy.antt =====
-- `VoiceHost` of bridge/deskhelm_voice_host/policy.py. What it asks of the gateway and of the client
-- is a list of calls; the answers of both are arguments.
use Prim.Native.String.{◌++◌ as join}
use mathlib.Core.Bool.{not}
use deskhelm.Prelude.{
  ℕ, String, string_eq, Bool, true, false, List, [], ◌∷◌, Option, none, some, contains,
  if◌then◌else◌,
}
use deskhelm.Dict.{Dict, lookup}
use deskhelm.Protocol.Fields.{strip}
use deskhelm.Protocol.Session.{SessionKey, key_eq}
use deskhelm.Protocol.Command.{Action}
use deskhelm.Core.Events.{Decision}
use deskhelm.Core.Frames.{Lifecycle, TicketView, View}
use deskhelm.Voice.Client.{ConsoleState, Reply, session, approvals, result_text}

pub record VoiceTarget : Type 0 where
  pub agent_id : String
  pub session_id : String
  pub project_id : String

abbrev pub key_of : VoiceTarget → SessionKey
key_of target = record {
  agent_id = target.agent_id;
  session_id = target.session_id;
  project_id = target.project_id;
}

abbrev pub target_of : SessionKey → VoiceTarget
target_of key = record {
  agent_id = key.agent_id;
  session_id = key.session_id;
  project_id = key.project_id;
}

abbrev pub approval_phrases : Dict String Decision
approval_phrases =
    ("批准", Decision.approve)
    ∷ ("确认", Decision.approve)
    ∷ ("同意", Decision.approve)
    ∷ ("允许", Decision.approve)
    ∷ ("可以", Decision.approve)
    ∷ ("拒绝", Decision.reject)
    ∷ ("不同意", Decision.reject)
    ∷ ("不允许", Decision.reject)
    ∷ []

abbrev pub discard_phrases : List String
discard_phrases = "取消" ∷ []

-- `LINES`
pub data Line : Type 0 where
  no_focus discarded no_pending_approval approval_ambiguous : Line

unfoldable pub line_text : Line → String
line_text Line.no_focus = "没有聚焦的会话，请先在页面或面板上选择一个会话。"
line_text Line.discarded = "已取消这句话，没有发送。"
line_text Line.no_pending_approval = "没有等待确认的请求，这句话没有发送。"
line_text Line.approval_ambiguous = "有多个请求等待确认，请在屏幕上逐个处理。"

abbrev pub failure_lines : Dict String String
failure_lines =
    ("voice_input_failed", "语音输入不可用，请检查麦克风后重试。")
    ∷ ("voice_no_transcript", "没有听清，请按住说话键再试一次。")
    ∷ ("voice_asr_timeout", "语音识别超时，可直接输入文字。")
    ∷ ("voice_prompt_failed", "语音指令暂时无法提交，请稍后重试。")
    ∷ []

abbrev pub host_target : VoiceTarget
host_target = record { agent_id = "deskhelm"; session_id = "voice-host"; project_id = "deskhelm" }

-- `say` asks for speech, which the gateway may skip. `command` is sent with its idempotency key.
pub data Call : Type 0 where
  say : VoiceTarget → String → Call
  press_ptt : VoiceTarget → String → Call
  release_ptt : VoiceTarget → String → Call
  command : SessionKey → Action → String → Call

pub record Transcript : Type 0 where
  pub transcript_id : String
  pub normalized_text : String

pub record Capture : Type 0 where
  pub target : VoiceTarget
  pub activation : String

-- What a handler leaves: the capture, what it returns, and its calls.
pub record Pressed : Type 0 where
  pub capture : Option Capture
  pub returned : Bool
  pub calls : List Call

unfoldable pub is_live : View → Bool
is_live view = elim view.lifecycle [ Lifecycle.active ↦ true | _ ↦ false ]

-- The session in focus, if it is active.
unfoldable pub live_focus : ConsoleState → Option SessionKey
unfolding session is_live
live_focus state = elim state.focus [
  | none ↦ none
  | some key ↦ elim (session key state) [
    | none ↦ none
    | some view ↦ if is_live view then some key else none
  ]
]

-- `press`; `activation` is the fresh id, `pressed` whether `press_ptt` returns.
unfoldable pub press : ConsoleState → String → Bool → Option Capture → Pressed
unfolding live_focus line_text
press state activation pressed capture = elim (live_focus state) [
  | none ↦ record {
    capture = capture;
    returned = false;
    calls = Call.say host_target (line_text Line.no_focus) ∷ [];
  }
  | some key ↦ record {
    capture =
        if pressed
        then some (record { target = target_of key; activation = activation })
        else capture;
    returned = pressed;
    calls = Call.press_ptt (target_of key) activation ∷ [];
  }
]

-- `release`; `released` is what `release_ptt` returns.
unfoldable pub release : Bool → Option Capture → Pressed
release released none = record { capture = none; returned = false; calls = [] }
release released (some capture) = record {
  capture = none;
  returned = released;
  calls = Call.release_ptt capture.target capture.activation ∷ [];
}

unfoldable pub decision_action : Decision → String → Action
decision_action Decision.approve id = Action.approve id
decision_action Decision.reject id = Action.reject id

-- A command, and what is said of its result.
unfoldable pub ask : VoiceTarget → Action → String → (Call → Reply) → List Call
unfolding result_text
ask target action key reply =
    let call = Call.command (key_of target) action key in
    let result = reply call in
    call ∷ (if not result.accepted then Call.say target (result_text result.code) ∷ [] else [])

-- An approval phrase, with the approvals that can be answered.
unfoldable pub decide :
    VoiceTarget → Decision → String → List TicketView → (Call → Reply) → List Call
unfolding decision_action ask line_text
decide target decision id [] reply = Call.say target (line_text Line.no_pending_approval) ∷ []
decide target decision id (t ∷ []) reply =
    ask target (decision_action decision t.approval_id) (join "voice-approval:" id) reply
decide target decision id (t ∷ u ∷ ts) reply =
    Call.say target (line_text Line.approval_ambiguous) ∷ []

-- `_transcript`, on the console at the time `now`.
unfoldable pub transcript : ConsoleState → ℕ → (Call → Reply) → VoiceTarget → Transcript → List Call
unfolding decide ask line_text approvals strip
transcript state now reply target heard =
    let phrase = strip heard.normalized_text in
    if contains discard_phrases phrase
    then Call.say target (line_text Line.discarded) ∷ []
    else elim (lookup phrase approval_phrases) [
      | some decision ↦
          decide target decision heard.transcript_id (approvals (key_of target) now state) reply
      | none ↦
          ask target (Action.submit_prompt heard.normalized_text)
            (join "voice-transcript:" heard.transcript_id) reply
    ]

-- `_voice_event` on a failure; the event also goes to the previous sink.
unfoldable pub voice_failure : VoiceTarget → String → List Call
voice_failure target error_code = elim (lookup error_code failure_lines) [
  | none ↦ []
  | some line ↦ Call.say target line ∷ []
]

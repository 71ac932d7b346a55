-- ===== src/Gateway.antt =====
-- The state of `VoiceGateway` in voice/deskhelm_voice/gateway.py, with the models that it passes on
-- (voice/deskhelm_voice/models.py). An `Event` of the threading module is a Boolean that is set; the
-- two threads that work for the gateway are part of the state, by where each of them stands.
pub mod Ptt
pub mod Speech
pub mod Machine
pub mod Invariant
pub mod Turn
pub mod Keeps
pub mod Protocol
pub mod Still
pub mod Follows
pub mod Stopping
pub mod Vad
pub mod Spoken
pub mod Overheard
pub mod Capture
pub mod Contiguous
pub mod Waiting
pub mod Closed
pub mod Ends
use deskhelm.Prelude.{ℕ, String, Bool, true, false, List, [], Option, none, some}
use deskhelm.Voice.Policy.{VoiceTarget, Transcript}

pub data SpeechPriority : Type 0 where
  low normal high : SpeechPriority

pub record SpeechItem : Type 0 where
  pub target : VoiceTarget
  pub text : String
  pub priority : SpeechPriority
  pub interruptible : Bool
  pub speech_id : String

pub data VoicePttState : Type 0 where
  idle capturing transcribing : VoicePttState

pub data VoiceEventKind : Type 0 where
  ptt_started input_speech_started input_speech_ended input_activity_failed : VoiceEventKind
  transcribing transcript_ready ptt_cancelled : VoiceEventKind
  speech_started tts_audio_ready playback_started speech_completed speech_cancelled : VoiceEventKind
  failure : VoiceEventKind

pub record VoiceEvent : Type 0 where
  pub kind : VoiceEventKind
  pub target : VoiceTarget
  pub speech_id : String
  pub error_code : String
  pub audio_frame_index : Option ℕ
  pub transcript : Option Transcript

pub record QueuedSpeech : Type 0 where
  pub sequence : ℕ
  pub item : SpeechItem

-- Where the capture thread stands: with nothing to do, or in `_capture_and_transcribe` for a target.
pub data Worker : Type 0 where
  free : Worker
  captures : VoiceTarget → Worker
  transcribes : VoiceTarget → Worker
  delivers : VoiceTarget → Transcript → Worker

-- Where the playback thread stands: at its condition, with an item, or at its end.
pub data Player : Type 0 where
  waits : Player
  synthesizes : SpeechItem → Player
  plays : SpeechItem → Player
  ended : Player

-- A prompt sink is told from another by a number.
pub record Gateway : Type 0 where
  pub max_speech_items : ℕ
  pub prompt_sink : Option ℕ
  pub ptt_state : VoicePttState
  pub ptt_target : Option VoiceTarget
  pub ptt_activation_id : String
  pub ptt_stop : Option Bool
  pub ptt_cancel : Option Bool
  pub speech_queue : List QueuedSpeech
  pub speech_sequence : ℕ
  pub current_speech : Option SpeechItem
  pub current_speech_cancel : Option Bool
  pub closed : Bool
  pub worker : Worker
  pub player : Player

unfoldable pub new_gateway : ℕ → Gateway
new_gateway max_speech_items = record {
  max_speech_items = max_speech_items;
  prompt_sink = none;
  ptt_state = VoicePttState.idle;
  ptt_target = none;
  ptt_activation_id = "";
  ptt_stop = none;
  ptt_cancel = none;
  speech_queue = [];
  speech_sequence = 0;
  current_speech = none;
  current_speech_cancel = none;
  closed = false;
  worker = Worker.free;
  player = Player.waits;
}

-- What a call does outside: an event for the sink, or a prompt for the registered prompt sink.
pub data Effect : Type 0 where
  emits : VoiceEvent → Effect
  prompts : ℕ → VoiceTarget → Transcript → Effect

-- An event with nothing but its kind and its target.
abbrev pub plain_event : VoiceEventKind → VoiceTarget → VoiceEvent
plain_event kind target = record {
  kind = kind;
  target = target;
  speech_id = "";
  error_code = "";
  audio_frame_index = none;
  transcript = none;
}

abbrev pub failure_event : VoiceTarget → String → VoiceEvent
failure_event target code = record (plain_event VoiceEventKind.failure target) { error_code = code }

-- event is not None and event.is_set()
abbrev pub is_set : Option Bool → Bool
is_set none = false
is_set (some flag) = flag

-- event.set(), where there is one
abbrev pub set_flag : Option Bool → Option Bool
set_flag none = none
set_flag (some flag) = some true

-- ===== src/Gateway/Keeps.antt =====
-- Every step of `VoiceGateway` in voice/deskhelm_voice/gateway.py keeps what holds of it.
pub mod Calls
mod Threads
use deskhelm.Prelude.{
  ℕ, zero, suc, ◌+◌, ◌≤◌, ◌<◌, String, string_eq, option_eq, nat_eq, Bool, true, false, not, ◌||◌,
  ◌&&◌, List, [], ◌∷◌, ◌++◌, Option, none, some, present, length, select, length-append,
  length-select-le, All, All-append, All-select, leb, not_leb→lt, ◌≡◌, ◌⊎◌, inl, inr, refl, sym, ap,
  subst, ◌∙◌, arith, Bool-cases, Option-cases, if-keeps, if-cases, ◌==◌, if◌then◌else◌,
}
use deskhelm.Voice.Policy.{VoiceTarget, Transcript}
use deskhelm.Gateway.{
  Gateway, VoicePttState, Worker, Player, SpeechItem, QueuedSpeech, Effect, new_gateway, set_flag,
  is_set,
}
use deskhelm.Gateway.Ptt.{
  register_prompt_sink, unregister, interrupted, press_ptt, another, release_ptt, cancel_ptt,
  clear_ptt, Trouble, finish_ptt, fail_ptt, Returned, captured, transcribed, delivered, is_idle,
  is_target,
}
use deskhelm.Gateway.Speech.{
  enqueue_speech, stops, stops_current, stop_speaking, pick, take_next, take_speech, Played,
  end_speech, unless_cancelled, spoken, synthesized, playback_started, played,
}
use deskhelm.Gateway.Machine.{
  Call, close, capture_step, playback_step, quiet, loud, answered, step, run_calls,
}
use deskhelm.Gateway.Turn.{All-pick, length-pick, Rising-pick}
use deskhelm.Gateway.Invariant.{
  Active, PttFits, SpeechFits, Rising, QueueFits, ClosedFits, GatewayFits, new_gateway-GatewayFits,
  PttFits-set_flag, PttFits-released, idle-free, SpeechFits-set_flag, ClosedFits-open,
  is_target_self,
}
use deskhelm.Gateway.Keeps.Calls.{
  register-keeps, unregister-keeps, press-keeps, release-keeps, cancel-keeps, close-keeps,
  enqueue-keeps, stop-keeps,
}
use deskhelm.Gateway.Keeps.Threads.{capture_step-keeps, playback_step-keeps}

pub step-keeps : (g : Gateway) → GatewayFits g → (call : Call) → GatewayFits (step call g).0
unfolding step
step-keeps g h (Call.register sink) = register-keeps g h sink
step-keeps g h (Call.unregister_sink sink) = unregister-keeps g h sink
step-keeps g h (Call.press target activation_id) = press-keeps g h target activation_id
step-keeps g h (Call.release target activation_id) = release-keeps g h target activation_id
step-keeps g h Call.cancel = cancel-keeps g h
step-keeps g h (Call.enqueue item) = enqueue-keeps g h item
step-keeps g h (Call.stop target speech_id) = stop-keeps g h target speech_id
step-keeps g h Call.shut = close-keeps g h
step-keeps g h (Call.report target error_code) = h
step-keeps g h (Call.observes seen) = capture_step-keeps g h (Call.observes seen) g.worker refl
step-keeps g h (Call.capture_returns how) =
    capture_step-keeps g h (Call.capture_returns how) g.worker refl
step-keeps g h (Call.asr_returns how) = capture_step-keeps g h (Call.asr_returns how) g.worker refl
step-keeps g h (Call.sink_returns raises) =
    capture_step-keeps g h (Call.sink_returns raises) g.worker refl
step-keeps g h Call.wakes = playback_step-keeps g h Call.wakes g.player refl
step-keeps g h (Call.tts_returns how) = playback_step-keeps g h (Call.tts_returns how) g.player refl
step-keeps g h Call.starts = playback_step-keeps g h Call.starts g.player refl
step-keeps g h (Call.play_returns how) =
    playback_step-keeps g h (Call.play_returns how) g.player refl

pub run_calls-keeps :
    (calls : List Call) (g : Gateway) → GatewayFits g → GatewayFits (run_calls calls g).0
unfolding run_calls
run_calls-keeps [] g h = h
run_calls-keeps (call ∷ calls) g h = run_calls-keeps calls (step call g).0 (step-keeps g h call)

-- After any calls and steps of a new gateway: the state, the target and the flags of the keys agree
-- with where the capture thread stands, there is a current item exactly while the playback thread
-- has one, the queue is within its bound and its sequences rise, and a closed gateway has no queue
-- and no prompt sink.
pub run_calls-GatewayFits :
    (max_speech_items : ℕ) (calls : List Call)
    → GatewayFits (run_calls calls (new_gateway max_speech_items)).0
run_calls-GatewayFits max_speech_items calls =
    run_calls-keeps calls (new_gateway max_speech_items) (new_gateway-GatewayFits max_speech_items)

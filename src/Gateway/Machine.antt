-- ===== src/Gateway/Machine.antt =====
-- A run of `VoiceGateway` in voice/deskhelm_voice/gateway.py: calls from outside and what its two threads
-- do, in any order.
use deskhelm.Prelude.{
  ℕ, String, string_eq, ◌==◌, Bool, true, List, [], ◌∷◌, ◌++◌, Option, none, some, if◌then◌else◌,
}
use deskhelm.Protocol.Fields.{strip}
use deskhelm.Voice.Policy.{VoiceTarget, Transcript}
use deskhelm.Gateway.{Gateway, SpeechItem, Worker, Player, Effect, failure_event, set_flag}
use deskhelm.Gateway.Vad.{Observed, observed}
use deskhelm.Gateway.Ptt.{
  register_prompt_sink, unregister, press_ptt, release_ptt, cancel_ptt, Returned, captured,
  transcribed, delivered,
}
use deskhelm.Gateway.Speech.{
  enqueue_speech, stop_speaking, take_speech, Played, synthesized, playback_started, played,
}

-- `close`; the threads end by themselves.
unfoldable pub close : Gateway → Gateway
close g = if g.closed then g else record g {
  closed = true;
  ptt_cancel = set_flag g.ptt_cancel;
  ptt_stop = set_flag g.ptt_stop;
  current_speech_cancel = set_flag g.current_speech_cancel;
  speech_queue = [];
  prompt_sink = none;
}

pub data Call : Type 0 where
  register : ℕ → Call
  unregister_sink : ℕ → Call
  press : VoiceTarget → String → Call
  release : Option VoiceTarget → String → Call
  cancel : Call
  enqueue : SpeechItem → Call
  stop : VoiceTarget → String → Call
  shut : Call
  report : VoiceTarget → String → Call
  -- The capture thread goes on.
  observes : Observed → Call
  capture_returns : Returned (Unit {0}) → Call
  asr_returns : Returned Transcript → Call
  sink_returns : Bool → Call
  -- The playback thread goes on.
  wakes : Call
  tts_returns : Played → Call
  starts : Call
  play_returns : Played → Call

-- `report_failure`; a blank code is an error.
unfoldable pub report_failure : VoiceTarget → String → List Effect
report_failure target error_code =
    if strip error_code == "" then [] else Effect.emits (failure_event target error_code) ∷ []

-- A call that raises changes nothing.
abbrev pub quiet : Gateway → Option Gateway → Gateway × List Effect
quiet g none = (g, [])
quiet g (some after) = (after, [])

abbrev pub loud : Gateway → Option (Gateway × List Effect) → Gateway × List Effect
loud g none = (g, [])
loud g (some after) = after

abbrev pub answered : Gateway → Option (Gateway × Bool) → Gateway × List Effect
answered g none = (g, [])
answered g (some after) = (after.0, [])

-- A thread goes on only where it stands; anything else is no step.
unfoldable pub capture_step : Call → Worker → Gateway → Gateway × List Effect
unfolding captured transcribed delivered observed
capture_step (Call.observes seen) (Worker.captures target) g = (g, observed target seen)
capture_step (Call.capture_returns how) (Worker.captures target) g = captured how target g
capture_step (Call.asr_returns how) (Worker.transcribes target) g = transcribed how target g
capture_step (Call.sink_returns raises) (Worker.delivers target transcript) g =
    delivered raises target transcript g
capture_step _ _ g = (g, [])

unfoldable pub playback_step : Call → Player → Gateway → Gateway × List Effect
unfolding take_speech synthesized playback_started played
playback_step Call.wakes Player.waits g = take_speech g
playback_step (Call.tts_returns how) (Player.synthesizes item) g = synthesized how item g
playback_step Call.starts (Player.plays item) g = playback_started item g
playback_step (Call.play_returns how) (Player.plays item) g = played how item g
playback_step _ _ g = (g, [])

unfoldable pub step : Call → Gateway → Gateway × List Effect
unfolding register_prompt_sink unregister press_ptt release_ptt cancel_ptt enqueue_speech
    stop_speaking close report_failure capture_step playback_step
step (Call.register sink) g = quiet g (register_prompt_sink sink g)
step (Call.unregister_sink sink) g = (unregister sink g, [])
step (Call.press target activation_id) g = loud g (press_ptt target activation_id g)
step (Call.release target activation_id) g = answered g (release_ptt target activation_id g)
step Call.cancel g = (cancel_ptt g, [])
step (Call.enqueue item) g = quiet g (enqueue_speech item g)
step (Call.stop target speech_id) g = ((stop_speaking target speech_id g).0, [])
step Call.shut g = (close g, [])
step (Call.report target error_code) g = (g, report_failure target error_code)
step (Call.observes seen) g = capture_step (Call.observes seen) g.worker g
step (Call.capture_returns how) g = capture_step (Call.capture_returns how) g.worker g
step (Call.asr_returns how) g = capture_step (Call.asr_returns how) g.worker g
step (Call.sink_returns raises) g = capture_step (Call.sink_returns raises) g.worker g
step Call.wakes g = playback_step Call.wakes g.player g
step (Call.tts_returns how) g = playback_step (Call.tts_returns how) g.player g
step Call.starts g = playback_step Call.starts g.player g
step (Call.play_returns how) g = playback_step (Call.play_returns how) g.player g

unfoldable pub run_calls : List Call → Gateway → Gateway × List Effect
unfolding step
run_calls [] g = (g, [])
run_calls (call ∷ calls) g =
    let first = step call g in let rest = run_calls calls first.0 in (rest.0, first.1 ++ rest.1)

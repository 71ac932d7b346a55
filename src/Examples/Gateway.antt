-- ===== src/Examples/Gateway.antt =====
-- A prompt by voice, a spoken line and a capture: voice/deskhelm_voice/gateway.py.
use deskhelm.Prelude.{
  ℕ, ◌≡◌, ◌↔◌, refl, true, false, List, ◌∷◌, [], ◌++◌, All, all, some, none, length, ◌+◌, present,
  ltb, arith,
}
use deskhelm.Protocol.Fields.{strip}
use deskhelm.Voice.Policy.{VoiceTarget, Transcript}
use deskhelm.Gateway.{
  Gateway, VoicePttState, SpeechPriority, SpeechItem, QueuedSpeech, Effect, new_gateway,
  VoiceEventKind,
}
use deskhelm.Gateway.Ptt.{Returned, Trouble, Poll, transcribe_with_timeout}
use deskhelm.Gateway.Speech.{pick, Played, stop_speaking}
use deskhelm.Gateway.Machine.{Call, close, run_calls}
use deskhelm.Gateway.Invariant.{GatewayFits}
use deskhelm.Gateway.Keeps.{run_calls-GatewayFits}
use deskhelm.Gateway.Turn.{ComesAfter, pick-in_turn}
use deskhelm.Gateway.Protocol
use deskhelm.Gateway.Follows.{run_calls-Heard}
use deskhelm.Gateway.Follows.Threads.{Follows}
use deskhelm.Gateway.Closed.{Ended, closed-Ended}
use deskhelm.Gateway.Ends.{activation_ends}
use deskhelm.Gateway.Stopping.{Leaves, Current, stop_speaking-Leaves}
use deskhelm.Gateway.Vad.{
  VadEventKind, VadEvent, VadObservation, Detected, Observed, new_observation, emit_vad_events,
  vad_effect,
}
use deskhelm.Gateway.Spoken.{Passes, emit_vad_events-Passes}
use deskhelm.Gateway.Capture.{
  PcmStreamFormat, CapturedAudio, Read, CaptureLimits, collect_stream, nothing_collected,
}
use deskhelm.Gateway.Contiguous.{Recorded, collect_stream-Recorded}
use deskhelm.Gateway.Waiting.{transcribe_with_timeout-ends}

abbrev desk : VoiceTarget
desk = record { agent_id = "codex"; session_id = "s"; project_id = "p" }

abbrev words : Transcript
words = record { transcript_id = "1"; normalized_text = "go" }

abbrev line : SpeechPriority → SpeechItem
line priority = record {
  target = desk;
  text = "done";
  priority = priority;
  interruptible = true;
  speech_id = "1";
}

abbrev calls : List Call
calls =
    Call.register 1
    ∷ Call.press desk "a"
    ∷ Call.enqueue (line SpeechPriority.normal)
    ∷ Call.observes (
        Observed.chunk true new_observation (Detected.found tt)
          (Detected.found (record { kind = VadEventKind.speech_started; frame_index = 3 } ∷ [])) 4)
    ∷ Call.report desk "voice_bridge_lost"
    ∷ Call.release none ""
    ∷ Call.capture_returns (Returned.returned tt)
    ∷ Call.asr_returns (Returned.returned words)
    ∷ Call.wakes
    ∷ Call.sink_returns false
    ∷ Call.wakes
    ∷ Call.tts_returns Played.done
    ∷ Call.starts
    ∷ []

calls_effects : length (run_calls calls (new_gateway 2)).1 ≡ 9
unfolding run_calls new_gateway strip new_observation
calls_effects = refl

run_calls-GatewayFits_example : GatewayFits (run_calls calls (new_gateway 2)).0
run_calls-GatewayFits_example = run_calls-GatewayFits 2 calls

run_calls-Heard_example : Follows Protocol.quiet Protocol.silent (run_calls calls (new_gateway 2))
run_calls-Heard_example = run_calls-Heard 2 calls

closed-Ended_example : Ended (run_calls calls (close (run_calls calls (new_gateway 2)).0))
closed-Ended_example = closed-Ended 2 calls calls

abbrev pressed : List Call
pressed = Call.register 1 ∷ Call.press desk "a" ∷ []

activation_ends_example :
    (run_calls
      (pressed
        ++ (Call.capture_returns (Returned.returned tt)
            ∷ ((Call.cancel ∷ [])
                ++ (Call.asr_returns (Returned.raised Trouble.no_transcript)
                    ∷ ([] ++ (Call.sink_returns true ∷ []))))))
      (new_gateway 2)).0.ptt_state
    ≡ VoicePttState.idle
unfolding all
activation_ends_example =
    activation_ends 2 pressed (Call.cancel ∷ []) [] (Returned.returned tt)
      (Returned.raised Trouble.no_transcript) true refl refl

abbrev queued : ℕ → SpeechPriority → QueuedSpeech
queued n priority = record { sequence = n; item = line priority }

abbrev others : List QueuedSpeech
others = queued 1 SpeechPriority.high ∷ queued 2 SpeechPriority.high ∷ []

picked : (pick (queued 0 SpeechPriority.low) others).0.sequence ≡ 1
unfolding pick
picked = refl

pick-in_turn_example :
    let best = pick (queued 0 SpeechPriority.low) others in
    All (ComesAfter best.0) best.1
    × ((before : List QueuedSpeech) × (after : List QueuedSpeech) × ((queued 0 SpeechPriority.low
            ∷ others)
          ≡ before ++ (best.0 ∷ after))
        × (best.1 ≡ before ++ after))
pick-in_turn_example =
    pick-in_turn (queued 0 SpeechPriority.low) others
      ((omega arith, (omega arith, tt)), ((omega arith, tt), (tt, tt)))

abbrev speaking : Gateway
speaking = (run_calls calls (new_gateway 2)).0

stop_speaking-Leaves_example :
    let stopped = stop_speaking desk "" speaking in
    (queued : ℕ) × (current : ℕ) × Leaves desk "" speaking.speech_queue stopped.0.speech_queue
      queued
    × Current desk "" speaking.current_speech speaking.current_speech_cancel
        stopped.0.current_speech_cancel current
    × (stopped.1 ≡ queued + current)
stop_speaking-Leaves_example = stop_speaking-Leaves desk "" speaking

abbrev uttered : List VadEvent
uttered =
    record { kind = VadEventKind.speech_started; frame_index = 3 }
    ∷ record { kind = VadEventKind.speech_ended; frame_index = 7 }
    ∷ []

abbrev heard : VadObservation × List Effect
heard = (
  record new_observation { event_count = 2; last_frame = 7 },
  vad_effect desk (VoiceEventKind.input_speech_started, 3)
      ∷ vad_effect desk (VoiceEventKind.input_speech_ended, 7)
      ∷ [],
)

heard_passes : emit_vad_events desk new_observation uttered 8 true ≡ some heard
unfolding emit_vad_events new_observation
heard_passes = refl

emit_vad_events-Passes_example :
    (emit_vad_events desk new_observation uttered 8 true ≡ some (heard.0, heard.1))
    ↔ Passes desk new_observation uttered 8 true heard.0 heard.1
emit_vad_events-Passes_example =
    emit_vad_events-Passes desk new_observation uttered 8 true heard.0 heard.1

abbrev mono : PcmStreamFormat
mono = record { sample_rate_hz = 2; channels = 1 }

abbrev reads : List Read
reads =
    Read.gives (record { bytes = 1 ∷ 2 ∷ []; format = mono; start_frame = 0 }) Detected.broken
      Detected.broken
    ∷ Read.gives (record { bytes = 3 ∷ 4 ∷ []; format = mono; start_frame = 1 }) Detected.broken
        Detected.broken
    ∷ Read.ended true Detected.broken
    ∷ []

abbrev limits : CaptureLimits
limits = record {
  max_capture_bytes = 16;
  too_long = λ frames rate. ltb 60 frames;
  provided = false;
}

abbrev recorded : CapturedAudio
recorded = record { bytes = 1 ∷ 2 ∷ 3 ∷ 4 ∷ []; format = mono }

collect_stream-Recorded_example : Recorded limits reads nothing_collected recorded
unfolding collect_stream
collect_stream-Recorded_example = collect_stream-Recorded limits desk false reads recorded refl

abbrev poll : Poll
poll = record { is_cancelled = false; time_left = true; answer = none }

abbrev late : Poll
late = record { is_cancelled = false; time_left = false; answer = none }

transcribe_with_timeout-ends_example :
    present (transcribe_with_timeout ((poll ∷ poll ∷ []) ++ (late ∷ []))) ≡ true
transcribe_with_timeout-ends_example = transcribe_with_timeout-ends (poll ∷ poll ∷ []) [] late refl

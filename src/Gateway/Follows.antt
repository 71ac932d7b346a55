-- ===== src/Gateway/Follows.antt =====
-- Every run of `VoiceGateway` in voice/deskhelm_voice/gateway.py follows the order of its events.
pub mod Threads
use deskhelm.Prelude.{
  ℕ, String, Bool, true, false, not, ◌||◌, List, [], ◌∷◌, Option, none, some, present, ◌≡◌, inl,
  inr, refl, sym, subst, if-keeps, if-cases, option_eq, nat_eq, string_eq, or-false, not-false,
}
use deskhelm.Voice.Policy.{VoiceTarget, Transcript}
use deskhelm.Gateway.{
  Gateway, Worker, Player, SpeechItem, QueuedSpeech, Effect, new_gateway, is_set, VoiceEventKind,
  plain_event,
}
use deskhelm.Gateway.Ptt.{
  press_ptt, clear_ptt, Trouble, finish_ptt, fail_ptt, Returned, captured, transcribed, delivered,
  handed_over, trouble_event, is_idle, is_target,
}
use deskhelm.Gateway.Speech.{
  pick, take_next, take_speech, Played, end_speech, unless_cancelled, spoken, ending_event,
  speech_event, synthesized, playback_started, played,
}
use deskhelm.Gateway.Machine.{Call, loud, capture_step, playback_step, step, run_calls}
use deskhelm.Gateway.Invariant.{GatewayFits, new_gateway-GatewayFits, idle-free}
use deskhelm.Gateway.Keeps.{step-keeps}
use deskhelm.Gateway.Still.{Still, step-Still}
use deskhelm.Gateway.Protocol
use deskhelm.Gateway.Vad.{observed}
use deskhelm.Gateway.Overheard.{observed-Overheard}
use deskhelm.Gateway.Follows.Threads.{
  Follows, captured-Follows, transcribed-Follows, delivered-Follows, ends, take_next-Follows,
  spoken-Follows,
}

module _ (g : Gateway) (k : Protocol.KeyHeard) (s : Protocol.SpeechHeard)
    (heard_so_far : Protocol.KeyTracks g.worker k)
    (spoken_so_far : Protocol.SpeechTracks g.player s) where
  -- A step in which no thread moves and nothing is said.
  stays : Follows k s (g, [])
  stays = record {
    key = k;
    speech = s;
    heard = Protocol.Heard.nothing;
    key_tracks = heard_so_far;
    speech_tracks = spoken_so_far;
  }

  starts_key :
      (after : Gateway) (target : VoiceTarget)
      → after.worker ≡ Worker.captures target
      → after.player ≡ g.player
      → Protocol.KeyTracks Worker.free k
      → Follows k s (after, Effect.emits (plain_event VoiceEventKind.ptt_started target) ∷ [])
  starts_key after target at same_player free = record {
    key = Protocol.speaking target;
    speech = s;
    heard = Protocol.Heard.key (hears free) Protocol.Heard.nothing;
    key_tracks = subst (λ w. Protocol.KeyTracks w (Protocol.speaking target)) (sym at) refl;
    speech_tracks = subst (λ p. Protocol.SpeechTracks p s) (sym same_player) spoken_so_far;
  }
    where
      start : Effect
      start = Effect.emits (plain_event VoiceEventKind.ptt_started target)

      hears :
          Protocol.KeyTracks Worker.free k → Protocol.KeyHears k start (Protocol.speaking target)
      hears (inl silent) =
          subst (λ k. Protocol.KeyHears k start (Protocol.speaking target)) (sym silent)
            Protocol.KeyHears.starts
      hears (inr (before, prompted)) =
          subst (λ k. Protocol.KeyHears k start (Protocol.speaking target)) (sym prompted)
            Protocol.KeyHears.starts_again

  press-Follows :
      (target : VoiceTarget) (activation_id : String)
      → GatewayFits g
      → Follows k s (loud g (press_ptt target activation_id g))
  unfolding press_ptt
  press-Follows target activation_id h =
      if-cases (λ o. Follows k s (loud g o))
        (g.closed || not (is_idle g.ptt_state) || not (present g.prompt_sink)) (λ _. stays)
        (λ accepted.
          let is_quiet =
            or-false (g.closed || not (is_idle g.ptt_state)) (not (present g.prompt_sink))
              accepted in
          let idle = not-false (is_idle g.ptt_state) (or-false g.closed _ is_quiet.0).1 in
          starts_key _ target refl refl (
            subst (λ w. Protocol.KeyTracks w k)
              (idle-free g.worker g.ptt_state g.ptt_target g.ptt_stop g.ptt_cancel idle h.ptt_fits)
              heard_so_far))

  capture_step-Follows :
      (call : Call) (w : Worker) → g.worker ≡ w → Follows k s (capture_step call w g)
  unfolding capture_step
  capture_step-Follows (Call.observes seen) (Worker.captures target) at =
      let speaking : k ≡ Protocol.speaking target =
        subst (λ w. Protocol.KeyTracks w k) at heard_so_far in
      record {
        key = k;
        speech = s;
        heard =
            subst (λ k. Protocol.Heard k s (observed target seen) k s) (sym speaking)
              (Protocol.overheard-Heard (observed target seen) (observed-Overheard target seen));
        key_tracks = heard_so_far;
        speech_tracks = spoken_so_far;
      }
  capture_step-Follows (Call.capture_returns how) (Worker.captures target) at =
      subst (λ k. Follows k s (captured how target g))
        (sym (subst (λ w. Protocol.KeyTracks w k) at heard_so_far))
        (captured-Follows g s spoken_so_far how target)
  capture_step-Follows (Call.asr_returns how) (Worker.transcribes target) at =
      subst (λ k. Follows k s (transcribed how target g))
        (sym (subst (λ w. Protocol.KeyTracks w k) at heard_so_far))
        (transcribed-Follows g s spoken_so_far how target)
  capture_step-Follows (Call.sink_returns raises) (Worker.delivers target transcript) at =
      subst (λ k. Follows k s (delivered raises target transcript g))
        (sym (subst (λ w. Protocol.KeyTracks w k) at heard_so_far))
        (delivered-Follows g s spoken_so_far raises target transcript)
  capture_step-Follows call w at = stays

  take-Follows : g.player ≡ Player.waits → Follows k s (take_speech g)
  unfolding take_speech
  take-Follows at =
      let silent : s ≡ Protocol.silent = subst (λ p. Protocol.SpeechTracks p s) at spoken_so_far in
      if-keeps (Follows k s) g.closed
        (record {
          key = k;
          speech = s;
          heard = Protocol.Heard.nothing;
          key_tracks = heard_so_far;
          speech_tracks = silent;
        })
        (if-keeps (Follows k s) (is_idle g.ptt_state)
          (subst (λ s. Follows k s (take_next g.speech_queue g)) (sym silent)
            (take_next-Follows g k heard_so_far g.speech_queue at))
          stays)

  playback_step-Follows :
      (call : Call) (p : Player) → g.player ≡ p → Follows k s (playback_step call p g)
  unfolding playback_step synthesized playback_started played
  playback_step-Follows Call.wakes Player.waits at = take-Follows at
  playback_step-Follows (Call.tts_returns how) (Player.synthesizes item) at =
      subst (λ s. Follows k s (spoken (unless_cancelled how g) item g))
        (sym (subst (λ p. Protocol.SpeechTracks p s) at spoken_so_far))
        (spoken-Follows g k heard_so_far (unless_cancelled how g) item)
  playback_step-Follows Call.starts (Player.plays item) at =
      let audible : s ≡ Protocol.audible item =
        subst (λ p. Protocol.SpeechTracks p s) at spoken_so_far in
      record {
        key = k;
        speech = Protocol.audible item;
        heard =
            subst
              (λ s.
                Protocol.Heard k s
                  (Effect.emits (speech_event VoiceEventKind.playback_started item) ∷ []) k
                  (Protocol.audible item))
              (sym audible)
              (Protocol.Heard.speech Protocol.SpeechHears.plays Protocol.Heard.nothing);
        key_tracks = heard_so_far;
        speech_tracks = subst (λ p. Protocol.SpeechTracks p (Protocol.audible item)) (sym at) refl;
      }
  playback_step-Follows (Call.play_returns how) (Player.plays item) at =
      let how = unless_cancelled how g in
      subst (λ s. Follows k s (end_speech how item g))
        (sym (subst (λ p. Protocol.SpeechTracks p s) at spoken_so_far))
        (ends g k heard_so_far (Protocol.audible item) how item (Protocol.SpeechHears.ends how))
  playback_step-Follows call p at = stays

Still-Follows :
    (g : Gateway) (k : Protocol.KeyHeard) (s : Protocol.SpeechHeard) {out : Gateway × List Effect}
    → Protocol.KeyTracks g.worker k
    → Protocol.SpeechTracks g.player s
    → Still g out
    → Follows k s out
Still-Follows g k s {out} kt st still = record {
  key = k;
  speech = s;
  heard = Protocol.reported-Heard out.1 still.2;
  key_tracks = subst (λ w. Protocol.KeyTracks w k) (sym still.0) kt;
  speech_tracks = subst (λ p. Protocol.SpeechTracks p s) (sym still.1) st;
}

step-Follows :
    (call : Call) (g : Gateway) (k : Protocol.KeyHeard) (s : Protocol.SpeechHeard)
    → GatewayFits g
    → Protocol.KeyTracks g.worker k
    → Protocol.SpeechTracks g.player s
    → Follows k s (step call g)
unfolding step
step-Follows (Call.register sink) g k s h kt st =
    Still-Follows g k s kt st (step-Still g (Call.register sink) refl)
step-Follows (Call.unregister_sink sink) g k s h kt st =
    Still-Follows g k s kt st (step-Still g (Call.unregister_sink sink) refl)
step-Follows (Call.press target activation_id) g k s h kt st =
    press-Follows g k s kt st target activation_id h
step-Follows (Call.release target activation_id) g k s h kt st =
    Still-Follows g k s kt st (step-Still g (Call.release target activation_id) refl)
step-Follows Call.cancel g k s h kt st = Still-Follows g k s kt st (step-Still g Call.cancel refl)
step-Follows (Call.enqueue item) g k s h kt st =
    Still-Follows g k s kt st (step-Still g (Call.enqueue item) refl)
step-Follows (Call.stop target speech_id) g k s h kt st =
    Still-Follows g k s kt st (step-Still g (Call.stop target speech_id) refl)
step-Follows Call.shut g k s h kt st = Still-Follows g k s kt st (step-Still g Call.shut refl)
step-Follows (Call.report target error_code) g k s h kt st =
    Still-Follows g k s kt st (step-Still g (Call.report target error_code) refl)
step-Follows (Call.observes seen) g k s h kt st =
    capture_step-Follows g k s kt st (Call.observes seen) g.worker refl
step-Follows (Call.capture_returns how) g k s h kt st =
    capture_step-Follows g k s kt st (Call.capture_returns how) g.worker refl
step-Follows (Call.asr_returns how) g k s h kt st =
    capture_step-Follows g k s kt st (Call.asr_returns how) g.worker refl
step-Follows (Call.sink_returns raises) g k s h kt st =
    capture_step-Follows g k s kt st (Call.sink_returns raises) g.worker refl
step-Follows Call.wakes g k s h kt st = playback_step-Follows g k s kt st Call.wakes g.player refl
step-Follows (Call.tts_returns how) g k s h kt st =
    playback_step-Follows g k s kt st (Call.tts_returns how) g.player refl
step-Follows Call.starts g k s h kt st = playback_step-Follows g k s kt st Call.starts g.player refl
step-Follows (Call.play_returns how) g k s h kt st =
    playback_step-Follows g k s kt st (Call.play_returns how) g.player refl

run_calls-Follows :
    (calls : List Call) (g : Gateway) (k : Protocol.KeyHeard) (s : Protocol.SpeechHeard)
    → GatewayFits g
    → Protocol.KeyTracks g.worker k
    → Protocol.SpeechTracks g.player s
    → Follows k s (run_calls calls g)
unfolding run_calls
run_calls-Follows [] g k s h kt st = stays g k s kt st
run_calls-Follows (call ∷ calls) g k s h kt st =
    let first = step-Follows call g k s h kt st in
    let after = (step call g).0 in
    let rest =
      run_calls-Follows calls after first.key first.speech (step-keeps g h call) first.key_tracks
        first.speech_tracks in
    record {
      key = rest.key;
      speech = rest.speech;
      heard =
          Protocol.Heard-append (step call g).1 (run_calls calls after).1 first.heard rest.heard;
      key_tracks = rest.key_tracks;
      speech_tracks = rest.speech_tracks;
    }

-- Whatever calls and threads do, in whatever order, a listener from the start meets the effects of a
-- new gateway in the order of `Heard`: each activation of the key starts, and goes on through the
-- voice activity and the end of its capture, its transcript and one prompt at most, all for the
-- target that it started with, to a new start or to a cancellation or a failure; one item is spoken
-- at a time, from its start to its end; a failure that is reported from outside may come at any time,
-- for any target; and what is heard at last is where the two threads stand.
pub run_calls-Heard :
    (max_speech_items : ℕ) (calls : List Call)
    → Follows Protocol.quiet Protocol.silent (run_calls calls (new_gateway max_speech_items))
unfolding new_gateway
run_calls-Heard max_speech_items calls =
    run_calls-Follows calls (new_gateway max_speech_items) Protocol.quiet Protocol.silent
      (new_gateway-GatewayFits max_speech_items) (inl refl) refl

-- ===== src/Gateway/Keeps/Threads.antt =====
-- The threads of `VoiceGateway` in voice/deskhelm_voice/gateway.py keep what holds of it.
use deskhelm.Prelude.{
  ◌<◌, string_eq, option_eq, nat_eq, false, not, ◌||◌, List, [], ◌∷◌, some, ◌≡◌, refl, subst, arith,
  if-keeps, if-cases,
}
use deskhelm.Voice.Policy.{VoiceTarget, Transcript}
use deskhelm.Gateway.{Gateway, Worker, Player, SpeechItem, QueuedSpeech, Effect, is_set}
use deskhelm.Gateway.Ptt.{
  clear_ptt, finish_ptt, fail_ptt, Returned, captured, transcribed, delivered, is_idle, is_target,
}
use deskhelm.Gateway.Speech.{
  take_next, take_speech, Played, end_speech, unless_cancelled, spoken, synthesized,
  playback_started, played,
}
use deskhelm.Gateway.Machine.{Call, capture_step, playback_step}
use deskhelm.Gateway.Turn.{All-pick, length-pick, Rising-pick}
use deskhelm.Gateway.Invariant.{
  PttFits, SpeechFits, QueueFits, GatewayFits, ClosedFits-open, is_target_self,
}

module _ (g : Gateway) (h : GatewayFits g) where
  -- What the capture thread does when it is at work for a target.
  finish-keeps :
      (target : VoiceTarget) → g.ptt_target ≡ some target → GatewayFits (finish_ptt target g)
  unfolding finish_ptt clear_ptt
  finish-keeps target same =
      if-cases (λ after. GatewayFits (record after { worker = Worker.free }))
        (is_target g.ptt_target target)
        (λ _. record {
          ptt_fits = (refl, refl, refl, refl);
          speech_fits = h.speech_fits;
          queue_fits = h.queue_fits;
          closed_fits = h.closed_fits;
        })
        (λ other. cc (other, is_target_self g.ptt_target target same))

  stands : (w : Worker) → g.worker ≡ w → PttFits w g.ptt_state g.ptt_target g.ptt_stop g.ptt_cancel
  stands w at =
      subst (λ w. PttFits w g.ptt_state g.ptt_target g.ptt_stop g.ptt_cancel) at h.ptt_fits

  captured-keeps :
      (how : Returned (Unit {0})) (target : VoiceTarget)
      → g.worker ≡ Worker.captures target
      → GatewayFits (captured how target g).0
  unfolding captured fail_ptt
  captured-keeps (Returned.raised trouble) target at =
      finish-keeps target (stands (Worker.captures target) at).1
  captured-keeps (Returned.returned audio) target at =
      let ptt = stands (Worker.captures target) at in
      if-keeps (λ (o : Gateway × List Effect). GatewayFits o.0)
        (is_set g.ptt_cancel || not (is_target g.ptt_target target)) (finish-keeps target ptt.1)
        (record {
          ptt_fits = (refl, ptt.1, ptt.2, ptt.3);
          speech_fits = h.speech_fits;
          queue_fits = h.queue_fits;
          closed_fits = h.closed_fits;
        })

  transcribed-keeps :
      (how : Returned Transcript) (target : VoiceTarget)
      → g.worker ≡ Worker.transcribes target
      → GatewayFits (transcribed how target g).0
  unfolding transcribed fail_ptt
  transcribed-keeps (Returned.raised trouble) target at =
      finish-keeps target (stands (Worker.transcribes target) at).1
  transcribed-keeps (Returned.returned transcript) target at =
      let ptt = stands (Worker.transcribes target) at in
      if-keeps (λ (o : Gateway × List Effect). GatewayFits o.0) (is_set g.ptt_cancel)
        (finish-keeps target ptt.1)
        (record {
          ptt_fits = ptt;
          speech_fits = h.speech_fits;
          queue_fits = h.queue_fits;
          closed_fits = h.closed_fits;
        })

  pub capture_step-keeps :
      (call : Call) (w : Worker) → g.worker ≡ w → GatewayFits (capture_step call w g).0
  unfolding capture_step delivered
  capture_step-keeps (Call.observes seen) (Worker.captures target) at = h
  capture_step-keeps (Call.capture_returns how) (Worker.captures target) at =
      captured-keeps how target at
  capture_step-keeps (Call.asr_returns how) (Worker.transcribes target) at =
      transcribed-keeps how target at
  capture_step-keeps (Call.sink_returns raises) (Worker.delivers target transcript) at =
      finish-keeps target (stands (Worker.delivers target transcript) at).1
  capture_step-keeps call w at = h

  end-keeps : (how : Played) (item : SpeechItem) → GatewayFits (end_speech how item g).0
  unfolding end_speech
  end-keeps how item = record {
    ptt_fits = h.ptt_fits;
    speech_fits = (refl, refl);
    queue_fits = h.queue_fits;
    closed_fits = h.closed_fits;
  }

  speaks : (p : Player) → g.player ≡ p → SpeechFits p g.current_speech g.current_speech_cancel
  speaks p at = subst (λ p. SpeechFits p g.current_speech g.current_speech_cancel) at h.speech_fits

  spoken-keeps :
      (how : Played) (item : SpeechItem)
      → g.player ≡ Player.synthesizes item
      → GatewayFits (spoken how item g).0
  unfolding spoken
  spoken-keeps Played.done item at = record {
    ptt_fits = h.ptt_fits;
    speech_fits = speaks (Player.synthesizes item) at;
    queue_fits = h.queue_fits;
    closed_fits = h.closed_fits;
  }
  spoken-keeps Played.cancelled item at = end-keeps Played.cancelled item
  spoken-keeps Played.broken item at = end-keeps Played.broken item

  take_next-keeps :
      (queue : List QueuedSpeech)
      → g.closed ≡ false
      → g.speech_queue ≡ queue
      → GatewayFits (take_next queue g).0
  unfolding take_next
  take_next-keeps [] still_open at = h
  take_next-keeps (first ∷ rest) still_open at =
      let fits = subst (QueueFits g.max_speech_items g.speech_sequence) at h.queue_fits in
      record {
        ptt_fits = h.ptt_fits;
        speech_fits = (refl, refl);
        queue_fits = (
          omega (arith, fits.0, length-pick first rest),
          (All-pick (λ q. q.sequence < g.speech_sequence) first rest fits.1.0 fits.1.1).1,
          Rising-pick first rest fits.2,
        );
        closed_fits = ClosedFits-open g.closed _ _ still_open;
      }

  take-keeps : g.player ≡ Player.waits → GatewayFits (take_speech g).0
  unfolding take_speech
  take-keeps at =
      let P : Gateway × List Effect → Type 0 = λ o. GatewayFits o.0 in
      if-cases P g.closed
        (λ _. record {
          ptt_fits = h.ptt_fits;
          speech_fits = speaks Player.waits at;
          queue_fits = h.queue_fits;
          closed_fits = h.closed_fits;
        })
        (λ still_open.
          if-keeps P (is_idle g.ptt_state) (take_next-keeps g.speech_queue still_open refl) h)

  pub playback_step-keeps :
      (call : Call) (p : Player) → g.player ≡ p → GatewayFits (playback_step call p g).0
  unfolding playback_step synthesized playback_started played
  playback_step-keeps Call.wakes Player.waits at = take-keeps at
  playback_step-keeps (Call.tts_returns how) (Player.synthesizes item) at =
      spoken-keeps (unless_cancelled how g) item at
  playback_step-keeps Call.starts (Player.plays item) at = h
  playback_step-keeps (Call.play_returns how) (Player.plays item) at =
      end-keeps (unless_cancelled how g) item
  playback_step-keeps call p at = h

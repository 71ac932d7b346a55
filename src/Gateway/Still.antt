-- ===== src/Gateway/Still.antt =====
-- The calls of `VoiceGateway` in voice/deskhelm_voice/gateway.py that move no thread, and say nothing but
-- what they report.
use deskhelm.Prelude.{
  ℕ, String, string_eq, option_eq, nat_eq, Bool, true, false, not, ◌||◌, ◌&&◌, List, [], Option,
  All, Bool-cases, inl, inr, some, present, length, leb, ◌≡◌, refl, if-keeps, ◌==◌, if◌then◌else◌,
}
use deskhelm.Gateway.Protocol.{Reported}
use deskhelm.Protocol.Fields.{strip}
use deskhelm.Voice.Policy.{VoiceTarget}
use deskhelm.Gateway.{Gateway, SpeechItem, Effect}
use deskhelm.Gateway.Ptt.{
  register_prompt_sink, unregister, release_ptt, another, cancel_ptt, is_idle,
}
use deskhelm.Gateway.Speech.{enqueue_speech, stop_speaking}
use deskhelm.Gateway.Machine.{Call, quiet, answered, close, report_failure, step}

-- A call from outside that is no press.
abbrev pub is_outside : Call → Bool
is_outside (Call.register sink) = true
is_outside (Call.unregister_sink sink) = true
is_outside (Call.release target activation_id) = true
is_outside Call.cancel = true
is_outside (Call.enqueue item) = true
is_outside (Call.stop target speech_id) = true
is_outside Call.shut = true
is_outside (Call.report target error_code) = true
is_outside _ = false

abbrev pub Still : Gateway → Gateway × List Effect → Type 0
Still g out = (out.0.worker ≡ g.worker) × (out.0.player ≡ g.player) × All Reported out.1

report-Reported :
    (target : VoiceTarget) (error_code : String) → All Reported (report_failure target error_code)
unfolding report_failure
report-Reported target error_code = elim (Bool-cases (strip error_code == "")) [
  | inl blank ↦ rw blank tt
  | inr coded ↦ rw coded (
    Reported.report target error_code
        (λ e. differs coded ((string_eq.beq_iff (strip error_code) "").1 e)),
    tt,
  )
]
  where
    differs : {b : Bool} → b ≡ false → b ≡ true → ⊥
    differs h k = cc

module _ (g : Gateway) where
  unmoved : Still g (g, [])
  unmoved = (refl, refl, tt)

  register-Still : (sink : ℕ) → Still g (quiet g (register_prompt_sink sink g))
  unfolding register_prompt_sink
  register-Still sink =
      if-keeps (λ o. Still g (quiet g o)) (g.closed || present g.prompt_sink) unmoved
        (refl, refl, tt)

  enqueue-Still : (item : SpeechItem) → Still g (quiet g (enqueue_speech item g))
  unfolding enqueue_speech
  enqueue-Still item =
      if-keeps (λ o. Still g (quiet g o))
        (g.closed || leb g.max_speech_items (length g.speech_queue)) unmoved (refl, refl, tt)

  release-Still :
      (target : Option VoiceTarget) (activation_id : String)
      → Still g (answered g (release_ptt target activation_id g))
  unfolding release_ptt
  release-Still target activation_id =
      let P : Option (Gateway × Bool) → Type 0 = λ o. Still g (answered g o) in
      if-keeps P (if present target then activation_id == "" else not (activation_id == "")) unmoved
        (if-keeps P (is_idle g.ptt_state || not (present g.ptt_stop)) unmoved (
          if-keeps P (another target g) unmoved (
            if-keeps P (not (activation_id == "") && not (g.ptt_activation_id == activation_id))
              unmoved (refl, refl, tt))))

  pub step-Still : (call : Call) → is_outside call ≡ true → Still g (step call g)
  unfolding step unregister cancel_ptt close stop_speaking
  step-Still (Call.register sink) h = register-Still sink
  step-Still (Call.unregister_sink sink) h =
      if-keeps (λ (o : Gateway). Still g (o, [])) (g.prompt_sink == some sink) (refl, refl, tt)
        unmoved
  step-Still (Call.release target activation_id) h = release-Still target activation_id
  step-Still Call.cancel h =
      if-keeps (λ (o : Gateway). Still g (o, [])) (is_idle g.ptt_state) unmoved (refl, refl, tt)
  step-Still (Call.enqueue item) h = enqueue-Still item
  step-Still (Call.stop target speech_id) h = (refl, refl, tt)
  step-Still Call.shut h =
      if-keeps (λ (o : Gateway). Still g (o, [])) g.closed unmoved (refl, refl, tt)
  step-Still (Call.report target error_code) h = (refl, refl, report-Reported target error_code)
  step-Still (Call.press target activation_id) h = cc
  step-Still (Call.observes seen) h = cc
  step-Still (Call.capture_returns how) h = cc
  step-Still (Call.asr_returns how) h = cc
  step-Still (Call.sink_returns raises) h = cc
  step-Still Call.wakes h = cc
  step-Still (Call.tts_returns how) h = cc
  step-Still Call.starts h = cc
  step-Still (Call.play_returns how) h = cc

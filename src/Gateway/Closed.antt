-- ===== src/Gateway/Closed.antt =====
-- After `close` of voice/deskhelm_voice/gateway.py nothing begins any more.
use deskhelm.Prelude.{
  ℕ, string_eq, option_eq, nat_eq, Bool, true, false, not, ◌||◌, ◌&&◌, List, [], ◌∷◌, ◌++◌, Option,
  none, some, present, length, leb, all, All, ◌≡◌, refl, sym, subst, if-keeps, if-cases, ◌==◌,
  if◌then◌else◌, and-true,
}
use deskhelm.Voice.Policy.{VoiceTarget}
use deskhelm.Gateway.{
  Gateway, VoiceEventKind, SpeechItem, Worker, Player, Effect, is_set, new_gateway,
}
use deskhelm.Gateway.Ptt.{
  register_prompt_sink, unregister, press_ptt, release_ptt, another, cancel_ptt, clear_ptt, is_idle,
  is_target, trouble_event, finish_ptt, fail_ptt, Returned, Trouble, captured, transcribed,
  handed_over, delivered,
}
use deskhelm.Gateway.Speech.{
  enqueue_speech, stop_speaking, take_speech, Played, ending_event, end_speech, unless_cancelled,
  spoken, synthesized, playback_started, played,
}
use deskhelm.Gateway.Machine.{
  Call, quiet, loud, answered, close, report_failure, capture_step, playback_step, step, run_calls,
}
use deskhelm.Gateway.Vad.{observed}
use deskhelm.Gateway.Protocol.{Overheard}
use deskhelm.Gateway.Overheard.{observed-Overheard}
use deskhelm.Protocol.Fields.{strip}
use deskhelm.Gateway.Invariant.{GatewayFits, ClosedFits}
use deskhelm.Gateway.Keeps.{run_calls-GatewayFits}

-- An activation or an item that starts, or a prompt.
unfoldable pub begins : Effect → Bool
begins (Effect.prompts sink target transcript) = true
begins (Effect.emits event) = elim event.kind [
  | VoiceEventKind.ptt_started ↦ true
  | VoiceEventKind.speech_started ↦ true
  | _ ↦ false
]

-- The gateway is closed and has no sink, and nothing has begun.
pub record Ended (out : Gateway × List Effect) : Type 0 where
  pub is_closed : out.0.closed ≡ true
  pub no_sink : out.0.prompt_sink ≡ none
  pub begun : all (λ e. not (begins e)) out.1 ≡ true

trouble-begins-not :
    (target : VoiceTarget) (trouble : Trouble)
    → begins (Effect.emits (trouble_event target trouble)) ≡ false
unfolding begins trouble_event
trouble-begins-not target Trouble.cancelled = refl
trouble-begins-not target Trouble.no_transcript = refl
trouble-begins-not target Trouble.asr_timeout = refl
trouble-begins-not target Trouble.other = refl

ending-begins-not :
    (how : Played) (item : SpeechItem) → begins (Effect.emits (ending_event how item)) ≡ false
unfolding begins ending_event
ending-begins-not Played.done item = refl
ending-begins-not Played.cancelled item = refl
ending-begins-not Played.broken item = refl

begins-not :
    (t : VoiceTarget) (es : List Effect)
    → All (Overheard t) es
    → all (λ e. not (begins e)) es ≡ true
unfolding begins all
begins-not t [] h = refl
begins-not t (e ∷ es) (Overheard.starts frame, h) = begins-not t es h
begins-not t (e ∷ es) (Overheard.ends frame, h) = begins-not t es h
begins-not t (e ∷ es) (Overheard.fails, h) = begins-not t es h

one-begins-not : (e : Effect) → begins e ≡ false → all (λ e. not (begins e)) (e ∷ []) ≡ true
unfolding all
one-begins-not e h = rw h refl

refuses {ℓ} :
    {A : Type ℓ} (b : Bool) {x : A} (y : A) (P : A → Type 0)
    → b ≡ true
    → P x
    → P (if b then x else y)
refuses true y P h p = p
refuses false y P h p = cc

still-or : (a b : Bool) → a ≡ true → (a || b) ≡ true
still-or true b h = refl
still-or false b h = cc

module _ (g : Gateway) (closed : g.closed ≡ true) (sinkless : g.prompt_sink ≡ none) where
  over : Ended (g, [])
  unfolding all
  over = record { is_closed = closed; no_sink = sinkless; begun = refl }

  closed-or : (b : Bool) → (g.closed || b) ≡ true
  closed-or b = rw closed refl

  finished : (target : VoiceTarget) → Ended (finish_ptt target g, [])
  unfolding finish_ptt clear_ptt all
  finished target =
      if-keeps (λ (after : Gateway). Ended (record after { worker = Worker.free }, []))
        (is_target g.ptt_target target)
        (record { is_closed = closed; no_sink = sinkless; begun = refl })
        (record { is_closed = closed; no_sink = sinkless; begun = refl })

  fails : (target : VoiceTarget) (trouble : Trouble) → Ended (fail_ptt target trouble g)
  unfolding fail_ptt
  fails target trouble = record {
    is_closed = (finished target).is_closed;
    no_sink = (finished target).no_sink;
    begun = one-begins-not _ (trouble-begins-not target trouble);
  }

  capture_step-Ended : (call : Call) (w : Worker) → Ended (capture_step call w g)
  unfolding capture_step captured transcribed delivered handed_over begins all
  capture_step-Ended (Call.observes seen) (Worker.captures target) = record {
    is_closed = closed;
    no_sink = sinkless;
    begun = begins-not target (observed target seen) (observed-Overheard target seen);
  }
  capture_step-Ended (Call.capture_returns (Returned.raised trouble)) (Worker.captures target) =
      fails target trouble
  capture_step-Ended (Call.capture_returns (Returned.returned audio)) (Worker.captures target) =
      if-keeps Ended (is_set g.ptt_cancel || not (is_target g.ptt_target target))
        (fails target Trouble.cancelled)
        (record { is_closed = closed; no_sink = sinkless; begun = refl })
  capture_step-Ended (Call.asr_returns (Returned.raised trouble)) (Worker.transcribes target) =
      fails target trouble
  capture_step-Ended (Call.asr_returns (Returned.returned transcript)) (Worker.transcribes target) =
      if-keeps Ended (is_set g.ptt_cancel) (fails target Trouble.cancelled)
        (record { is_closed = closed; no_sink = sinkless; begun = refl })
  capture_step-Ended (Call.sink_returns raises) (Worker.delivers target transcript) = record {
    is_closed = (finished target).is_closed;
    no_sink = (finished target).no_sink;
    begun =
        subst (λ sink. all (λ e. not (begins e)) (handed_over sink raises target transcript) ≡ true)
          (sym sinkless) refl;
  }
  capture_step-Ended call w = over

  ends : (how : Played) (item : SpeechItem) → Ended (end_speech how item g)
  unfolding end_speech
  ends how item = record {
    is_closed = closed;
    no_sink = sinkless;
    begun = one-begins-not _ (ending-begins-not how item);
  }

  spoken-Ended : (how : Played) (item : SpeechItem) → Ended (spoken how item g)
  unfolding spoken begins all
  spoken-Ended Played.done item = record { is_closed = closed; no_sink = sinkless; begun = refl }
  spoken-Ended Played.cancelled item = ends Played.cancelled item
  spoken-Ended Played.broken item = ends Played.broken item

  playback_step-Ended : (call : Call) (p : Player) → Ended (playback_step call p g)
  unfolding playback_step take_speech synthesized playback_started played begins all
  playback_step-Ended Call.wakes Player.waits =
      if-cases Ended g.closed (λ _. record { is_closed = closed; no_sink = sinkless; begun = refl })
        (λ still_open. cc (closed, still_open))
  playback_step-Ended (Call.tts_returns how) (Player.synthesizes item) =
      spoken-Ended (unless_cancelled how g) item
  playback_step-Ended Call.starts (Player.plays item) = record {
    is_closed = closed;
    no_sink = sinkless;
    begun = refl;
  }
  playback_step-Ended (Call.play_returns how) (Player.plays item) =
      ends (unless_cancelled how g) item
  playback_step-Ended call p = over

  step-Ended : (call : Call) → Ended (step call g)
  unfolding step register_prompt_sink unregister press_ptt release_ptt cancel_ptt enqueue_speech
      stop_speaking close report_failure begins all
  step-Ended (Call.register sink) =
      refuses (g.closed || present g.prompt_sink) _ (λ o. Ended (quiet g o)) (closed-or _) over
  step-Ended (Call.unregister_sink sink) =
      if-keeps (λ (o : Gateway). Ended (o, [])) (g.prompt_sink == some sink)
        (record { is_closed = closed; no_sink = refl; begun = refl }) over
  step-Ended (Call.press target activation_id) =
      refuses (g.closed || not (is_idle g.ptt_state) || not (present g.prompt_sink)) _
        (λ o. Ended (loud g o)) (still-or _ _ (closed-or _)) over
  step-Ended (Call.release target activation_id) =
      let P : Option (Gateway × Bool) → Type 0 = λ o. Ended (answered g o) in
      if-keeps P (if present target then activation_id == "" else not (activation_id == "")) over (
        if-keeps P (is_idle g.ptt_state || not (present g.ptt_stop)) over (
          if-keeps P (another target g) over (
            if-keeps P (not (activation_id == "") && not (g.ptt_activation_id == activation_id))
              over (record { is_closed = closed; no_sink = sinkless; begun = refl }))))
  step-Ended Call.cancel =
      if-keeps (λ (o : Gateway). Ended (o, [])) (is_idle g.ptt_state) over
        (record { is_closed = closed; no_sink = sinkless; begun = refl })
  step-Ended (Call.enqueue item) =
      refuses (g.closed || leb g.max_speech_items (length g.speech_queue)) _
        (λ o. Ended (quiet g o)) (closed-or _) over
  step-Ended (Call.stop target speech_id) = record {
    is_closed = closed;
    no_sink = sinkless;
    begun = refl;
  }
  step-Ended (Call.report target error_code) =
      if-keeps (λ es. Ended (g, es)) (strip error_code == "") over
        (record { is_closed = closed; no_sink = sinkless; begun = refl })
  step-Ended (Call.observes seen) = capture_step-Ended (Call.observes seen) g.worker
  step-Ended Call.shut = refuses g.closed _ (λ (o : Gateway). Ended (o, [])) closed over
  step-Ended (Call.capture_returns how) = capture_step-Ended (Call.capture_returns how) g.worker
  step-Ended (Call.asr_returns how) = capture_step-Ended (Call.asr_returns how) g.worker
  step-Ended (Call.sink_returns raises) = capture_step-Ended (Call.sink_returns raises) g.worker
  step-Ended Call.wakes = playback_step-Ended Call.wakes g.player
  step-Ended (Call.tts_returns how) = playback_step-Ended (Call.tts_returns how) g.player
  step-Ended Call.starts = playback_step-Ended Call.starts g.player
  step-Ended (Call.play_returns how) = playback_step-Ended (Call.play_returns how) g.player

all-append :
    (test : Effect → Bool) (es fs : List Effect)
    → all test es ≡ true
    → all test fs ≡ true
    → all test (es ++ fs) ≡ true
unfolding all
all-append test [] fs h k = k
all-append test (e ∷ es) fs h k =
    let (this, rest) = and-true (test e) (all test es) h in
    rw (this, all-append test es fs rest k) refl

run_calls-Ended :
    (calls : List Call) (g : Gateway)
    → g.closed ≡ true
    → g.prompt_sink ≡ none
    → Ended (run_calls calls g)
unfolding run_calls
run_calls-Ended [] g closed sinkless = over g closed sinkless
run_calls-Ended (call ∷ calls) g closed sinkless =
    let first = step-Ended g closed sinkless call in
    let rest = run_calls-Ended calls (step call g).0 first.is_closed first.no_sink in
    record {
      is_closed = rest.is_closed;
      no_sink = rest.no_sink;
      begun =
          all-append (λ e. not (begins e)) (step call g).1 (run_calls calls (step call g).0).1
            first.begun rest.begun;
    }

close-closes :
    (g : Gateway) → GatewayFits g → ((close g).closed ≡ true) × ((close g).prompt_sink ≡ none)
unfolding close
close-closes g h =
    if-cases (λ (after : Gateway). (after.closed ≡ true) × (after.prompt_sink ≡ none)) g.closed
      (λ closed.
        (closed, (subst (λ c. ClosedFits c g.speech_queue g.prompt_sink) closed h.closed_fits).1))
      (λ _. (refl, refl))

-- Once a gateway is closed, from whatever its calls and threads made of it before, it stays closed
-- and without a sink, and nothing begins any more: no activation, no item to speak and no prompt.
pub closed-Ended :
    (max_speech_items : ℕ) (before after : List Call)
    → Ended (run_calls after (close (run_calls before (new_gateway max_speech_items)).0))
closed-Ended max_speech_items before after =
    let g = (run_calls before (new_gateway max_speech_items)).0 in
    let (closed, sinkless) = close-closes g (run_calls-GatewayFits max_speech_items before) in
    run_calls-Ended after (close g) closed sinkless

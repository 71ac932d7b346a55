-- ===== src/Gateway/Keeps/Calls.antt =====
-- The calls from outside of `VoiceGateway` in voice/deskhelm_voice/gateway.py keep what holds of it.
use deskhelm.Prelude.{
  ℕ, ◌+◌, ◌<◌, String, string_eq, option_eq, nat_eq, Bool, true, false, not, ◌||◌, ◌&&◌, List, [],
  ◌∷◌, ◌++◌, Option, none, some, present, length, select, length-append, length-select-le, All,
  All-append, All-select, leb, not_leb→lt, inl, inr, refl, ap, arith, Bool-cases, if-keeps,
  if-cases, ◌==◌, if◌then◌else◌, or-false,
}
use deskhelm.Voice.Policy.{VoiceTarget}
use deskhelm.Gateway.{Gateway, SpeechItem, QueuedSpeech}
use deskhelm.Gateway.Ptt.{
  register_prompt_sink, unregister, interrupted, press_ptt, another, release_ptt, cancel_ptt,
  is_idle,
}
use deskhelm.Gateway.Speech.{enqueue_speech, stops, stops_current, stop_speaking}
use deskhelm.Gateway.Machine.{close, quiet, loud, answered}
use deskhelm.Gateway.Invariant.{
  SpeechFits, Rising, ClosedFits, GatewayFits, PttFits-set_flag, PttFits-released,
  SpeechFits-set_flag, ClosedFits-open,
}

Rising-append :
    (qs : List QueuedSpeech) (q : QueuedSpeech)
    → All (λ r. r.sequence < q.sequence) qs
    → Rising qs
    → Rising (qs ++ (q ∷ []))
Rising-append [] q below h = (tt, tt)
Rising-append (p ∷ qs) q below h = (
  All-append (λ r. p.sequence < r.sequence) qs (q ∷ []) h.0 (below.0, tt),
  Rising-append qs q below.1 h.1,
)

Rising-select :
    (test : QueuedSpeech → Bool) (qs : List QueuedSpeech) → Rising qs → Rising (select test qs)
unfolding select
Rising-select test [] h = tt
Rising-select test (q ∷ qs) h =
    if-keeps Rising (test q)
      (All-select (λ r. q.sequence < r.sequence) test qs h.0, Rising-select test qs h.1)
      (Rising-select test qs h.1)

All-later :
    (n : ℕ) (qs : List QueuedSpeech)
    → All (λ q. q.sequence < n) qs
    → All (λ q. q.sequence < n + 1) qs
All-later n [] h = tt
All-later n (q ∷ qs) h = (omega (arith, h.0), All-later n qs h.1)

module _ (g : Gateway) (h : GatewayFits g) where
  pub register-keeps : (sink : ℕ) → GatewayFits (quiet g (register_prompt_sink sink g)).0
  unfolding register_prompt_sink
  register-keeps sink = elim (Bool-cases (g.closed || present g.prompt_sink)) [
    | inl refused ↦ rw refused h
    | inr accepted ↦ rw accepted (record {
      ptt_fits = h.ptt_fits;
      speech_fits = h.speech_fits;
      queue_fits = h.queue_fits;
      closed_fits =
          ClosedFits-open g.closed g.speech_queue (some sink)
            (or-false g.closed (present g.prompt_sink) accepted).0;
    })
  ]

  sinkless :
      (closed : Bool) (queue : List QueuedSpeech)
      → ClosedFits closed queue g.prompt_sink
      → ClosedFits closed queue none
  sinkless true queue fits = (fits.0, refl)
  sinkless false queue fits = tt

  pub unregister-keeps : (sink : ℕ) → GatewayFits (unregister sink g)
  unfolding unregister
  unregister-keeps sink =
      if-keeps GatewayFits (g.prompt_sink == some sink)
        (record {
          ptt_fits = h.ptt_fits;
          speech_fits = h.speech_fits;
          queue_fits = h.queue_fits;
          closed_fits = sinkless g.closed g.speech_queue h.closed_fits;
        })
        h

  interrupted-SpeechFits :
      (current : Option SpeechItem)
      → SpeechFits g.player g.current_speech (interrupted current g.current_speech_cancel)
  unfolding interrupted
  interrupted-SpeechFits none = h.speech_fits
  interrupted-SpeechFits (some item) =
      if-keeps (SpeechFits g.player g.current_speech) item.interruptible
        (SpeechFits-set_flag g.player g.current_speech g.current_speech_cancel h.speech_fits)
        h.speech_fits

  pub press-keeps :
      (target : VoiceTarget) (activation_id : String)
      → GatewayFits (loud g (press_ptt target activation_id g)).0
  unfolding press_ptt
  press-keeps target activation_id =
      if-keeps (λ o. GatewayFits (loud g o).0)
        (g.closed || not (is_idle g.ptt_state) || not (present g.prompt_sink)) h
        (record {
          ptt_fits = (refl, refl, refl, refl);
          speech_fits = interrupted-SpeechFits g.current_speech;
          queue_fits = h.queue_fits;
          closed_fits = h.closed_fits;
        })

  pub release-keeps :
      (target : Option VoiceTarget) (activation_id : String)
      → GatewayFits (answered g (release_ptt target activation_id g)).0
  unfolding release_ptt
  release-keeps target activation_id =
      let P : Option (Gateway × Bool) → Type 0 = λ o. GatewayFits (answered g o).0 in
      if-keeps P (if present target then activation_id == "" else not (activation_id == "")) h (
        if-cases P (is_idle g.ptt_state || not (present g.ptt_stop)) (λ _. h)
          (λ busy. if-keeps P (another target g) h (
            if-keeps P (not (activation_id == "") && not (g.ptt_activation_id == activation_id)) h
              (record {
                ptt_fits =
                    PttFits-released g.worker g.ptt_state g.ptt_target g.ptt_stop g.ptt_cancel
                      (or-false (is_idle g.ptt_state) (not (present g.ptt_stop)) busy).0 h.ptt_fits;
                speech_fits = h.speech_fits;
                queue_fits = h.queue_fits;
                closed_fits = h.closed_fits;
              }))))

  pub cancel-keeps : GatewayFits (cancel_ptt g)
  unfolding cancel_ptt
  cancel-keeps = if-keeps GatewayFits (is_idle g.ptt_state) h (record {
    ptt_fits =
        PttFits-set_flag g.worker g.ptt_state g.ptt_target g.ptt_stop g.ptt_cancel h.ptt_fits;
    speech_fits = h.speech_fits;
    queue_fits = h.queue_fits;
    closed_fits = h.closed_fits;
  })

  pub close-keeps : GatewayFits (close g)
  unfolding close
  close-keeps = if-keeps GatewayFits g.closed h (record {
    ptt_fits =
        PttFits-set_flag g.worker g.ptt_state g.ptt_target g.ptt_stop g.ptt_cancel h.ptt_fits;
    speech_fits =
        SpeechFits-set_flag g.player g.current_speech g.current_speech_cancel h.speech_fits;
    queue_fits = (omega arith, tt, tt);
    closed_fits = (refl, refl);
  })

  pub enqueue-keeps : (item : SpeechItem) → GatewayFits (quiet g (enqueue_speech item g)).0
  unfolding enqueue_speech
  enqueue-keeps item =
      let queue = g.speech_queue in
      let queued : QueuedSpeech = record { sequence = g.speech_sequence; item = item } in
      elim (Bool-cases (g.closed || leb g.max_speech_items (length queue))) [
        | inl refused ↦ rw refused h
        | inr accepted ↦
            let (still_open, room) = or-false g.closed _ accepted in
            rw accepted (record {
              ptt_fits = h.ptt_fits;
              speech_fits = h.speech_fits;
              queue_fits = (
                omega (
                  arith,
                  length-append queue (queued ∷ []),
                  not_leb→lt g.max_speech_items (length queue) room,
                ),
                All-append (λ q. q.sequence < g.speech_sequence + 1) queue (queued ∷ [])
                    (All-later g.speech_sequence queue h.queue_fits.1) (omega arith, tt),
                Rising-append queue queued h.queue_fits.1 h.queue_fits.2,
              );
              closed_fits = ClosedFits-open g.closed _ _ still_open;
            })
      ]

  select-ClosedFits :
      (test : QueuedSpeech → Bool) (closed : Bool) (queue : List QueuedSpeech)
      → ClosedFits closed queue g.prompt_sink
      → ClosedFits closed (select test queue) g.prompt_sink
  unfolding select
  select-ClosedFits test true queue fits = (ap (select test) fits.0, fits.1)
  select-ClosedFits test false queue fits = tt

  pub stop-keeps :
      (target : VoiceTarget) (speech_id : String) → GatewayFits (stop_speaking target speech_id g).0
  unfolding stop_speaking
  stop-keeps target speech_id =
      let kept : QueuedSpeech → Bool = λ q. not (stops target speech_id q.item) in
      let queue = g.speech_queue in
      record {
        ptt_fits = h.ptt_fits;
        speech_fits =
            if-keeps (SpeechFits g.player g.current_speech) (stops_current target speech_id g)
              (SpeechFits-set_flag g.player g.current_speech g.current_speech_cancel h.speech_fits)
              h.speech_fits;
        queue_fits = (
          omega (arith, length-select-le kept queue, h.queue_fits.0),
          All-select (λ q. q.sequence < g.speech_sequence) kept queue h.queue_fits.1,
          Rising-select kept queue h.queue_fits.2,
        );
        closed_fits = select-ClosedFits kept g.closed queue h.closed_fits;
      }

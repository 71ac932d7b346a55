-- ===== src/Gateway/Ends.antt =====
-- An activation of voice/deskhelm_voice/gateway.py ends: the capture thread's providers need only return.
use deskhelm.Prelude.{
  ℕ, Bool, true, not, ◌||◌, List, [], ◌∷◌, ◌++◌, all, ◌≡◌, refl, sym, subst, ap, ◌∙◌, if-keeps,
  and-true,
}
use deskhelm.Voice.Policy.{Transcript}
use deskhelm.Gateway.{Gateway, VoicePttState, Worker, Effect, is_set, new_gateway}
use deskhelm.Gateway.Ptt.{
  Returned, captured, transcribed, delivered, fail_ptt, finish_ptt, is_target,
}
use deskhelm.Gateway.Machine.{Call, capture_step, step, run_calls}
use deskhelm.Gateway.Invariant.{GatewayFits, PttFits}
use deskhelm.Gateway.Keeps.{run_calls-GatewayFits}
use deskhelm.Gateway.Still.{is_outside, step-Still}

-- How many returns an activation still waits for.
abbrev returns_left : Worker → ℕ
returns_left Worker.free = 0
returns_left (Worker.delivers t transcript) = 1
returns_left (Worker.transcribes t) = 2
returns_left (Worker.captures t) = 3

pub run_calls-append :
    (xs ys : List Call) (g : Gateway)
    → (run_calls (xs ++ ys) g).0 ≡ (run_calls ys (run_calls xs g).0).0
unfolding run_calls
run_calls-append [] ys g = refl
run_calls-append (x ∷ xs) ys g = run_calls-append xs ys (step x g).0

-- Calls from outside, other than a press, leave the capture thread where it stands.
worker-run_calls :
    (calls : List Call) (g : Gateway)
    → all is_outside calls ≡ true
    → (run_calls calls g).0.worker ≡ g.worker
unfolding run_calls all
worker-run_calls [] g h = refl
worker-run_calls (call ∷ calls) g h =
    let (this, rest) = and-true (is_outside call) (all is_outside calls) h in
    worker-run_calls calls (step call g).0 rest ∙ (step-Still g call this).0

-- Where an activation stands after its capture, and after its recognition.
abbrev AfterCapture : Worker → Type 0
AfterCapture (Worker.captures t) = ⊥
AfterCapture w = Unit

abbrev AfterAsr : Worker → Type 0
AfterAsr Worker.free = Unit
AfterAsr (Worker.delivers t transcript) = Unit
AfterAsr w = ⊥

captured-AfterCapture :
    (how : Returned (Unit {0})) (w : Worker) (g : Gateway)
    → g.worker ≡ w
    → AfterCapture (capture_step (Call.capture_returns how) w g).0.worker
unfolding capture_step captured fail_ptt finish_ptt
captured-AfterCapture (Returned.raised trouble) (Worker.captures target) g at = tt
captured-AfterCapture (Returned.returned audio) (Worker.captures target) g at =
    if-keeps (λ (o : Gateway × List Effect). AfterCapture o.0.worker)
      (is_set g.ptt_cancel || not (is_target g.ptt_target target)) tt tt
captured-AfterCapture how Worker.free g at = subst AfterCapture (sym at) tt
captured-AfterCapture how (Worker.transcribes t) g at = subst AfterCapture (sym at) tt
captured-AfterCapture how (Worker.delivers t transcript) g at = subst AfterCapture (sym at) tt

transcribed-AfterAsr :
    (how : Returned Transcript) (w : Worker) (g : Gateway)
    → g.worker ≡ w
    → AfterCapture w
    → AfterAsr (capture_step (Call.asr_returns how) w g).0.worker
unfolding capture_step transcribed fail_ptt finish_ptt
transcribed-AfterAsr how Worker.free g at h = subst AfterAsr (sym at) tt
transcribed-AfterAsr (Returned.raised trouble) (Worker.transcribes target) g at h = tt
transcribed-AfterAsr (Returned.returned transcript) (Worker.transcribes target) g at h =
    if-keeps (λ (o : Gateway × List Effect). AfterAsr o.0.worker) (is_set g.ptt_cancel) tt tt
transcribed-AfterAsr how (Worker.delivers t transcript) g at h = subst AfterAsr (sym at) tt
transcribed-AfterAsr how (Worker.captures t) g at h = elim h [ ]

delivered-free :
    (raises : Bool) (w : Worker) (g : Gateway)
    → g.worker ≡ w
    → AfterAsr w
    → (capture_step (Call.sink_returns raises) w g).0.worker ≡ Worker.free
unfolding capture_step delivered finish_ptt
delivered-free raises Worker.free g at h = at
delivered-free raises (Worker.delivers target transcript) g at h = refl
delivered-free raises (Worker.captures t) g at h = elim h [ ]
delivered-free raises (Worker.transcribes t) g at h = elim h [ ]

free-idle :
    (g : Gateway) → GatewayFits g → g.worker ≡ Worker.free → g.ptt_state ≡ VoicePttState.idle
free-idle g h at =
    (subst (λ w. PttFits w g.ptt_state g.ptt_target g.ptt_stop g.ptt_cancel) at h.ptt_fits).0

-- A step in the middle of a run.
run_calls-middle :
    (xs : List Call) (call : Call) (ys : List Call) (g : Gateway)
    → (run_calls (xs ++ (call ∷ ys)) g).0 ≡ (run_calls ys (step call (run_calls xs g).0).0).0
unfolding run_calls
run_calls-middle xs call ys g = run_calls-append xs (call ∷ ys) g

free-after :
    (g : Gateway) (second third : List Call) (audio : Returned (Unit {0}))
    (text : Returned Transcript) (raises : Bool)
    → all is_outside second ≡ true
    → all is_outside third ≡ true
    → let captured = (step (Call.capture_returns audio) g).0 in
      let transcribed = (step (Call.asr_returns text) (run_calls second captured).0).0 in
      (step (Call.sink_returns raises) (run_calls third transcribed).0).0.worker ≡ Worker.free
unfolding step
free-after g second third audio text raises hs ht =
    let one = (step (Call.capture_returns audio) g).0 in
    let two = (run_calls second one).0 in
    let three = (step (Call.asr_returns text) two).0 in
    let four = (run_calls third three).0 in
    let after_capture = captured-AfterCapture audio g.worker g refl in
    let after_asr =
      transcribed-AfterAsr text two.worker two refl
        (subst AfterCapture (sym (worker-run_calls second one hs)) after_capture) in
    delivered-free raises four.worker four refl
      (subst AfterAsr (sym (worker-run_calls third three ht)) after_asr)

-- Whatever a gateway has been through, its key is idle once its capture, its recogniser and its prompt
-- sink have returned one after the other, well or not, where no key is pressed and the playback
-- thread does not move in between; other calls may come meanwhile.
pub activation_ends :
    (max_speech_items : ℕ) (before second third : List Call) (audio : Returned (Unit {0}))
    (text : Returned Transcript) (raises : Bool)
    → all is_outside second ≡ true
    → all is_outside third ≡ true
    → (run_calls
        (before
          ++ (Call.capture_returns audio
              ∷ (second ++ (Call.asr_returns text ∷ (third ++ (Call.sink_returns raises ∷ []))))))
        (new_gateway max_speech_items)).0.ptt_state
      ≡ VoicePttState.idle
unfolding run_calls
activation_ends max_speech_items before second third audio text raises hs ht =
    let start = new_gateway max_speech_items in
    let g = (run_calls before start).0 in
    let last = Call.sink_returns raises ∷ [] in
    let later = second ++ (Call.asr_returns text ∷ (third ++ last)) in
    let one = (step (Call.capture_returns audio) g).0 in
    let three = (step (Call.asr_returns text) (run_calls second one).0).0 in
    let whole =
      run_calls-middle before (Call.capture_returns audio) later start
      ∙ run_calls-middle second (Call.asr_returns text) (third ++ last) one
      ∙ run_calls-middle third (Call.sink_returns raises) [] three in
    free-idle _
      (run_calls-GatewayFits max_speech_items (before ++ (Call.capture_returns audio ∷ later)))
      (ap (λ (g : Gateway). g.worker) whole ∙ free-after g second third audio text raises hs ht)

-- ===== src/Gateway/Invariant.antt =====
-- What holds of `VoiceGateway` in voice/deskhelm_voice/gateway.py between two steps, whatever the order in
-- which calls and threads come.
use deskhelm.Prelude.{
  ℕ, ◌≤◌, ◌<◌, Bool, true, false, List, [], ◌∷◌, Option, none, some, present, length, All, ◌≡◌,
  refl, ap, ◌∙◌, arith, beq_refl, string_eq,
}
use deskhelm.Voice.Policy.{VoiceTarget}
use deskhelm.Gateway.{
  Gateway, VoicePttState, Worker, Player, SpeechItem, QueuedSpeech, new_gateway, set_flag,
}
use deskhelm.Gateway.Ptt.{is_idle, same_target, is_target}

-- The state of the keys agrees with where the capture thread stands.
abbrev pub Active :
    VoicePttState
    → VoiceTarget
    → VoicePttState
    → Option VoiceTarget
    → Option Bool
    → Option Bool
    → Type 0
Active expected t state target stop cancel =
    (state ≡ expected) × (target ≡ some t) × (present stop ≡ true) × (present cancel ≡ true)

abbrev pub PttFits :
    Worker → VoicePttState → Option VoiceTarget → Option Bool → Option Bool → Type 0
PttFits Worker.free state target stop cancel =
    (state ≡ VoicePttState.idle) × (target ≡ none) × (stop ≡ none) × (cancel ≡ none)
PttFits (Worker.captures t) state target stop cancel =
    Active VoicePttState.capturing t state target stop cancel
PttFits (Worker.transcribes t) state target stop cancel =
    Active VoicePttState.transcribing t state target stop cancel
PttFits (Worker.delivers t transcript) state target stop cancel =
    Active VoicePttState.transcribing t state target stop cancel

-- There is a current item exactly while the playback thread has one, and it can be cancelled.
abbrev pub SpeechFits : Player → Option SpeechItem → Option Bool → Type 0
SpeechFits Player.waits current cancel = (current ≡ none) × (cancel ≡ none)
SpeechFits (Player.synthesizes item) current cancel =
    (current ≡ some item) × (present cancel ≡ true)
SpeechFits (Player.plays item) current cancel = (current ≡ some item) × (present cancel ≡ true)
SpeechFits Player.ended current cancel = (current ≡ none) × (cancel ≡ none)

-- The sequences of the queue rise.
abbrev pub Rising : List QueuedSpeech → Type 0
Rising [] = Unit
Rising (q ∷ qs) = All (λ r. q.sequence < r.sequence) qs × Rising qs

abbrev pub QueueFits : ℕ → ℕ → List QueuedSpeech → Type 0
QueueFits capacity next queue =
    (length queue ≤ capacity) × All (λ q. q.sequence < next) queue × Rising queue

abbrev pub ClosedFits : Bool → List QueuedSpeech → Option ℕ → Type 0
ClosedFits false queue sink = Unit
ClosedFits true queue sink = (queue ≡ []) × (sink ≡ none)

pub record GatewayFits (g : Gateway) : Type 0 where
  pub ptt_fits : PttFits g.worker g.ptt_state g.ptt_target g.ptt_stop g.ptt_cancel
  pub speech_fits : SpeechFits g.player g.current_speech g.current_speech_cancel
  pub queue_fits : QueueFits g.max_speech_items g.speech_sequence g.speech_queue
  pub closed_fits : ClosedFits g.closed g.speech_queue g.prompt_sink

pub new_gateway-GatewayFits : (max_speech_items : ℕ) → GatewayFits (new_gateway max_speech_items)
unfolding new_gateway
new_gateway-GatewayFits max_speech_items = record {
  ptt_fits = (refl, refl, refl, refl);
  speech_fits = (refl, refl);
  queue_fits = (omega arith, tt, tt);
  closed_fits = tt;
}

present-set_flag : (flag : Option Bool) → present (set_flag flag) ≡ present flag
present-set_flag none = refl
present-set_flag (some flag) = refl

-- Setting the flags changes none of this.
pub PttFits-set_flag :
    (w : Worker) (state : VoicePttState) (target : Option VoiceTarget) (stop cancel : Option Bool)
    → PttFits w state target stop cancel
    → PttFits w state target (set_flag stop) (set_flag cancel)
PttFits-set_flag Worker.free state target stop cancel h =
    (h.0, h.1, ap set_flag h.2, ap set_flag h.3)
PttFits-set_flag (Worker.captures t) state target stop cancel h =
    (h.0, h.1, present-set_flag stop ∙ h.2, present-set_flag cancel ∙ h.3)
PttFits-set_flag (Worker.transcribes t) state target stop cancel h =
    (h.0, h.1, present-set_flag stop ∙ h.2, present-set_flag cancel ∙ h.3)
PttFits-set_flag (Worker.delivers t transcript) state target stop cancel h =
    (h.0, h.1, present-set_flag stop ∙ h.2, present-set_flag cancel ∙ h.3)

-- A release is taken only while the thread is at work.
pub PttFits-released :
    (w : Worker) (state : VoicePttState) (target : Option VoiceTarget) (stop cancel : Option Bool)
    → is_idle state ≡ false
    → PttFits w state target stop cancel
    → PttFits w state target (some true) cancel
unfolding is_idle
PttFits-released Worker.free state target stop cancel busy h = cc (busy, ap is_idle h.0)
PttFits-released (Worker.captures t) state target stop cancel busy h = (h.0, h.1, refl, h.3)
PttFits-released (Worker.transcribes t) state target stop cancel busy h = (h.0, h.1, refl, h.3)
PttFits-released (Worker.delivers t transcript) state target stop cancel busy h =
    (h.0, h.1, refl, h.3)

-- Where no key is pressed, the thread has nothing to do.
pub idle-free :
    (w : Worker) (state : VoicePttState) (target : Option VoiceTarget) (stop cancel : Option Bool)
    → is_idle state ≡ true
    → PttFits w state target stop cancel
    → w ≡ Worker.free
unfolding is_idle
idle-free Worker.free state target stop cancel idle h = refl
idle-free (Worker.captures t) state target stop cancel idle h = cc (idle, ap is_idle h.0)
idle-free (Worker.transcribes t) state target stop cancel idle h = cc (idle, ap is_idle h.0)
idle-free (Worker.delivers t transcript) state target stop cancel idle h = cc (idle, ap is_idle h.0)

pub SpeechFits-set_flag :
    (p : Player) (current : Option SpeechItem) (cancel : Option Bool)
    → SpeechFits p current cancel
    → SpeechFits p current (set_flag cancel)
SpeechFits-set_flag Player.waits current cancel h = (h.0, ap set_flag h.1)
SpeechFits-set_flag (Player.synthesizes item) current cancel h =
    (h.0, present-set_flag cancel ∙ h.1)
SpeechFits-set_flag (Player.plays item) current cancel h = (h.0, present-set_flag cancel ∙ h.1)
SpeechFits-set_flag Player.ended current cancel h = (h.0, ap set_flag h.1)

pub ClosedFits-open :
    (closed : Bool) (queue : List QueuedSpeech) (sink : Option ℕ)
    → closed ≡ false
    → ClosedFits closed queue sink
ClosedFits-open true queue sink h = cc
ClosedFits-open false queue sink h = tt

pub same_target_refl : (t : VoiceTarget) → same_target t t ≡ true
unfolding same_target
same_target_refl t = rw (beq_refl t.agent_id, beq_refl t.session_id, beq_refl t.project_id) refl

pub is_target_self :
    (target : Option VoiceTarget) (t : VoiceTarget) → target ≡ some t → is_target target t ≡ true
unfolding is_target
is_target_self target t h = rw (h, is_target) (same_target_refl t)

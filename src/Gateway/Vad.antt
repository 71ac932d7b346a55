-- ===== src/Gateway/Vad.antt =====
-- The voice activity of `VoiceGateway` in voice/deskhelm_voice/gateway.py: which events of the detector are
-- passed on. A frame is never negative, so 0 stands for the -1 that the last frame starts with.
use deskhelm.Prelude.{
  ℕ, ◌+◌, Bool, true, false, not, ◌&&◌, ◌||◌, List, [], ◌∷◌, ◌++◌, Option, none, some, length, map,
  ltb, leb, present, if◌then◌else◌,
}
use deskhelm.Voice.Policy.{VoiceTarget}
use deskhelm.Gateway.{VoiceEventKind, Effect, plain_event}

pub data VadEventKind : Type 0 where
  speech_started speech_ended : VadEventKind

pub record VadEvent : Type 0 where
  pub kind : VadEventKind
  pub frame_index : ℕ

abbrev pub max_vad_events : ℕ
max_vad_events = 256

-- `_VadObservation`; `session` says that a session is open.
pub record VadObservation : Type 0 where
  pub session : Bool
  pub attempted : Bool
  pub failed : Bool
  pub event_count : ℕ
  pub last_frame : ℕ
  pub active_start : Option ℕ

unfoldable pub new_observation : VadObservation
new_observation = record {
  session = false;
  attempted = false;
  failed = false;
  event_count = 0;
  last_frame = 0;
  active_start = none;
}

-- Where the speech stands: the last frame, and the start of what is being said.
pub record Activity : Type 0 where
  pub last_frame : ℕ
  pub active_start : Option ℕ

-- The start of what is being said after an event of the right kind, and what it is passed on as.
unfoldable pub turn : VadEventKind → ℕ → Option ℕ → Option (Option ℕ × VoiceEventKind)
turn VadEventKind.speech_started frame none = some (some frame, VoiceEventKind.input_speech_started)
turn VadEventKind.speech_ended frame (some start) =
    if leb frame start then none else some (none, VoiceEventKind.input_speech_ended)
turn kind frame active = none

-- The loop over the events, or `none` for a raised error.
unfoldable pub validate :
    ℕ → List VadEvent → Activity → Option (Activity × List (VoiceEventKind × ℕ))
unfolding turn
validate available [] a = some (a, [])
validate available (event ∷ events) a =
    let frame = event.frame_index in
    if ltb frame a.last_frame || ltb available frame
    then none
    else elim (turn event.kind frame a.active_start) [
      | none ↦ none
      | some turned ↦
          elim (validate available events
            (record { last_frame = frame; active_start = turned.0 })) [
              | none ↦ none
              | some rest ↦ some (rest.0, (turned.1, frame) ∷ rest.1)
            ]
    ]

unfoldable pub vad_effect : VoiceTarget → VoiceEventKind × ℕ → Effect
vad_effect target validated =
    Effect.emits (record (plain_event validated.0 target) { audio_frame_index = some validated.1 })

abbrev pub activity : VadObservation → Activity
activity state = record { last_frame = state.last_frame; active_start = state.active_start }

-- The state after the events, with what is emitted.
unfoldable pub pass_on :
    VoiceTarget
    → VadObservation
    → Activity × List (VoiceEventKind × ℕ)
    → VadObservation × List Effect
unfolding vad_effect
pass_on target state passed = (
  record state {
    last_frame = passed.0.last_frame;
    active_start = passed.0.active_start;
    event_count = state.event_count + length passed.1;
  },
  map (vad_effect target) passed.1,
)

-- `_emit_vad_events`
unfoldable pub emit_vad_events :
    VoiceTarget → VadObservation → List VadEvent → ℕ → Bool → Option (VadObservation × List Effect)
unfolding validate pass_on
emit_vad_events target state events available require_closed =
    if ltb max_vad_events (state.event_count + length events)
    then none
    else elim (validate available events (activity state)) [
      | none ↦ none
      | some passed ↦
          if require_closed && present passed.0.active_start
          then none
          else some (pass_on target state passed)
    ]

-- `_emit_vad_failure`
unfoldable pub vad_failure : VoiceTarget → Effect
vad_failure target =
    Effect.emits (record (plain_event VoiceEventKind.input_activity_failed target) {
      error_code = "voice_vad_failed";
    })

-- `_disable_vad`
unfoldable pub disable_vad : VoiceTarget → VadObservation → VadObservation × List Effect
unfolding vad_failure
disable_vad target state =
    if state.failed
    then (state, [])
    else (record state { failed = true; session = false }, vad_failure target ∷ [])

-- How a call of the detector came back; `cancelled` ends the capture.
pub data Detected {ℓ} (A : Type ℓ) : Type ℓ where
  found : A → Detected A
  broken : Detected A
  cancelled : Detected A

-- The events of a call, or the end of the detector; `none` is a raised `VoiceCancelled`.
unfoldable pub detected :
    VoiceTarget
    → VadObservation
    → Detected (List VadEvent)
    → ℕ
    → Bool
    → Option (VadObservation × List Effect)
unfolding emit_vad_events disable_vad
detected target state (Detected.found events) available closed =
    elim (emit_vad_events target state events available closed) [
      | none ↦ some (disable_vad target state)
      | some passed ↦ some passed
    ]
detected target state Detected.broken available closed = some (disable_vad target state)
detected target state Detected.cancelled available closed = none

-- `open_session`, on the first chunk only.
unfoldable pub open_session :
    VoiceTarget → VadObservation → Detected (Unit {0}) → Option (VadObservation × List Effect)
unfolding disable_vad
open_session target state (Detected.found session) =
    some (if state.attempted then state else record state { attempted = true; session = true }, [])
open_session target state Detected.broken =
    if state.attempted
    then some (state, [])
    else some (disable_vad target (record state { attempted = true }))
open_session target state Detected.cancelled = if state.attempted then some (state, []) else none

-- `_observe_vad_chunk`, where there is a detector (`provided`).
unfoldable pub observe_chunk :
    Bool
    → VoiceTarget
    → VadObservation
    → Detected (Unit {0})
    → Detected (List VadEvent)
    → ℕ
    → Option (VadObservation × List Effect)
unfolding open_session detected
observe_chunk provided target state opening events end_frame =
    if not provided || state.failed
    then some (state, [])
    else elim (open_session target state opening) [
      | none ↦ none
      | some opened ↦
          if opened.0.session
          then (elim (detected target opened.0 events end_frame false) [
            | none ↦ none
            | some seen ↦ some (seen.0, opened.1 ++ seen.1)
          ])
          else some opened
    ]

-- `_finish_vad`
unfoldable pub finish_vad :
    VoiceTarget
    → VadObservation
    → Detected (List VadEvent)
    → ℕ
    → Option (VadObservation × List Effect)
unfolding detected
finish_vad target state events available =
    if not state.session || state.failed
    then some (state, [])
    else detected target state events available true

-- What a capture asks of its detector: at a chunk, at the end of the stream, and at the exit of the
-- session. Each comes with the observation as it stands, which only the capture keeps.
pub data Observed : Type 0 where
  chunk : Bool → VadObservation → Detected (Unit {0}) → Detected (List VadEvent) → ℕ → Observed
  finish : VadObservation → Detected (List VadEvent) → ℕ → Observed
  exit : VadObservation → Detected (Unit {0}) → Observed

-- `_close_vad_session`
unfoldable pub close_session :
    VoiceTarget → VadObservation → Detected (Unit {0}) → VadObservation × List Effect
unfolding disable_vad
close_session target state Detected.broken = disable_vad target state
close_session target state how = (state, [])

-- What is emitted, up to a `VoiceCancelled` that ends the capture.
unfoldable pub effects_of : Option (VadObservation × List Effect) → List Effect
effects_of none = []
effects_of (some seen) = seen.1

unfoldable pub observed : VoiceTarget → Observed → List Effect
unfolding observe_chunk finish_vad close_session effects_of
observed target (Observed.chunk provided state opening events end_frame) =
    effects_of (observe_chunk provided target state opening events end_frame)
observed target (Observed.finish state events available) =
    effects_of (finish_vad target state events available)
observed target (Observed.exit state how) = (close_session target state how).1

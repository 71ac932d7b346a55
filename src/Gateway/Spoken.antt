-- ===== src/Gateway/Spoken.antt =====
-- Which voice activity voice/deskhelm_voice/gateway.py passes on.
use deskhelm.Prelude.{
  ℕ, ◌+◌, ◌≤◌, ◌<◌, Bool, true, false, ◌&&◌, ◌||◌, List, [], ◌∷◌, Option, none, some, length, map,
  ltb, leb, present, ◌≡◌, ◌↔◌, inl, inr, refl, sym, ap, subst, ◌∙◌, arith, Bool-cases, Option-cases,
  not_ltb→le, not_leb→lt, some-injective,
}
use deskhelm.Voice.Policy.{VoiceTarget}
use deskhelm.Gateway.{VoiceEventKind, Effect, plain_event}
use deskhelm.Gateway.Vad.{
  VadEventKind, VadEvent, VadObservation, Activity, turn, validate, activity, pass_on,
  emit_vad_events, max_vad_events, vad_effect,
}

-- Speech that starts and ends in turn, in frames that do not fall and are at hand, where no speech
-- ends before the frame after its start.
pub data Spoken (available : ℕ) : Activity → List VadEvent → Activity → Type 0 where
  silence : {a : Activity} → Spoken available a [] a
  starts :
      {last frame : ℕ} {rest : List VadEvent} {b : Activity}
      → last ≤ frame
      → frame ≤ available
      → Spoken available (record { last_frame = frame; active_start = some frame }) rest b
      → Spoken available
          (record { last_frame = last; active_start = none })
          (record { kind = VadEventKind.speech_started; frame_index = frame } ∷ rest)
          b
  ends :
      {last start frame : ℕ} {rest : List VadEvent} {b : Activity}
      → last ≤ frame
      → frame ≤ available
      → start < frame
      → Spoken available (record { last_frame = frame; active_start = none }) rest b
      → Spoken available
          (record { last_frame = last; active_start = some start })
          (record { kind = VadEventKind.speech_ended; frame_index = frame } ∷ rest)
          b

-- What an event of the detector is passed on as.
unfoldable pub heard_as : VadEvent → VoiceEventKind × ℕ
heard_as event = (
  elim event.kind [
    | VadEventKind.speech_started ↦ VoiceEventKind.input_speech_started
    | VadEventKind.speech_ended ↦ VoiceEventKind.input_speech_ended
  ],
  event.frame_index,
)

in_range :
    (frame last available : ℕ)
    → (ltb frame last || ltb available frame) ≡ false
    → (last ≤ frame) × (frame ≤ available)
in_range frame last available h = (ground arith, ground arith)

within :
    (frame last available : ℕ)
    → last ≤ frame
    → frame ≤ available
    → (ltb frame last || ltb available frame) ≡ false
within frame last available h k = ground arith

-- One turn before what is spoken then.
Spoken-turn :
    (kind : VadEventKind) (active : Option ℕ) (available frame last : ℕ)
    {turned : Option ℕ × VoiceEventKind} {rest : List VadEvent} {b : Activity}
    → turn kind frame active ≡ some turned
    → (last ≤ frame) × (frame ≤ available)
    → Spoken available (record { last_frame = frame; active_start = turned.0 }) rest b
    → Spoken available
        (record { last_frame = last; active_start = active })
        (record { kind = kind; frame_index = frame } ∷ rest)
        b
      × (turned.1 ≡ (heard_as (record { kind = kind; frame_index = frame })).0)
unfolding turn heard_as
Spoken-turn VadEventKind.speech_started none available frame last {turned} {rest} {b} h range said =
    let same = some-injective h in
    (
      Spoken.starts range.0 range.1 (
          subst (λ s. Spoken available (record { last_frame = frame; active_start = s }) rest b)
            (ap (λ (t : Option ℕ × VoiceEventKind). t.0) (sym same)) said),
      ap (λ (t : Option ℕ × VoiceEventKind). t.1) (sym same),
    )
Spoken-turn VadEventKind.speech_started (some start) available frame last h range said = cc
Spoken-turn VadEventKind.speech_ended none available frame last h range said = cc
Spoken-turn VadEventKind.speech_ended (some start) available frame last {turned} {rest} {b} h range
      said =
    elim (Bool-cases (leb frame start)) [
      | inl early ↦ cc (rw early at h)
      | inr late ↦
          let same = some-injective (rw late at h) in
          (
            Spoken.ends range.0 range.1 (not_leb→lt frame start late) (
                subst
                  (λ s. Spoken available (record { last_frame = frame; active_start = s }) rest b)
                  (ap (λ (t : Option ℕ × VoiceEventKind). t.0) (sym same)) said),
            ap (λ (t : Option ℕ × VoiceEventKind). t.1) (sym same),
          )
    ]

validate-Spoken :
    (available : ℕ) (events : List VadEvent) (a : Activity)
    (passed : Activity × List (VoiceEventKind × ℕ))
    → validate available events a ≡ some passed
    → Spoken available a events passed.0 × (passed.1 ≡ map heard_as events)
unfolding validate heard_as
validate-Spoken available [] a passed h =
    let same = some-injective h in
    (
      subst (λ (p : Activity × List (VoiceEventKind × ℕ)). Spoken available a [] p.0) same
          Spoken.silence,
      ap (λ (p : Activity × List (VoiceEventKind × ℕ)). p.1) (sym same),
    )
validate-Spoken available (event ∷ events) a passed h =
    let frame = event.frame_index in
    elim (Bool-cases (ltb frame a.last_frame || ltb available frame)) [
      | inl outside ↦ cc (rw outside at h)
      | inr inside ↦ elim (Option-cases (turn event.kind frame a.active_start)) [
        | inl wrong ↦ cc (rw (inside, wrong) at h)
        | inr (turned, t) ↦
            let next : Activity = record { last_frame = frame; active_start = turned.0 } in
            elim (Option-cases (validate available events next)) [
              | inl later ↦ cc (rw (inside, t, later) at h)
              | inr (more, m) ↦
                  let same = some-injective (rw (inside, t, m) at h) in
                  let (said, passed_on) = validate-Spoken available events next more m in
                  let (spoken, kind) =
                    Spoken-turn event.kind a.active_start available frame a.last_frame t
                      (in_range frame a.last_frame available inside) said in
                  (
                    subst
                        (λ (p : Activity × List (VoiceEventKind × ℕ)).
                          Spoken available a (event ∷ events) p.0)
                        same spoken,
                    ap (λ (p : Activity × List (VoiceEventKind × ℕ)). p.1) (sym same)
                        ∙ ap (λ k. (k, frame) ∷ more.1) kind
                        ∙ ap (λ es. heard_as event ∷ es) passed_on,
                  )
            ]
      ]
    ]

Spoken-validate :
    (available : ℕ) (events : List VadEvent) (a b : Activity)
    → Spoken available a events b
    → validate available events a ≡ some (b, map heard_as events)
unfolding validate turn heard_as
Spoken-validate available [] a b Spoken.silence = refl
Spoken-validate available (event ∷ events) a b
      (Spoken.starts {last = last} {frame = frame} le at said) =
    rw (within frame last available le at, Spoken-validate available events _ b said) refl
Spoken-validate available (event ∷ events) a b
      (Spoken.ends {last = last} {start = start} {frame = frame} le at later said) =
    rw
      (
        within frame last available le at,
        not_early frame start later,
        Spoken-validate available events _ b said,
      )
      refl
  where
    not_early : (frame start : ℕ) → start < frame → leb frame start ≡ false
    not_early frame start h = ground arith

-- What a listener gets of an event of the detector.
abbrev pub told : VoiceTarget → VadEvent → Effect
told target event =
    Effect.emits (record (plain_event (heard_as event).0 target) {
      audio_frame_index = some event.frame_index;
    })

-- What must hold of the events of a call, and what the call leaves and emits then.
pub record Passes (target : VoiceTarget) (state : VadObservation) (events : List VadEvent)
    (available : ℕ) (closed : Bool) (after : VadObservation) (effects : List Effect) : Type 0 where
  pub spoken : Spoken available (activity state) events (activity after)
  pub few : state.event_count + length events ≤ 256
  pub over : closed ≡ true → after.active_start ≡ none
  pub counted : after.event_count ≡ state.event_count + length events
  pub same_session : after.session ≡ state.session
  pub same_attempt : after.attempted ≡ state.attempted
  pub same_failure : after.failed ≡ state.failed
  pub all_told : effects ≡ map (told target) events

not_above : (m n : ℕ) → m ≤ n → ltb n m ≡ false
not_above m n h = ground arith

map-told :
    (target : VoiceTarget) (events : List VadEvent)
    → map (vad_effect target) (map heard_as events) ≡ map (told target) events
unfolding vad_effect heard_as
map-told target [] = refl
map-told target (event ∷ events) = ap (◌∷◌ (told target event)) (map-told target events)

length-map_heard : (events : List VadEvent) → length (map heard_as events) ≡ length events
length-map_heard [] = refl
length-map_heard (event ∷ events) = omega (arith, length-map_heard events)

over-none :
    (closed : Bool) (start : Option ℕ)
    → (closed && present start) ≡ false
    → closed ≡ true
    → start ≡ none
over-none true none h q = refl
over-none true (some n) h q = cc
over-none false start h q = cc

none-over :
    (closed : Bool) (start : Option ℕ)
    → (closed ≡ true → start ≡ none)
    → (closed && present start) ≡ false
none-over true start h = rw (h refl) refl
none-over false start h = refl

pass_on-Passes :
    (target : VoiceTarget) (state : VadObservation) (events : List VadEvent) (available : ℕ)
    (closed : Bool) (b : Activity)
    → Spoken available (activity state) events b
    → state.event_count + length events ≤ 256
    → (closed && present b.active_start) ≡ false
    → let out = pass_on target state (b, map heard_as events) in
      Passes target state events available closed out.0 out.1
unfolding pass_on
pass_on-Passes target state events available closed b said few silent = record {
  spoken = said;
  few = few;
  over = over-none closed b.active_start silent;
  counted = ap (λ n. state.event_count + n) (length-map_heard events);
  same_session = refl;
  same_attempt = refl;
  same_failure = refl;
  all_told = map-told target events;
}

Passes-pass_on :
    (target : VoiceTarget) (state : VadObservation) (events : List VadEvent) (available : ℕ)
    (closed : Bool) (after : VadObservation) (effects : List Effect)
    → Passes target state events available closed after effects
    → pass_on target state (activity after, map heard_as events) ≡ (after, effects)
unfolding pass_on
Passes-pass_on target state events available closed after effects h =
    rw
      (
        map-told target events,
        length-map_heard events,
        sym h.counted,
        sym h.same_session,
        sym h.same_attempt,
        sym h.same_failure,
        sym h.all_told,
      )
      refl

-- The events of the detector are passed on exactly if they are speech that starts and ends in turn
-- from where it stood, in frames that do not fall and are at hand, they and those counted before are
-- 256 at most, and no speech is still going on after them if none may. They are then all emitted in
-- their order, each with its frame, and counted, and where the speech stands is remembered;
-- otherwise nothing is emitted.
pub emit_vad_events-Passes :
    (target : VoiceTarget) (state : VadObservation) (events : List VadEvent) (available : ℕ)
    (closed : Bool) (after : VadObservation) (effects : List Effect)
    → (emit_vad_events target state events available closed ≡ some (after, effects))
      ↔ Passes target state events available closed after effects
unfolding emit_vad_events
emit_vad_events-Passes target state events available closed after effects = (accepted, accepts)
  where
    accepted :
        emit_vad_events target state events available closed ≡ some (after, effects)
        → Passes target state events available closed after effects
    accepted h = elim (Bool-cases (ltb max_vad_events (state.event_count + length events))) [
      | inl many ↦ cc (rw many at h)
      | inr few ↦ elim (Option-cases (validate available events (activity state))) [
        | inl wrong ↦ cc (rw (few, wrong) at h)
        | inr (passed, v) ↦ elim (Bool-cases (closed && present passed.0.active_start)) [
          | inl speaking ↦ cc (rw (few, v, speaking) at h)
          | inr silent ↦
              let (said, all_of_them) =
                validate-Spoken available events (activity state) passed v in
              subst
                (λ (out : VadObservation × List Effect).
                  Passes target state events available closed out.0 out.1)
                (ap (λ es. pass_on target state (passed.0, es)) (sym all_of_them)
                  ∙ some-injective (rw (few, v, silent) at h))
                (pass_on-Passes target state events available closed passed.0 said
                  (not_ltb→le max_vad_events (state.event_count + length events) few) silent)
        ]
      ]
    ]

    accepts :
        Passes target state events available closed after effects
        → emit_vad_events target state events available closed ≡ some (after, effects)
    accepts h =
        rw
          (
            not_above (state.event_count + length events) max_vad_events h.few,
            Spoken-validate available events (activity state) (activity after) h.spoken,
            none-over closed after.active_start h.over,
          )
          (ap some (Passes-pass_on target state events available closed after effects h))

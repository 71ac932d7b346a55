-- ===== src/Gateway/Overheard.antt =====
-- Whatever the detector of a capture does, voice/deskhelm_voice/gateway.py emits only voice activity of the
-- capture's target.
use deskhelm.Prelude.{
  ℕ, Bool, true, false, not, ◌||◌, List, [], ◌∷◌, Option, All, All-append, map, sym, subst,
  if-keeps, inl, inr, Option-cases,
}
use deskhelm.Voice.Policy.{VoiceTarget}
use deskhelm.Gateway.{Effect}
use deskhelm.Gateway.Vad.{
  VadEventKind, VadEvent, VadObservation, Detected, vad_failure, emit_vad_events, disable_vad,
  detected, open_session, observe_chunk, finish_vad, Observed, close_session, effects_of, observed,
}
use deskhelm.Gateway.Spoken.{told, heard_as, emit_vad_events-Passes}
use deskhelm.Gateway.Protocol.{Overheard}

module _ (target : VoiceTarget) where
  abbrev Quiet : Option (VadObservation × List Effect) → Type 0
  Quiet out = All (Overheard target) (effects_of out)

  told-Overheard : (event : VadEvent) → Overheard target (told target event)
  unfolding heard_as
  told-Overheard event = by_kind event.kind event.frame_index
    where
      by_kind :
          (kind : VadEventKind) (frame : ℕ)
          → Overheard target (told target (record { kind = kind; frame_index = frame }))
      by_kind VadEventKind.speech_started frame = Overheard.starts frame
      by_kind VadEventKind.speech_ended frame = Overheard.ends frame

  map_told-Overheard : (events : List VadEvent) → All (Overheard target) (map (told target) events)
  map_told-Overheard [] = tt
  map_told-Overheard (event ∷ events) = (told-Overheard event, map_told-Overheard events)

  disable_vad-Overheard :
      (state : VadObservation) → All (Overheard target) (disable_vad target state).1
  unfolding disable_vad vad_failure
  disable_vad-Overheard state =
      if-keeps (λ (out : VadObservation × List Effect). All (Overheard target) out.1) state.failed
        tt (Overheard.fails, tt)

  detected-Overheard :
      (state : VadObservation) (how : Detected (List VadEvent)) (available : ℕ) (closed : Bool)
      → Quiet (detected target state how available closed)
  unfolding detected effects_of
  detected-Overheard state (Detected.found events) available closed =
      elim (Option-cases (emit_vad_events target state events available closed)) [
        | inl wrong ↦ rw (wrong, detected) (disable_vad-Overheard state)
        | inr (out, passed) ↦
            let passes =
              (emit_vad_events-Passes target state events available closed out.0 out.1).0 passed in
            rw (passed, detected)
              (subst (All (Overheard target)) (sym passes.all_told) (map_told-Overheard events))
      ]
  detected-Overheard state Detected.broken available closed = disable_vad-Overheard state
  detected-Overheard state Detected.cancelled available closed = tt

  open_session-Overheard :
      (state : VadObservation) (opening : Detected (Unit {0}))
      → Quiet (open_session target state opening)
  unfolding open_session effects_of
  open_session-Overheard state (Detected.found session) = tt
  open_session-Overheard state Detected.broken =
      if-keeps Quiet state.attempted tt (disable_vad-Overheard _)
  open_session-Overheard state Detected.cancelled = if-keeps Quiet state.attempted tt tt

  observe_chunk-Overheard :
      (provided : Bool) (state : VadObservation) (opening : Detected (Unit {0}))
      (how : Detected (List VadEvent)) (end_frame : ℕ)
      → Quiet (observe_chunk provided target state opening how end_frame)
  unfolding observe_chunk effects_of
  observe_chunk-Overheard provided state opening how end_frame =
      if-keeps Quiet (not provided || state.failed) tt
        (elim (Option-cases (open_session target state opening)) [
          | inl cancelled ↦ rw (cancelled, observe_chunk) tt
          | inr (opened, o) ↦
              let first : All (Overheard target) opened.1 =
                subst Quiet o (open_session-Overheard state opening) in
              rw (o, observe_chunk)
                (if-keeps Quiet opened.0.session
                  (elim (Option-cases (detected target opened.0 how end_frame false)) [
                    | inl cancelled ↦ rw (cancelled, observe_chunk) tt
                    | inr (seen, s) ↦
                        rw (s, observe_chunk)
                          (All-append (Overheard target) opened.1 seen.1 first
                            (subst Quiet s (detected-Overheard opened.0 how end_frame false)))
                  ])
                  first)
        ])

  pub observed-Overheard : (seen : Observed) → All (Overheard target) (observed target seen)
  unfolding observed finish_vad close_session effects_of
  observed-Overheard (Observed.chunk provided state opening how end_frame) =
      observe_chunk-Overheard provided state opening how end_frame
  observed-Overheard (Observed.finish state how available) =
      if-keeps Quiet (not state.session || state.failed) tt
        (detected-Overheard state how available true)
  observed-Overheard (Observed.exit state Detected.broken) = disable_vad-Overheard state
  observed-Overheard (Observed.exit state (Detected.found session)) = tt
  observed-Overheard (Observed.exit state Detected.cancelled) = tt

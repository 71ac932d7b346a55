-- ===== src/Gateway/Waiting.antt =====
-- The wait for the recogniser in voice/deskhelm_voice/gateway.py ends.
use deskhelm.Prelude.{
  true, false, List, [], ◌∷◌, ◌++◌, present, ◌≡◌, refl, Bool-cases, inl, inr, Option-cases,
}
use deskhelm.Gateway.Ptt.{Poll, transcribe_with_timeout}

-- Where the deadline has passed at some round, the wait has ended by then, whatever the recogniser
-- does: with its answer, with a cancellation, or with the timeout.
pub transcribe_with_timeout-ends :
    (before after : List Poll) (late : Poll)
    → late.time_left ≡ false
    → present (transcribe_with_timeout (before ++ (late ∷ after))) ≡ true
unfolding transcribe_with_timeout
transcribe_with_timeout-ends [] after late h = elim (Bool-cases late.is_cancelled) [
  | inl stopped ↦ rw stopped refl
  | inr going ↦ rw (going, h) refl
]
transcribe_with_timeout-ends (poll ∷ before) after late h = elim (Bool-cases poll.is_cancelled) [
  | inl stopped ↦ rw stopped refl
  | inr going ↦ elim (Bool-cases poll.time_left) [
    | inl left ↦ elim (Option-cases poll.answer) [
      | inl silent ↦
          rw (going, left, transcribe_with_timeout, silent)
            (transcribe_with_timeout-ends before after late h)
      | inr (answer, spoken) ↦ rw (going, left, transcribe_with_timeout, spoken) refl
    ]
    | inr over ↦ rw (going, over) refl
  ]
]

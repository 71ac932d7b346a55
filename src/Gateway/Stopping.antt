-- ===== src/Gateway/Stopping.antt =====
-- What `stop_speaking` of voice/deskhelm_voice/gateway.py stops, and what it counts.
use deskhelm.Prelude.{
  ℕ, ◌+◌, String, Bool, true, false, not, ◌&&◌, List, [], ◌∷◌, Option, none, some, length, select,
  present, ◌≡◌, ◌≢◌, inl, inr, refl, sym, ap, subst, ◌∙◌, arith, Bool-cases, some-injective,
  string_eq, ◌==◌, and-true, if◌then◌else◌,
}
use deskhelm.Voice.Policy.{VoiceTarget}
use deskhelm.Gateway.{Gateway, SpeechItem, QueuedSpeech, set_flag}
use deskhelm.Gateway.Ptt.{same_target}
use deskhelm.Gateway.Invariant.{same_target_refl}
use deskhelm.Gateway.Speech.{stops, stops_current, stop_speaking}

-- The items that a call is about: the one with the id that it names, or, where it names none, each one
-- that may be interrupted; only of its target.
pub data IsMeant (target : VoiceTarget) (speech_id : String) (item : SpeechItem) : Type 0 where
  named :
      item.target ≡ target
      → speech_id ≢ ""
      → item.speech_id ≡ speech_id
      → IsMeant target speech_id item
  every :
      item.target ≡ target
      → speech_id ≡ ""
      → item.interruptible ≡ true
      → IsMeant target speech_id item

-- The queue without so many items that are meant; the others stay, in their order.
pub data Leaves (target : VoiceTarget) (speech_id : String)
    : List QueuedSpeech → List QueuedSpeech → ℕ → Type 0 where
  nothing : Leaves target speech_id [] [] 0
  stopped :
      {q : QueuedSpeech} {qs kept : List QueuedSpeech} {n : ℕ}
      → IsMeant target speech_id q.item
      → Leaves target speech_id qs kept n
      → Leaves target speech_id (q ∷ qs) kept (n + 1)
  stays :
      {q : QueuedSpeech} {qs kept : List QueuedSpeech} {n : ℕ}
      → (IsMeant target speech_id q.item → ⊥)
      → Leaves target speech_id qs kept n
      → Leaves target speech_id (q ∷ qs) (q ∷ kept) n

-- Whether what is being spoken is meant too, and can still be stopped.
pub data Current (target : VoiceTarget) (speech_id : String)
    : Option SpeechItem → Option Bool → Option Bool → ℕ → Type 0 where
  cancelled :
      {item : SpeechItem} {flag : Bool}
      → IsMeant target speech_id item
      → Current target speech_id (some item) (some flag) (some true) 1
  goes_on :
      {current : Option SpeechItem} {flag : Option Bool}
      → ((item : SpeechItem) → current ≡ some item → IsMeant target speech_id item → flag ≡ none)
      → Current target speech_id current flag flag 0

differs : {b : Bool} → b ≡ false → b ≡ true → ⊥
differs h k = cc

abbrev target_of : String → String → String → VoiceTarget
target_of agent session project = record {
  agent_id = agent;
  session_id = session;
  project_id = project;
}

same_target-ok : (s t : VoiceTarget) → same_target s t ≡ true → s ≡ t
unfolding same_target
same_target-ok s t h =
    let (first, project) =
      and-true (s.agent_id == t.agent_id && s.session_id == t.session_id) _ h in
    let (agent, session) = and-true (s.agent_id == t.agent_id) _ first in
    ap (λ x. target_of x s.session_id s.project_id)
      ((string_eq.beq_iff s.agent_id t.agent_id).0 agent)
    ∙ ap (λ x. target_of t.agent_id x s.project_id)
        ((string_eq.beq_iff s.session_id t.session_id).0 session)
    ∙ ap (λ x. target_of t.agent_id t.session_id x)
        ((string_eq.beq_iff s.project_id t.project_id).0 project)

stops-IsMeant :
    (target : VoiceTarget) (speech_id : String) (item : SpeechItem)
    → stops target speech_id item ≡ true
    → IsMeant target speech_id item
unfolding stops
stops-IsMeant target speech_id item h =
    let (same, this) = and-true (same_target item.target target) _ h in
    let ours = same_target-ok item.target target same in
    elim (Bool-cases (speech_id == "")) [
      | inl all_of_them ↦
          IsMeant.every ours ((string_eq.beq_iff speech_id "").0 all_of_them)
            (rw all_of_them at this)
      | inr one ↦
          IsMeant.named ours (λ empty. differs one ((string_eq.beq_iff speech_id "").1 empty))
            ((string_eq.beq_iff item.speech_id speech_id).0 (rw one at this))
    ]

same_target-true : (s t : VoiceTarget) → s ≡ t → same_target s t ≡ true
same_target-true s t h = subst (λ t. same_target s t ≡ true) h (same_target_refl s)

IsMeant-stops :
    (target : VoiceTarget) (speech_id : String) (item : SpeechItem)
    → IsMeant target speech_id item
    → stops target speech_id item ≡ true
unfolding stops
IsMeant-stops target speech_id item (IsMeant.every ours empty interruptible) =
    rw
      (
        same_target-true item.target target ours,
        (string_eq.beq_iff speech_id "").1 empty,
        interruptible,
      )
      refl
IsMeant-stops target speech_id item (IsMeant.named ours given same) =
    elim (Bool-cases (speech_id == "")) [
      | inl empty ↦ elim (given ((string_eq.beq_iff speech_id "").0 empty)) [ ]
      | inr one ↦
          rw
            (
              same_target-true item.target target ours,
              one,
              (string_eq.beq_iff item.speech_id speech_id).1 same,
            )
            refl
    ]

module _ (target : VoiceTarget) (speech_id : String) where
  queue-Leaves :
      (qs : List QueuedSpeech)
      → Leaves target speech_id qs
          (select (λ q. not (stops target speech_id q.item)) qs)
          (length (select (λ q. stops target speech_id q.item) qs))
  unfolding select
  queue-Leaves [] = Leaves.nothing
  queue-Leaves (q ∷ qs) = elim (Bool-cases (stops target speech_id q.item)) [
    | inl this ↦ rw this (
        subst (Leaves target speech_id (q ∷ qs) _) (omega arith)
          (Leaves.stopped (stops-IsMeant target speech_id q.item this) (queue-Leaves qs)))
    | inr other ↦ rw other (
        Leaves.stays (λ meant. differs other (IsMeant-stops target speech_id q.item meant))
          (queue-Leaves qs))
  ]

  -- What is spoken, by its item and its flag.
  spoken-Current :
      (item : Option SpeechItem) (flag : Option Bool)
      → let stopping : Bool = (elim item [
        | none ↦ false
        | some item ↦ stops target speech_id item && present flag
      ]) in
        Current target speech_id item flag
          (if stopping then set_flag flag else flag)
          (if stopping then 1 else 0)
  spoken-Current none flag = Current.goes_on (λ item q. cc)
  spoken-Current (some item) none = elim (Bool-cases (stops target speech_id item)) [
    | inl this ↦ rw this (Current.goes_on (λ item q meant. refl))
    | inr other ↦ rw other (Current.goes_on (λ item q meant. refl))
  ]
  spoken-Current (some item) (some flag) = elim (Bool-cases (stops target speech_id item)) [
    | inl this ↦ rw this (Current.cancelled (stops-IsMeant target speech_id item this))
    | inr other ↦ rw other (
        Current.goes_on (λ i q meant.
          elim (differs other (
            IsMeant-stops target speech_id item
              (subst (IsMeant target speech_id) (sym (some-injective q)) meant))) [ ]))
  ]

-- `stop_speaking` takes from the queue exactly the items that it is asked to stop, and leaves the
-- others in their order; where what is being spoken is meant too and can still be stopped, its flag
-- is set, and otherwise the flag stays as it was; the number that it returns is that of the items
-- which it stopped, what is being spoken included.
pub stop_speaking-Leaves :
    (target : VoiceTarget) (speech_id : String) (g : Gateway)
    → let stopped = stop_speaking target speech_id g in
      (queued : ℕ) × (current : ℕ) × Leaves target speech_id g.speech_queue stopped.0.speech_queue
        queued
      × Current target speech_id g.current_speech g.current_speech_cancel
          stopped.0.current_speech_cancel current
      × (stopped.1 ≡ queued + current)
unfolding stop_speaking stops_current
stop_speaking-Leaves target speech_id g = (
  length (select (λ q. stops target speech_id q.item) g.speech_queue),
  _,
  queue-Leaves target speech_id g.speech_queue,
  spoken-Current target speech_id g.current_speech g.current_speech_cancel,
  refl,
)

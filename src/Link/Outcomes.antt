-- ===== src/Link/Outcomes.antt =====
-- What bridge/deskhelm_host/link.py reports of an effect.
use deskhelm.Prelude.{
  String, string_eq, Bool, true, false, List, [], ◌∷◌, contains, ◌≡◌, ◌⊎◌, inl, inr, refl,
  Bool-cases, and-true, arith,
}
use deskhelm.Json.{Json, Object, Members}
use deskhelm.Protocol.Fields.{get}
use deskhelm.Core.Facts.{EffectOutcome}
use deskhelm.Link.{
  Sock, Link, Performed, EffectResult, effect_kinds, is_object, is_effect_kind, is_effect,
  outcome_of, reported, perform,
}

-- A frame of an effect: its kind is one of the five, and its payload is an object.
pub data IsEffect (frame : Object) : Type 0 where
  effect :
      (kind : String) (payload : Members)
      → get frame "kind" ≡ Json.str kind
      → (kind ≡ "submit")
        ⊎ (kind ≡ "interrupt")
        ⊎ (kind ≡ "respond")
        ⊎ (kind ≡ "answer")
        ⊎ (kind ≡ "configure")
      → get frame "payload" ≡ Json.obj payload
      → IsEffect frame

-- What is reported on a live connection, under the frame's own id: that the effect is not supported
-- where the frame is none or the driver refuses it, the driver's outcome, or nothing at all where the
-- driver failed.
pub data Reports (frame : Object) (answer : Performed EffectOutcome)
    : List EffectResult → Type 0 where
  is_none :
      (IsEffect frame → ⊥)
      → Reports frame answer
          (record { effect_id = get frame "effect_id"; outcome = EffectOutcome.unsupported } ∷ [])
  is_known :
      (outcome : EffectOutcome)
      → IsEffect frame
      → answer ≡ Performed.outcome outcome
      → Reports frame answer (record { effect_id = get frame "effect_id"; outcome = outcome } ∷ [])
  is_refused :
      IsEffect frame
      → answer ≡ Performed.refused
      → Reports frame answer
          (record { effect_id = get frame "effect_id"; outcome = EffectOutcome.unsupported } ∷ [])
  is_unknown : IsEffect frame → answer ≡ Performed.crashed → Reports frame answer []

kind_of :
    (kind : String)
    → contains effect_kinds kind ≡ true
    → (kind ≡ "submit")
      ⊎ (kind ≡ "interrupt")
      ⊎ (kind ≡ "respond")
      ⊎ (kind ≡ "answer")
      ⊎ (kind ≡ "configure")
unfolding contains
kind_of kind h = ground (
  arith,
  string_eq.beq_iff "submit" kind,
  string_eq.beq_iff "interrupt" kind,
  string_eq.beq_iff "respond" kind,
  string_eq.beq_iff "answer" kind,
  string_eq.beq_iff "configure" kind,
)

kind_is :
    (kind : String)
    → (kind ≡ "submit")
      ⊎ (kind ≡ "interrupt")
      ⊎ (kind ≡ "respond")
      ⊎ (kind ≡ "answer")
      ⊎ (kind ≡ "configure")
    → contains effect_kinds kind ≡ true
unfolding contains
kind_is kind (inl h) = rw h refl
kind_is kind (inr (inl h)) = rw h refl
kind_is kind (inr (inr (inl h))) = rw h refl
kind_is kind (inr (inr (inr (inl h)))) = rw h refl
kind_is kind (inr (inr (inr (inr h)))) = rw h refl

IsEffect-is_effect : (frame : Object) → IsEffect frame → is_effect frame ≡ true
unfolding is_effect is_effect_kind is_object
IsEffect-is_effect frame (IsEffect.effect kind payload of_kind one_of of_payload) =
    rw (of_kind, of_payload, kind_is kind one_of) refl

is_effect-IsEffect : (frame : Object) → is_effect frame ≡ true → IsEffect frame
unfolding is_effect is_effect_kind is_object
is_effect-IsEffect frame h =
    let (known, full) = and-true (is_effect_kind (get frame "kind")) _ h in
    let (kind, of_kind, is) = kind_at (get frame "kind") known in
    let (payload, of_payload) = payload_at (get frame "payload") full in
    IsEffect.effect kind payload of_kind (kind_of kind is) of_payload
  where
    kind_at :
        (v : Json)
        → is_effect_kind v ≡ true
        → (kind : String) × (v ≡ Json.str kind) × (contains effect_kinds kind ≡ true)
    kind_at (Json.str kind) h = (kind, refl, h)
    kind_at v h = cc

    payload_at : (v : Json) → is_object v ≡ true → (payload : Members) × (v ≡ Json.obj payload)
    payload_at (Json.obj ms) h = (ms, refl)
    payload_at v h = cc

reported-Reports :
    (frame : Object) (answer : Performed EffectOutcome)
    → IsEffect frame
    → Reports frame answer (reported Sock.live (get frame "effect_id") (outcome_of true answer))
unfolding reported outcome_of
reported-Reports frame (Performed.outcome known) h = Reports.is_known known h refl
reported-Reports frame Performed.refused h = Reports.is_refused h refl
reported-Reports frame Performed.crashed h = Reports.is_unknown h refl

-- On a live connection a frame is answered under its own id: as unsupported where it is no effect, its
-- kind being none of the five or its payload no object, or where the driver refuses it; with the
-- driver's outcome where it has one; and not at all where the driver failed, since then the outcome is
-- unknown.
pub perform-Reports :
    (frame : Object) (answer : Performed EffectOutcome) (link : Link)
    → link.sock ≡ Sock.live
    → Reports frame answer (perform frame answer link)
unfolding perform reported outcome_of
perform-Reports frame answer link at = elim (Bool-cases (is_effect frame)) [
  | inl asked ↦ rw (at, asked) (reported-Reports frame answer (is_effect-IsEffect frame asked))
  | inr none_asked ↦
      rw (at, none_asked) (Reports.is_none (λ h. differs none_asked (IsEffect-is_effect frame h)))
]
  where
    differs : {b : Bool} → b ≡ false → b ≡ true → ⊥
    differs h k = cc

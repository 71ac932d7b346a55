-- ===== src/Core/Window/Deltas.antt =====
-- Which events `_drop_deltas` of bridge/deskhelm_core/core.py drops from a session's window.
use deskhelm.Prelude.{
  ℕ, ◌≡◌, refl, String, string_eq, true, false, List, [], ◌∷◌, inl, inr, Bool-cases, and-true,
  subst, sym, ◌∙◌,
}
use deskhelm.Protocol.Shapes.{MessageRole, MessagePhase}
use deskhelm.Core.Events.{Event, Payload}
use deskhelm.Core.Window.{same_role, is_delta_of, is_delta_payload, drop_deltas}

-- A delta of the message with this correlation and this role.
pub data IsDeltaOf (correlation : String) (role : MessageRole) (e : Event) : Type 0 where
  delta :
      (text : String)
      → e.payload ≡ Payload.message role MessagePhase.delta text
      → e.correlation_id ≡ correlation
      → IsDeltaOf correlation role e

-- The window without those deltas.
pub data Without (correlation : String) (role : MessageRole)
    : List Event → List Event → Type 0 where
  nothing : Without correlation role [] []
  drops :
      {e : Event} {es kept : List Event}
      → IsDeltaOf correlation role e
      → Without correlation role es kept
      → Without correlation role (e ∷ es) kept
  keeps :
      {e : Event} {es kept : List Event}
      → (IsDeltaOf correlation role e → ⊥)
      → Without correlation role es kept
      → Without correlation role (e ∷ es) (e ∷ kept)

same_role-ok : (r s : MessageRole) → same_role r s ≡ true → r ≡ s
unfolding same_role
same_role-ok MessageRole.user MessageRole.user h = refl
same_role-ok MessageRole.assistant MessageRole.assistant h = refl
same_role-ok MessageRole.system MessageRole.system h = refl
same_role-ok r s h = cc

same_role_self : (r : MessageRole) → same_role r r ≡ true
unfolding same_role
same_role_self MessageRole.user = refl
same_role_self MessageRole.assistant = refl
same_role_self MessageRole.system = refl

is_delta_payload-ok :
    (p : Payload) (role : MessageRole)
    → is_delta_payload p role ≡ true
    → (text : String) × (p ≡ Payload.message role MessagePhase.delta text)
unfolding is_delta_payload
is_delta_payload-ok (Payload.message r MessagePhase.delta text) role h =
    let same = same_role-ok r role h in
    (
      text,
      subst
          (λ s.
            Payload.message r MessagePhase.delta text ≡ Payload.message s MessagePhase.delta text)
          same refl,
    )
is_delta_payload-ok p role h = cc

is_delta_of-IsDeltaOf :
    (correlation : String) (role : MessageRole) (e : Event)
    → is_delta_of correlation role e ≡ true
    → IsDeltaOf correlation role e
unfolding is_delta_of
is_delta_of-IsDeltaOf correlation role e h =
    let (this, here) = and-true (is_delta_payload e.payload role) _ h in
    let (text, is) = is_delta_payload-ok e.payload role this in
    IsDeltaOf.delta text is ((string_eq.beq_iff e.correlation_id correlation).0 here)

IsDeltaOf-is_delta_of :
    (correlation : String) (role : MessageRole) (e : Event)
    → IsDeltaOf correlation role e
    → is_delta_of correlation role e ≡ true
unfolding is_delta_of is_delta_payload
IsDeltaOf-is_delta_of correlation role e (IsDeltaOf.delta text is here) =
    rw (is, same_role_self role, (string_eq.beq_iff e.correlation_id correlation).1 here) refl

-- `_drop_deltas` drops exactly the deltas of the message with this correlation and this role, and
-- keeps all other events in their order.
pub drop_deltas-Without :
    (correlation : String) (role : MessageRole) (es : List Event) (bytes : ℕ)
    → Without correlation role es (drop_deltas correlation role es bytes).events
unfolding drop_deltas
drop_deltas-Without correlation role [] bytes = Without.nothing
drop_deltas-Without correlation role (e ∷ es) bytes =
    elim (Bool-cases (is_delta_of correlation role e)) [
      | inl gone ↦ rw gone (
          Without.drops (is_delta_of-IsDeltaOf correlation role e gone)
            (drop_deltas-Without correlation role es _))
      | inr kept ↦ rw kept (
          Without.keeps (λ is. differs (sym kept ∙ IsDeltaOf-is_delta_of correlation role e is))
            (drop_deltas-Without correlation role es bytes))
    ]
  where
    differs : false ≡ true → ⊥
    differs q = cc

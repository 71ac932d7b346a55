-- ===== src/Core/Views.antt =====
-- Equality of session views: the test `view != record.sent_view` of `_finish` in
-- bridge/deskhelm_core/core.py.
use deskhelm.Prelude.{
  ℕ_discrete, String, string_eq, Bool, true, false, ◌≡◌, ◌↔◌, inl, inr, refl, Bool-cases, arith,
  Option,
}
use deskhelm.Core.Frames.{TurnOutcome, View}

String_discrete : Discrete String
String_discrete s t = elim (Bool-cases (string_eq.beq s t)) [
  | inl same ↦ yes ((string_eq.beq_iff s t).0 same)
  | inr other ↦ no (λ h. ground (arith, string_eq.beq_iff s t))
]

View_discrete : Discrete View
View_discrete = hlevel (ℕ_discrete, String_discrete)

abbrev is_yes {ℓ} : {A : Type ℓ} → Dec A → Bool
is_yes (yes a) = true
is_yes (no h) = false

is_yes_iff {ℓ} : {A : Type ℓ} (d : Dec A) → (is_yes d ≡ true) ↔ A
is_yes_iff (yes a) = (λ h. a, λ h. refl)
is_yes_iff (no h) = (λ e. cc, λ a. absurd (h a))

unfoldable pub view_beq : View → View → Bool
unfolding View_discrete String_discrete ℕ_discrete
view_beq a b = is_yes (View_discrete a b)

pub view_beq_iff : (a b : View) → (view_beq a b ≡ true) ↔ (a ≡ b)
unfolding view_beq
view_beq_iff a b = is_yes_iff (View_discrete a b)

outcome_discrete : Discrete (Option TurnOutcome)
outcome_discrete = hlevel (ℕ_discrete, String_discrete)

-- The test of two outcomes, each of which may be missing.
unfoldable pub outcome_beq : Option TurnOutcome → Option TurnOutcome → Bool
unfolding outcome_discrete String_discrete ℕ_discrete
outcome_beq a b = is_yes (outcome_discrete a b)

pub outcome_beq_iff : (a b : Option TurnOutcome) → (outcome_beq a b ≡ true) ↔ (a ≡ b)
unfolding outcome_beq
outcome_beq_iff a b = is_yes_iff (outcome_discrete a b)

-- ===== src/Voice/Due.antt =====
-- When a notice of `_notices` in bridge/deskhelm_voice_host/policy.py is due.
use deskhelm.Prelude.{◌≡◌, ◌≢◌, refl, Option, none, some, All, All-append, inl, inr, Bool-cases}
use deskhelm.Core.Frames.{Activity, TurnOutcome, View}
use deskhelm.Core.Views.{outcome_beq, outcome_beq_iff}
use deskhelm.Voice.Notices.{Notice, outcome_notice, outcome_notices, activity_notices, notices}

-- A session has begun to wait for a person, or a turn has ended otherwise than the one before.
pub data Due (before view : View) : Notice → Type 0 where
  waits_approval :
      view.activity ≡ Activity.waiting_approval
      → before.activity ≢ Activity.waiting_approval
      → Due before view Notice.approval
  waits_input :
      view.activity ≡ Activity.waiting_input
      → before.activity ≢ Activity.waiting_input
      → Due before view Notice.input
  ended :
      (o : TurnOutcome)
      → view.last_outcome ≡ some o
      → before.last_outcome ≢ some o
      → Due before view (outcome_notice o)

module _ (before view : View) where
  outcome_notices-Due :
      (o : Option TurnOutcome)
      → view.last_outcome ≡ o
      → All (Due before view) (outcome_notices before.last_outcome o)
  unfolding outcome_notices
  outcome_notices-Due none e = tt
  outcome_notices-Due (some o) e = elim (Bool-cases (outcome_beq before.last_outcome (some o))) [
    | inl same ↦ rw (same, outcome_notices) tt
    | inr other ↦
        rw (other, outcome_notices)
          (
            ended o e
                (λ same. cc (rw other at (outcome_beq_iff before.last_outcome (some o)).1 same)),
            tt,
          )
  ]

  activity_notices-Due :
      (a b : Activity)
      → before.activity ≡ a
      → view.activity ≡ b
      → All (Due before view) (activity_notices a b)
  unfolding activity_notices
  activity_notices-Due Activity.waiting_approval Activity.waiting_approval p q = tt
  activity_notices-Due a Activity.waiting_approval p q = (waits_approval q (λ h. cc), tt)
  activity_notices-Due Activity.waiting_input Activity.waiting_input p q = tt
  activity_notices-Due a Activity.waiting_input p q = (waits_input q (λ h. cc), tt)
  activity_notices-Due a b p q = tt

-- Every notice is due: an approval or an input is asked for only when the session begins to wait for
-- it, and the end of a turn is told only when the last outcome is another than before.
pub notices-Due : (before view : View) → All (Due before view) (notices before view)
unfolding notices
notices-Due before view =
    All-append _ _ _ (outcome_notices-Due before view view.last_outcome refl)
      (activity_notices-Due before view before.activity view.activity refl refl)

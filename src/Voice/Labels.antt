-- ===== src/Voice/Labels.antt =====
-- How long the label of a project is in the notices of bridge/deskhelm_voice_host/policy.py.
use Prim.Native.String.{count}
use Prim.Native.Char.{Char}
use text.Mathlib.TextLemmas.{length-cons}
use deskhelm.Prelude.{
  ℕ, zero, suc, ◌≤◌, ◌≢◌, arith, String, string_eq, Bool, Bool-cases, inl, inr, ◌==◌,
}
use deskhelm.Voice.Notices.{
  take_chars, project_name, plain_name, or_current, max_project_name_chars,
}

pub count-take_chars : (n : ℕ) (s : String) → count (take_chars n s) ≤ n
unfolding take_chars
count-take_chars zero s = omega arith
count-take_chars (suc n) String.[] = omega arith
count-take_chars (suc n) (String.◌∷◌ c s) =
    omega (arith, count-take_chars n s, length-cons c (take_chars n s))

or_current-bound :
    (name : String)
    → count name ≤ max_project_name_chars
    → (count (or_current name) ≤ max_project_name_chars) × (or_current name ≢ "")
unfolding or_current
or_current-bound name short = elim (Bool-cases (name == "")) [
  | inl empty ↦ rw (empty, or_current) (omega arith, λ e. cc)
  | inr full ↦ rw (full, or_current) (short, λ e. ground (arith, string_eq.beq_iff name ""))
]

-- The label of a project is spoken with at most 64 characters, and is never empty.
pub project_name-bound :
    (is_alnum : Char → Bool) (project_id : String)
    → (count (project_name is_alnum project_id) ≤ max_project_name_chars)
      × (project_name is_alnum project_id ≢ "")
unfolding project_name
project_name-bound is_alnum project_id =
    or_current-bound (take_chars max_project_name_chars (plain_name is_alnum project_id))
      (count-take_chars max_project_name_chars (plain_name is_alnum project_id))

-- ===== src/Core/Deltas.antt =====
-- The console's numbered deltas in bridge/deskhelm_core/core.py: `_deltas` and `_console_seq`.
use deskhelm.Prelude.{
  ℕ, zero, suc, ◌+◌, ◌≤◌, ◌<◌, ◌≡◌, refl, arith, true, List, [], ◌∷◌, ◌++◌, length, drop, select,
  ltb, inl, inr, Bool-cases, length-append, ltb→lt, ap,
}
use deskhelm.Core.Frames.{Change}
use deskhelm.Core.Machine.{push_delta}

-- Deltas with consecutive numbers, the newest of which is the last.
abbrev pub IsRun : ℕ → List (ℕ × List Change) → Type 0
IsRun last [] = Unit
IsRun last (d ∷ ds) = (d.0 + length ds ≡ last) × IsRun last ds

IsRun-append :
    (last : ℕ) (ds : List (ℕ × List Change)) (changes : List Change)
    → IsRun last ds
    → IsRun (last + 1) (ds ++ (last + 1, changes) ∷ [])
IsRun-append last [] changes h = (omega arith, tt)
IsRun-append last (d ∷ ds) changes h = (
  omega (arith, h.0, length-append ds ((last + 1, changes) ∷ [])),
  IsRun-append last ds changes h.1,
)

IsRun-drop : (n last : ℕ) (ds : List (ℕ × List Change)) → IsRun last ds → IsRun last (drop n ds)
IsRun-drop zero last ds h = h
IsRun-drop (suc n) last [] h = tt
IsRun-drop (suc n) last (d ∷ ds) h = IsRun-drop n last ds h.1

pub push_delta-IsRun :
    (maxlen last : ℕ) (changes : List Change) (ds : List (ℕ × List Change))
    → IsRun last ds
    → IsRun (last + 1) (push_delta maxlen (last + 1, changes) ds)
unfolding push_delta
push_delta-IsRun maxlen last changes ds h =
    IsRun-drop _ (last + 1) (ds ++ (last + 1, changes) ∷ []) (IsRun-append last ds changes h)

-- The newest deltas of a run, from `seq` on.
pub record Rest (seq last : ℕ) (ds : List (ℕ × List Change)) : Type 0 where
  pub consecutive : IsRun last ds
  pub complete : length ds + seq ≡ last

lt→ltb : (m n : ℕ) → m < n → ltb m n ≡ true
lt→ltb m n h = ground arith

select-all :
    (seq last : ℕ) (ds : List (ℕ × List Change))
    → IsRun last ds
    → seq + length ds ≤ last
    → select (λ d. ltb seq d.0) ds ≡ ds
unfolding select
select-all seq last [] h q = refl
select-all seq last (d ∷ ds) h q =
    rw (lt→ltb seq d.0 (omega (arith, h.0, q)), select-all seq last ds h.1 (omega (arith, q))) refl

-- What is taken from a run is its end.
pub select-suffix :
    (seq last : ℕ) (ds : List (ℕ × List Change))
    → IsRun last ds
    → (before : List (ℕ × List Change)) × (ds ≡ before ++ select (λ d. ltb seq d.0) ds)
unfolding select
select-suffix seq last [] h = ([], refl)
select-suffix seq last (d ∷ ds) h = elim (Bool-cases (ltb seq d.0)) [
  | inl late ↦
      ([], rw (late, select-all seq last ds h.1 (omega (arith, h.0, ltb→lt _ _ late))) refl)
  | inr early ↦
      let (before, rest) = select-suffix seq last ds h.1 in (d ∷ before, rw early (ap (◌∷◌ d) rest))
]

pub select-Rest :
    (seq last : ℕ) (ds : List (ℕ × List Change))
    → IsRun last ds
    → last ≤ seq + length ds
    → seq ≤ last
    → Rest seq last (select (λ d. ltb seq d.0) ds)
unfolding select
select-Rest seq last [] h low high = record {
  consecutive = tt;
  complete = omega (arith, low, high);
}
select-Rest seq last (d ∷ ds) h low high = elim (Bool-cases (ltb seq d.0)) [
  | inl late ↦
      rw (late, select-all seq last ds h.1 (omega (arith, h.0, ltb→lt _ _ late)))
        (record { consecutive = h; complete = omega (arith, h.0, low, ltb→lt _ _ late) })
  | inr early ↦ rw early (select-Rest seq last ds h.1 (ground arith) high)
]

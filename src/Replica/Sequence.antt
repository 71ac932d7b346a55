-- ===== src/Replica/Sequence.antt =====
-- What becomes of the client's copy when it is caught up: `_console_delta` of
-- bridge/deskhelm_client/connection.py and `_subscribe_console` of bridge/deskhelm_core/core.py.
use deskhelm.Prelude.{
  ℕ, ◌+◌, ◌≡◌, refl, arith, sym, String, string_eq, true, false, List, [], ◌∷◌, leb, eqb, ◌∙◌,
}
use deskhelm.Protocol.Fields.{ok}
use deskhelm.Core.Frames.{Change}
use deskhelm.Core.Deltas.{Rest}
use deskhelm.Voice.Client.{ConsoleState}
use deskhelm.Replica.{apply_changes, numbered, console_delta, console_deltas}

-- The copy with every change of the deltas, in order.
unfoldable pub replayed : List (ℕ × List Change) → ConsoleState → ConsoleState
replayed [] s = s
replayed (d ∷ ds) s = replayed ds (numbered d.0 (apply_changes d.1 s))

instance_id-apply_changes :
    (changes : List Change) (s : ConsoleState)
    → (apply_changes changes s).instance_id ≡ s.instance_id
unfolding apply_changes
instance_id-apply_changes [] s = refl
instance_id-apply_changes (Change.session view ∷ rest) s = instance_id-apply_changes rest _
instance_id-apply_changes (Change.session_removed key ∷ rest) s = instance_id-apply_changes rest _
instance_id-apply_changes (Change.focus focus ∷ rest) s = instance_id-apply_changes rest _

-- The next delta of the same Bridge is taken.
console_delta-next :
    (instance_id : String) (seq : ℕ) (changes : List Change) (s : ConsoleState)
    → instance_id ≡ s.instance_id
    → seq ≡ s.seq + 1
    → console_delta instance_id seq changes s ≡ ok (numbered seq (apply_changes changes s))
unfolding console_delta
console_delta-next instance_id seq changes s same next =
    rw
      (
        (string_eq.beq_iff instance_id s.instance_id).1 same,
        later seq s.seq next,
        follows seq s.seq next,
      )
      refl
  where
    later : (m n : ℕ) → m ≡ n + 1 → leb m n ≡ false
    later m n h = ground arith

    follows : (m n : ℕ) → m ≡ n + 1 → eqb m (n + 1) ≡ true
    follows m n h = ground arith

-- A client that receives the deltas which the Bridge sends after its number takes every one of
-- them: no delta is refused or passed over, and the copy ends at the Bridge's number.
pub console_deltas-Rest :
    (instance_id : String) (last : ℕ) (ds : List (ℕ × List Change)) (s : ConsoleState)
    → instance_id ≡ s.instance_id
    → Rest s.seq last ds
    → (console_deltas instance_id ds s ≡ ok (replayed ds s)) × ((replayed ds s).seq ≡ last)
unfolding console_deltas replayed numbered
console_deltas-Rest instance_id last [] s same h = (refl, omega (arith, h.complete))
console_deltas-Rest instance_id last (d ∷ ds) s same h =
    let (number, rest) = h.consecutive in
    let next = numbered d.0 (apply_changes d.1 s) in
    let (taken, ends) =
      console_deltas-Rest instance_id last ds next (same ∙ sym (instance_id-apply_changes d.1 s))
        (record { consecutive = rest; complete = omega (arith, number) }) in
    (
      rw (console_delta-next instance_id d.0 d.1 s same (omega (arith, number, h.complete))) taken,
      ends,
    )

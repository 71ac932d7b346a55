-- ===== src/Replica/Seen.antt =====
-- The events that a client has seen: `_interaction` of bridge/deskhelm_client/connection.py.
use deskhelm.Prelude.{
  ℕ, zero, suc, ◌-◌, ◌≤◌, ◌≡◌, refl, arith, String, string_eq, true, false, List, [], ◌∷◌, ◌++◌,
  length, drop, contains, beq_refl, inl, inr, Bool-cases, length-append, length-drop,
}
use deskhelm.Replica.{hand_over, max_seen_events}

contains-append_last : (ids : List String) (id : String) → contains (ids ++ id ∷ []) id ≡ true
unfolding contains
contains-append_last [] id = ground (arith, beq_refl id)
contains-append_last (x ∷ ids) id = ground (arith, contains-append_last ids id)

contains-drop_last :
    (n : ℕ) (ids : List String) (id : String)
    → n ≤ length ids
    → contains (drop n (ids ++ id ∷ [])) id ≡ true
contains-drop_last zero ids id h = contains-append_last ids id
contains-drop_last (suc n) [] id h = ground arith
contains-drop_last (suc n) (x ∷ ids) id h = contains-drop_last n ids id (omega (arith, h))

-- For a client that keeps at most 4096 ids: an event that comes again right after is not handed over
-- again, and at most 4096 ids are kept.
pub hand_over-once :
    (event_id : String) (seen : List String)
    → length seen ≤ max_seen_events
    → ((hand_over event_id (hand_over event_id seen).1).0 ≡ false)
      × (length (hand_over event_id seen).1 ≤ max_seen_events)
unfolding hand_over
hand_over-once event_id seen h = elim (Bool-cases (contains seen event_id)) [
  | inl known ↦ rw (known, hand_over) (rw known refl, h)
  | inr new ↦
      let longer = length-append seen (event_id ∷ []) in
      rw (new, hand_over)
        (
          rw
              (contains-drop_last (length (seen ++ event_id ∷ []) - max_seen_events) seen event_id
                (omega (arith, longer, h)))
              refl,
          omega (
            arith,
            longer,
            h,
            length-drop (length (seen ++ event_id ∷ []) - max_seen_events) (seen ++ event_id ∷ []),
          ),
        )
]

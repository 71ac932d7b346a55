-- ===== src/Dict/Distinct.antt =====
-- Dicts whose keys are distinct, as every dict is, and how two changes under one key meet.
use deskhelm.Prelude.{Eq, ◌≡◌, refl, ap, [], ◌∷◌, none, some, inl, inr, arith, Bool-cases, ◌==◌}
use deskhelm.Dict.{Dict, lookup, insert, remove, modify}
use deskhelm.Dict.Laws.{lookup-insert}

module _ {ℓ κ} {K : Type ℓ} {V : Type κ} ⦃e : Eq K⦄ where
  -- No key comes again.
  unfoldable pub Distinct : Dict K V → Type κ
  unfolding lookup
  Distinct [] = Unit
  Distinct ((k, v) ∷ d) = (lookup k d ≡ none) × Distinct d

  pub Distinct-insert : (k : K) (v : V) (d : Dict K V) → Distinct d → Distinct (insert k v d)
  unfolding Distinct lookup insert
  Distinct-insert k v [] h = (refl, tt)
  Distinct-insert k v ((j, w) ∷ d) h = elim (Bool-cases (j == k)) [
    | inl here ↦ rw here h
    | inr there ↦ rw there (
      ground (arith, lookup-insert k j v d, e.beq_iff k j, e.beq_iff j k, h.0),
      Distinct-insert k v d h.1,
    )
  ]

  pub remove-absent : (k : K) (d : Dict K V) → lookup k d ≡ none → remove k d ≡ d
  unfolding lookup remove
  remove-absent k [] h = refl
  remove-absent k ((j, w) ∷ d) h = elim (Bool-cases (j == k)) [
    | inl here ↦ cc (rw here at h)
    | inr there ↦ rw there (ap (◌∷◌ (j, w)) (remove-absent k d (rw there at h)))
  ]

  -- Where a key does not come again, its first entry is all that it removes.
  pub remove-first : (k : K) (v : V) (d : Dict K V) → lookup k d ≡ none → remove k ((k, v) ∷ d) ≡ d
  unfolding remove
  remove-first k v d h = rw ((e.beq_iff k k).1 refl) (remove-absent k d h)

  pub insert-insert : (k : K) (v w : V) (d : Dict K V) → insert k w (insert k v d) ≡ insert k w d
  unfolding insert
  insert-insert k v w [] = rw ((e.beq_iff k k).1 refl) refl
  insert-insert k v w ((j, u) ∷ d) = elim (Bool-cases (j == k)) [
    | inl here ↦ rw (here, insert, here) refl
    | inr there ↦ rw (there, insert, there) (ap (◌∷◌ (j, u)) (insert-insert k v w d))
  ]

  pub insert-over :
      (k j : K) (v w : V) (d : Dict K V) → k ≡ j → insert k w (insert j v d) ≡ insert k w d
  insert-over k j v w d same = rw same (insert-insert j v w d)

  -- A change under a key stores the changed value under it.
  pub modify-insert :
      (k : K) (f : V → V) (v : V) (d : Dict K V)
      → lookup k d ≡ some v
      → modify k f d ≡ insert k (f v) d
  unfolding lookup insert modify
  modify-insert k f v [] h = cc
  modify-insert k f v ((j, w) ∷ d) h = elim (Bool-cases (j == k)) [
    | inl here ↦ rw here (cc (rw here at h))
    | inr there ↦ rw there (ap (◌∷◌ (j, w)) (modify-insert k f v d (rw there at h)))
  ]

  -- Storing what stands under a key already changes nothing.
  pub insert-same : (k : K) (v : V) (d : Dict K V) → lookup k d ≡ some v → insert k v d ≡ d
  unfolding lookup insert
  insert-same k v [] h = cc
  insert-same k v ((j, w) ∷ d) h = elim (Bool-cases (j == k)) [
    | inl here ↦ rw here (cc (rw here at h))
    | inr there ↦ rw there (ap (◌∷◌ (j, w)) (insert-same k v d (rw there at h)))
  ]

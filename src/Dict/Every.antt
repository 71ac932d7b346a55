-- ===== src/Dict/Every.antt =====
-- A predicate on every value of a dict, kept by each operation.
use deskhelm.Prelude.{Eq, ◌≡◌, subst, [], ◌∷◌, some, inl, inr, Bool-cases, ◌==◌}
use deskhelm.Dict.{Dict, lookup, insert, remove, modify, map_values}

abbrev pub Every {ℓ κ μ} : {K : Type ℓ} {V : Type κ} → (V → Type μ) → Dict K V → Type μ
Every P [] = Unit
Every P (p ∷ d) = P p.1 × Every P d

module _ {ℓ κ μ} {K : Type ℓ} {V : Type κ} (P : V → Type μ) where
  pub Every-map_values :
      (f : V → V) (d : Dict K V) → ((v : V) → P v → P (f v)) → Every P d → Every P (map_values f d)
  Every-map_values f [] keep h = tt
  Every-map_values f (p ∷ d) keep h = (keep p.1 h.0, Every-map_values f d keep h.1)

module _ {ℓ κ μ} {K : Type ℓ} {V : Type κ} ⦃e : Eq K⦄ (P : V → Type μ) where
  pub Every-lookup : (k : K) (d : Dict K V) {v : V} → Every P d → lookup k d ≡ some v → P v
  unfolding lookup
  Every-lookup k [] h q = cc
  Every-lookup k ((j, w) ∷ d) {v} h q = elim (Bool-cases (j == k)) [
    | inl here ↦ subst P (cc (rw here at q)) h.0
    | inr there ↦ Every-lookup k d h.1 (rw there at q)
  ]

  pub Every-insert : (k : K) (v : V) (d : Dict K V) → P v → Every P d → Every P (insert k v d)
  unfolding insert
  Every-insert k v [] p h = (p, tt)
  Every-insert k v ((j, w) ∷ d) p h = elim (Bool-cases (j == k)) [
    | inl here ↦ rw here (p, h.1)
    | inr there ↦ rw there (h.0, Every-insert k v d p h.1)
  ]

  pub Every-remove : (k : K) (d : Dict K V) → Every P d → Every P (remove k d)
  unfolding remove
  Every-remove k [] h = tt
  Every-remove k ((j, w) ∷ d) h = elim (Bool-cases (j == k)) [
    | inl here ↦ rw here (Every-remove k d h.1)
    | inr there ↦ rw there (h.0, Every-remove k d h.1)
  ]

  -- The change may use that the value stands under the key.
  pub Every-modify :
      (k : K) (f : V → V) (d : Dict K V)
      → ((v : V) → lookup k d ≡ some v → P v → P (f v))
      → Every P d
      → Every P (modify k f d)
  unfolding lookup modify
  Every-modify k f [] keep h = tt
  Every-modify k f ((j, w) ∷ d) keep h = elim (Bool-cases (j == k)) [
    | inl here ↦ rw here (keep w (rw here) h.0, h.1)
    | inr there ↦ rw there (h.0, Every-modify k f d (λ v q. keep v (rw there q)) h.1)
  ]

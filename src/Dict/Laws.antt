-- ===== src/Dict/Laws.antt =====
-- What a lookup returns after each operation, and how the size of a dict changes.
use deskhelm.Prelude.{
  ◌+◌, ◌≤◌, Eq, ◌≡◌, refl, [], ◌∷◌, Option, none, some, arith, length, ◌==◌, if◌then◌else◌,
}
use deskhelm.Dict.{Dict, lookup, insert, remove, modify, map_values, has_key}

abbrev pub map_option {ℓ} : {A : Type ℓ} → (A → A) → Option A → Option A
map_option f none = none
map_option f (some a) = some (f a)

module _ {ℓ κ} {K : Type ℓ} {V : Type κ} ⦃e : Eq K⦄ where
  pub lookup-insert :
      (k j : K) (v : V) (d : Dict K V)
      → lookup j (insert k v d) ≡ (if k == j then some v else lookup j d)
  unfolding lookup insert
  lookup-insert k j v [] = refl
  lookup-insert k j v ((i, w) ∷ d) =
      ground (arith, e.beq_iff i k, e.beq_iff i j, e.beq_iff k j, lookup-insert k j v d)

  pub lookup-remove :
      (k j : K) (d : Dict K V) → lookup j (remove k d) ≡ (if k == j then none else lookup j d)
  unfolding lookup remove
  lookup-remove k j [] = ground arith
  lookup-remove k j ((i, w) ∷ d) =
      ground (arith, e.beq_iff i k, e.beq_iff i j, e.beq_iff k j, lookup-remove k j d)

  pub lookup-modify :
      (k j : K) (f : V → V) (d : Dict K V)
      → lookup j (modify k f d) ≡ (if k == j then map_option f (lookup j d) else lookup j d)
  unfolding lookup modify
  lookup-modify k j f [] = ground arith
  lookup-modify k j f ((i, w) ∷ d) =
      ground (arith, e.beq_iff i k, e.beq_iff i j, e.beq_iff k j, lookup-modify k j f d)

  pub lookup-insert_self : (k : K) (v : V) (d : Dict K V) → lookup k (insert k v d) ≡ some v
  lookup-insert_self k v d = ground (arith, lookup-insert k k v d, e.beq_iff k k)

  pub lookup-remove_self : (k : K) (d : Dict K V) → lookup k (remove k d) ≡ none
  lookup-remove_self k d = ground (arith, lookup-remove k k d, e.beq_iff k k)

  pub lookup-modify_self :
      (k : K) (f : V → V) (d : Dict K V) → lookup k (modify k f d) ≡ map_option f (lookup k d)
  lookup-modify_self k f d = ground (arith, lookup-modify k k f d, e.beq_iff k k)

  pub length-insert :
      (k : K) (v : V) (d : Dict K V)
      → length (insert k v d) ≡ (if has_key k d then length d else length d + 1)
  unfolding lookup insert
  length-insert k v [] = omega arith
  length-insert k v ((i, w) ∷ d) = ground (arith, length-insert k v d)

  pub length-remove-le : (k : K) (d : Dict K V) → length (remove k d) ≤ length d
  unfolding remove
  length-remove-le k [] = omega arith
  length-remove-le k ((i, w) ∷ d) = ground (arith, length-remove-le k d)

  pub length-modify : (k : K) (f : V → V) (d : Dict K V) → length (modify k f d) ≡ length d
  unfolding modify
  length-modify k f [] = refl
  length-modify k f ((i, w) ∷ d) = ground (arith, length-modify k f d)

  pub lookup-map_values :
      (k : K) (f : V → V) (d : Dict K V) → lookup k (map_values f d) ≡ map_option f (lookup k d)
  unfolding lookup
  lookup-map_values k f [] = refl
  lookup-map_values k f ((i, w) ∷ d) = ground (arith, lookup-map_values k f d)

module _ {ℓ κ} {K : Type ℓ} {V : Type κ} where
  pub length-map_values : (f : V → V) (d : Dict K V) → length (map_values f d) ≡ length d
  length-map_values f [] = refl
  length-map_values f (p ∷ d) = omega (arith, length-map_values f d)

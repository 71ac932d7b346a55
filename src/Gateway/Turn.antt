-- ===== src/Gateway/Turn.antt =====
-- Whose turn it is to be spoken: the choice in `_playback_loop` of voice/deskhelm_voice/gateway.py.
use deskhelm.Prelude.{
  ℕ, ◌≤◌, ◌<◌, true, false, List, [], ◌∷◌, ◌++◌, length, All, ◌≡◌, ◌⊎◌, inl, inr, refl, sym, ap,
  subst, arith, Bool-cases, if-keeps,
}
use deskhelm.Gateway.{QueuedSpeech}
use deskhelm.Gateway.Speech.{priority_rank, before_in_turn, pick}
use deskhelm.Gateway.Invariant.{Rising}

abbrev rank : QueuedSpeech → ℕ
rank q = priority_rank q.item.priority

-- One choice ahead: the better of the rest goes first, or the first does.
pick-later :
    (first second : QueuedSpeech) (rest : List QueuedSpeech)
    → before_in_turn (pick second rest).0 first ≡ true
    → pick first (second ∷ rest) ≡ ((pick second rest).0, first ∷ (pick second rest).1)
unfolding pick
pick-later first second rest h = rw h refl

pick-now :
    (first second : QueuedSpeech) (rest : List QueuedSpeech)
    → before_in_turn (pick second rest).0 first ≡ false
    → pick first (second ∷ rest) ≡ (first, second ∷ rest)
unfolding pick
pick-now first second rest h = rw h refl

All-imp {κ μ} :
    (P : QueuedSpeech → Type κ) (Q : QueuedSpeech → Type μ) (qs : List QueuedSpeech)
    → ((q : QueuedSpeech) → P q → Q q)
    → All P qs
    → All Q qs
All-imp P Q [] f h = tt
All-imp P Q (q ∷ qs) f h = (f q h.0, All-imp P Q qs f h.1)

module _ {κ} (P : QueuedSpeech → Type κ) where
  pub All-pick :
      (first : QueuedSpeech) (rest : List QueuedSpeech)
      → P first
      → All P rest
      → P (pick first rest).0 × All P (pick first rest).1
  unfolding pick
  All-pick first [] h hs = (h, tt)
  All-pick first (second ∷ rest) h hs =
      let best = pick second rest in
      let (ih, others) = All-pick second rest hs.0 hs.1 in
      if-keeps (λ (p : QueuedSpeech × List QueuedSpeech). P p.0 × All P p.1)
        (before_in_turn best.0 first) (ih, (h, others)) (h, hs)

pub length-pick :
    (first : QueuedSpeech) (rest : List QueuedSpeech) → length (pick first rest).1 ≡ length rest
unfolding pick
length-pick first [] = refl
length-pick first (second ∷ rest) =
    if-keeps (λ (p : QueuedSpeech × List QueuedSpeech). length p.1 ≡ length (second ∷ rest))
      (before_in_turn (pick second rest).0 first) (omega (arith, length-pick second rest)) refl

pub Rising-pick :
    (first : QueuedSpeech) (rest : List QueuedSpeech)
    → Rising (first ∷ rest)
    → Rising (pick first rest).1
unfolding pick
Rising-pick first [] h = tt
Rising-pick first (second ∷ rest) h =
    if-keeps (λ (p : QueuedSpeech × List QueuedSpeech). Rising p.1)
      (before_in_turn (pick second rest).0 first)
      (
        (All-pick (λ r. first.sequence < r.sequence) second rest h.0.0 h.0.1).1,
        Rising-pick second rest h.1,
      )
      h.1

not-before : (a b : QueuedSpeech) → before_in_turn a b ≡ false → rank a ≤ rank b
unfolding before_in_turn
not-before a b h = ground arith

before-rank : (a b : QueuedSpeech) → before_in_turn a b ≡ true → rank b ≤ rank a
unfolding before_in_turn
before-rank a b h = ground arith

-- No item has a higher priority than the one that is picked.
pick-rank :
    (first : QueuedSpeech) (rest : List QueuedSpeech)
    → All (λ q. rank q ≤ rank (pick first rest).0) (first ∷ rest)
unfolding pick
pick-rank first [] = (omega arith, tt)
pick-rank first (second ∷ rest) =
    let best = pick second rest in
    let below = pick-rank second rest in
    elim (Bool-cases (before_in_turn best.0 first)) [
      | inl before ↦
          subst
            (λ (p : QueuedSpeech × List QueuedSpeech).
              All (λ q. rank q ≤ rank p.0) (first ∷ second ∷ rest))
            (sym (pick-later first second rest before)) (before-rank best.0 first before, below)
      | inr after ↦
          subst
            (λ (p : QueuedSpeech × List QueuedSpeech).
              All (λ q. rank q ≤ rank p.0) (first ∷ second ∷ rest))
            (sym (pick-now first second rest after))
            (
              omega arith,
              All-imp (λ q. rank q ≤ rank best.0) (λ q. rank q ≤ rank first) (second ∷ rest)
                  (λ q le. omega (arith, le, not-before best.0 first after)) below,
            )
    ]

-- `q` comes after `best`: it has a lower priority, or the same and came later.
abbrev pub ComesAfter : QueuedSpeech → QueuedSpeech → Type 0
ComesAfter best q = (rank q < rank best) ⊎ ((rank q ≡ rank best) × (best.sequence < q.sequence))

after-first :
    (first : QueuedSpeech) (qs : List QueuedSpeech)
    → All (λ q. rank q ≤ rank first) qs
    → All (λ q. first.sequence < q.sequence) qs
    → All (ComesAfter first) qs
after-first first [] low later = tt
after-first first (q ∷ qs) low later =
    (ground (arith, low.0, later.0), after-first first qs low.1 later.1)

before-ComesAfter : (a b : QueuedSpeech) → before_in_turn a b ≡ true → ComesAfter a b
unfolding before_in_turn
before-ComesAfter a b h = ground arith

pick-ComesAfter :
    (first : QueuedSpeech) (rest : List QueuedSpeech)
    → Rising (first ∷ rest)
    → All (ComesAfter (pick first rest).0) (pick first rest).1
unfolding pick
pick-ComesAfter first [] h = tt
pick-ComesAfter first (second ∷ rest) h =
    let best = pick second rest in
    elim (Bool-cases (before_in_turn best.0 first)) [
      | inl before ↦
          subst (λ (p : QueuedSpeech × List QueuedSpeech). All (ComesAfter p.0) p.1)
            (sym (pick-later first second rest before))
            (before-ComesAfter best.0 first before, pick-ComesAfter second rest h.1)
      | inr after ↦
          subst (λ (p : QueuedSpeech × List QueuedSpeech). All (ComesAfter p.0) p.1)
            (sym (pick-now first second rest after))
            (after-first first (second ∷ rest)
              (All-imp (λ q. rank q ≤ rank best.0) (λ q. rank q ≤ rank first) (second ∷ rest)
                (λ q le. omega (arith, le, not-before best.0 first after)) (pick-rank second rest))
              h.0)
    ]

pick-split :
    (first : QueuedSpeech) (rest : List QueuedSpeech)
    → let best = pick first rest in
      (before : List QueuedSpeech) × (after : List QueuedSpeech) × ((first ∷ rest)
        ≡ before ++ (best.0 ∷ after))
      × (best.1 ≡ before ++ after)
unfolding pick
pick-split first [] = ([], [], refl, refl)
pick-split first (second ∷ rest) =
    let best = pick second rest in
    elim (Bool-cases (before_in_turn best.0 first)) [
      | inl before ↦
          let (front, back, whole, others) = pick-split second rest in
          rw before (first ∷ front, back, ap (◌∷◌ first) whole, ap (◌∷◌ first) others)
      | inr after ↦ rw after ([], second ∷ rest, refl, refl)
    ]

-- Where the sequences of the queue rise, the item that is spoken next has the highest priority, and
-- of those with it the oldest sequence; it leaves the queue, and the others keep their order.
pub pick-in_turn :
    (first : QueuedSpeech) (rest : List QueuedSpeech)
    → Rising (first ∷ rest)
    → let best = pick first rest in
      All (ComesAfter best.0) best.1
      × ((before : List QueuedSpeech) × (after : List QueuedSpeech) × ((first ∷ rest)
            ≡ before ++ (best.0 ∷ after))
          × (best.1 ≡ before ++ after))
pick-in_turn first rest h = (pick-ComesAfter first rest h, pick-split first rest)

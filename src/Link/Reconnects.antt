-- ===== src/Link/Reconnects.antt =====
-- How bridge/deskhelm_host/link.py comes back to a Bridge that is gone.
use Prim.Native.Nat.{◌^◌}
use native.Mathlib.Nat.{pow-suc, mul_assoc}
use deskhelm.Prelude.{
  ℕ, suc, ◌*◌, ◌≤◌, Bool, true, false, ◌||◌, List, [], ◌∷◌, ◌++◌, All, length, drop, min, ◌≡◌, refl,
  sym, ap, subst, ◌∙◌, arith, if-keeps, if◌then◌else◌,
}
use deskhelm.Link.{Attempt, Round, attempts}

-- What `random.uniform(0.5, 1.0)` makes of a delay is between its half and the whole of it.
abbrev pub IsJitter : (ℕ → ℕ) → Type 0
IsJitter jitter = (delay : ℕ) → (delay ≤ 2 * jitter delay) × (jitter delay ≤ delay)

-- Rounds of which none opens the session.
abbrev pub Fail : List Round → Type 0
Fail rounds = All (λ (r : Round). (r.opens ≡ false) × IsJitter r.jitter) rounds

-- Round by round, the wait is between the half and the whole of a delay that doubles up to the longest.
abbrev pub Doubles : ℕ → ℕ → ℕ → List Round → List Attempt → Type 0
Doubles initial longest k [] [] = Unit
Doubles initial longest k (r ∷ rounds) (a ∷ rest) =
    (min longest (initial * 2 ^ k) ≤ 2 * a.waits)
    × (a.waits ≤ min longest (initial * 2 ^ k))
    × Doubles initial longest (suc k) rounds rest
Doubles initial longest k rounds rest = ⊥

twice : (longest m : ℕ) → min longest (min longest m * 2) ≡ min longest (m * 2)
twice longest m = ground arith

doubled :
    (initial longest k delay : ℕ)
    → delay ≡ min longest (initial * 2 ^ k)
    → min longest (delay * 2) ≡ min longest (initial * 2 ^ suc k)
doubled initial longest k delay h =
    ap (λ d. min longest (d * 2)) h
    ∙ twice longest (initial * 2 ^ k)
    ∙ ap (min longest) (mul_assoc initial (2 ^ k) 2 ∙ ap (λ p. initial * p) (sym (pow-suc 2 k)))

jittered :
    (jitter : ℕ → ℕ) (opens : Bool) (initial delay whole : ℕ)
    → opens ≡ false
    → delay ≡ whole
    → IsJitter jitter
    → (whole ≤ 2 * jitter (if opens then initial else delay))
      × (jitter (if opens then initial else delay) ≤ whole)
jittered jitter opens initial delay whole fails same h = rw (fails, same) (h whole)

attempts-doubling :
    (initial longest k delay : ℕ) (opened_once : Bool) (rounds : List Round)
    → Fail rounds
    → delay ≡ min longest (initial * 2 ^ k)
    → Doubles initial longest k rounds (attempts initial longest delay opened_once rounds)
unfolding attempts
attempts-doubling initial longest k delay opened_once [] fails h = tt
attempts-doubling initial longest k delay opened_once (r ∷ rounds) fails h =
    let (half, whole) = jittered r.jitter r.opens initial delay _ fails.0.0 h fails.0.1 in
    (
      half,
      whole,
      attempts-doubling initial longest (suc k) _ (opened_once || r.opens) rounds fails.1
          (next r.opens fails.0.0),
    )
  where
    next :
        (opens : Bool)
        → opens ≡ false
        → min longest ((if opens then initial else delay) * 2) ≡ min longest (initial * 2 ^ suc k)
    next opens fails = rw fails (doubled initial longest k delay h)

-- Where no round opens the session, the delay doubles from the first up to the longest, and each
-- round waits, with its jitter, between the half and the whole of it.
pub attempts-Doubles :
    (initial longest : ℕ) (rounds : List Round)
    → initial ≤ longest
    → Fail rounds
    → Doubles initial longest 0 rounds (attempts initial longest initial false rounds)
attempts-Doubles initial longest rounds le fails =
    attempts-doubling initial longest 0 initial false rounds fails (first initial longest le)
  where
    first : (initial longest : ℕ) → initial ≤ longest → initial ≡ min longest (initial * 2 ^ 0)
    first initial longest h = ground arith

once-attempts :
    (initial longest delay : ℕ) (rounds : List Round)
    → initial ≤ longest
    → delay ≤ longest
    → All (λ (r : Round). IsJitter r.jitter) rounds
    → All
        (λ (a : Attempt). (a.may_start_bridge ≡ false) × (a.waits ≤ longest))
        (attempts initial longest delay true rounds)
unfolding attempts
once-attempts initial longest delay [] first le h = tt
once-attempts initial longest delay (r ∷ rounds) first le h =
    let now = if r.opens then initial else delay in
    (
      (refl, below (h.0 now).1 (if-keeps (λ w. w ≤ longest) r.opens first le)),
      once-attempts initial longest (min longest (now * 2)) rounds first (at_most longest _) h.1,
    )
  where
    at_most : (m n : ℕ) → min m n ≤ m
    at_most m n = ground arith

    below : {m n o : ℕ} → m ≤ n → n ≤ o → m ≤ o
    below h k = omega (arith, h, k)

or_true : (b : Bool) → (b || true) ≡ true
or_true true = refl
or_true false = refl

-- Once a host has opened its session in some round, none of the later rounds starts a Bridge, whichever
-- of them open it, and none waits longer than the longest delay.
pub attempts-once :
    (initial longest delay : ℕ) (opened_once : Bool) (before : List Round) (round : Round)
    (after : List Round)
    → initial ≤ longest
    → round.opens ≡ true
    → All (λ (r : Round). IsJitter r.jitter) after
    → All
        (λ (a : Attempt). (a.may_start_bridge ≡ false) × (a.waits ≤ longest))
        (drop
          (suc (length before))
          (attempts initial longest delay opened_once (before ++ (round ∷ after))))
unfolding attempts
attempts-once initial longest delay opened_once [] round after first opens h =
    subst
      (λ once.
        All (λ (a : Attempt). (a.may_start_bridge ≡ false) × (a.waits ≤ longest))
          (attempts initial longest (min longest ((if round.opens then initial else delay) * 2))
            once after))
      (sym (ap (◌||◌ opened_once) opens ∙ or_true opened_once))
      (once-attempts initial longest _ after first (at_most longest _) h)
  where
    at_most : (m n : ℕ) → min m n ≤ m
    at_most m n = ground arith
attempts-once initial longest delay opened_once (r ∷ before) round after first opens h =
    attempts-once initial longest (min longest ((if r.opens then initial else delay) * 2))
      (opened_once || r.opens) before round after first opens h

-- ===== src/Link/Numbers.antt =====
-- The numbers of the facts that bridge/deskhelm_host/link.py sends on one connection.
use deskhelm.Prelude.{
  ℕ, ◌+◌, List, [], ◌∷◌, ◌++◌, append_assoc, ◌≡◌, refl, sym, subst, if-keeps, All,
}
use deskhelm.Link.{
  Sock, Link, FactFrame, NewFact, send_on, send_fact, emit, emit_all, DriverState, state_facts,
  fresh_link, Sending, open_facts, drop_link, open_link, numbered_fact,
}

-- The numbers follow one another from the one after `n`, as the core asks of a host.
abbrev pub Consecutive : ℕ → List FactFrame → Type 0
Consecutive n [] = Unit
Consecutive n (f ∷ fs) = (f.seq ≡ n + 1) × Consecutive (n + 1) fs

-- What a connection still carries: frames that go on from its number while it is live, and nothing
-- once it is not.
abbrev Carries : Sock → ℕ → List FactFrame → Type 0
Carries Sock.live n frames = Consecutive n frames
Carries sock n frames = frames ≡ []

nothing-Carries : (sock : Sock) (n : ℕ) → Carries sock n []
nothing-Carries Sock.live n = tt
nothing-Carries Sock.absent n = refl
nothing-Carries Sock.shut n = refl

nothing-Consecutive : (n : ℕ) (frames : List FactFrame) → frames ≡ [] → Consecutive n frames
nothing-Consecutive n frames h = subst (Consecutive n) (sym h) tt

-- No error escapes.
abbrev pub Returns : Sending → Type 0
Returns Sending.escaped = ⊥
Returns how = Unit

-- One fact before the rest.
send_on-Carries :
    (sock : Sock) (how : Sending) (f : NewFact) (link : Link) (rest : List FactFrame)
    → Returns how
    → link.sock ≡ sock
    → Carries (send_on sock how f link).0.sock (send_on sock how f link).0.seq rest
    → Carries sock link.seq ((send_on sock how f link).1 ++ rest)
unfolding send_on numbered_fact
send_on-Carries Sock.absent how f link rest fine at h = subst (λ s. Carries s link.seq rest) at h
send_on-Carries Sock.shut how f link rest fine at h =
    subst (λ s. Carries s (link.seq + 1) rest) at h
send_on-Carries Sock.live Sending.went f link rest fine at h =
    (refl, subst (λ s. Carries s (link.seq + 1) rest) at h)
send_on-Carries Sock.live Sending.lost f link rest fine at h = nothing-Consecutive link.seq rest h
send_on-Carries Sock.live Sending.escaped f link rest fine at h = elim fine [ ]

emit_all-Carries :
    (facts : List (Sending × NewFact)) (link : Link)
    → All (λ (f : Sending × NewFact). Returns f.0) facts
    → Carries link.sock link.seq (emit_all facts link).1
unfolding emit_all emit send_fact
emit_all-Carries [] link fine = nothing-Carries link.sock link.seq
emit_all-Carries (f ∷ facts) link fine =
    if-keeps
      (λ (first : Link × List FactFrame).
        Carries link.sock link.seq (first.1 ++ (emit_all facts first.0).1))
      link.opened
      (send_on-Carries link.sock f.0 f.1 link (emit_all facts (send_on link.sock f.0 f.1 link).0).1
        fine.0 refl (emit_all-Carries facts (send_on link.sock f.0 f.1 link).0 fine.1))
      (emit_all-Carries facts link fine.1)

-- The facts of a session that opens, before what the connection carries then.
open_facts-Carries :
    (how : NewFact → Sending) (facts : List NewFact) (link : Link) (rest : List FactFrame)
    → Carries (open_facts how facts link).0.sock (open_facts how facts link).0.seq rest
    → Carries link.sock link.seq ((open_facts how facts link).1 ++ rest)
unfolding open_facts send_fact drop_link
open_facts-Carries how [] link rest h = h
open_facts-Carries how (f ∷ facts) link rest h =
    goes (how f) refl (open_facts-Carries how facts (send_on link.sock (how f) f link).0 rest) h
  where
    after : Sending → Link × List FactFrame
    after way = send_on link.sock way f link

    outcome : Sending → Link × List FactFrame
    outcome way = elim way [
      | Sending.escaped ↦ (drop_link link, [])
      | _ ↦ (
        (open_facts how facts (after (how f)).0).0,
        (after (how f)).1 ++ (open_facts how facts (after (how f)).0).1,
      )
    ]

    Earlier : Type 0
    Earlier =
        Carries (open_facts how facts (after (how f)).0).0.sock
          (open_facts how facts (after (how f)).0).0.seq rest
        → Carries (after (how f)).0.sock (after (how f)).0.seq
            ((open_facts how facts (after (how f)).0).1 ++ rest)

    sends :
        (way : Sending)
        → how f ≡ way
        → Earlier
        → Returns way
        → Carries
            (open_facts how facts (after (how f)).0).0.sock
            (open_facts how facts (after (how f)).0).0.seq
            rest
        → Carries link.sock link.seq
            ((after (how f)).1 ++ (open_facts how facts (after (how f)).0).1 ++ rest)
    sends way is earlier fine h =
        subst (Carries link.sock link.seq)
          (sym (append_assoc (after (how f)).1 (open_facts how facts (after (how f)).0).1 rest))
          (send_on-Carries link.sock (how f) f link
            ((open_facts how facts (after (how f)).0).1 ++ rest) (subst Returns (sym is) fine) refl
            (earlier h))

    goes :
        (way : Sending)
        → how f ≡ way
        → Earlier
        → Carries (outcome way).0.sock (outcome way).0.seq rest
        → Carries link.sock link.seq ((outcome way).1 ++ rest)
    goes Sending.escaped is earlier h =
        subst (Carries link.sock link.seq) (sym h) (nothing-Carries link.sock link.seq)
    goes Sending.went is earlier h = sends Sending.went is earlier tt h
    goes Sending.lost is earlier h = sends Sending.lost is earlier tt h

-- On each connection the facts carry the numbers 1, 2, 3 and so on, as the Bridge asks of a host: first
-- those that rebuild the session from what its driver says, whatever becomes of them, then those that
-- are emitted, where each of these is sent or fails with an error that the link catches. A fact that
-- fails so is the end of its connection and leaves no gap.
pub open_link-Consecutive :
    (how : NewFact → Sending) (state : DriverState) (facts : List (Sending × NewFact))
    → All (λ (f : Sending × NewFact). Returns f.0) facts
    → let first = open_link how state in Consecutive 0 (first.1 ++ (emit_all facts first.0).1)
unfolding open_link
open_link-Consecutive how state facts fine =
    let first = open_link how state in
    open_facts-Carries how (state_facts state) fresh_link (emit_all facts first.0).1
      (emit_all-Carries facts first.0 fine)

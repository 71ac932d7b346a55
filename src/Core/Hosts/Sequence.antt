-- ===== src/Core/Hosts/Sequence.antt =====
-- The facts of a host whose session is open, in bridge/deskhelm_core/core.py.
use deskhelm.Prelude.{
  ℕ, ◌+◌, ◌≡◌, refl, sym, subst, ap, ◌∙◌, string_eq, option_eq, true, false, List, [], ◌∷◌, some,
  inl, inr, ◌⊎◌, length, arith, Option-cases, ◌==◌,
}
use deskhelm.Dict.{lookup}
use deskhelm.Json.{Json, Object}
use deskhelm.Protocol.Fields.{Result, ok, violation, get, Result-cases}
use deskhelm.Protocol.Session.{SessionKey, key_eq}
use deskhelm.Protocol.Fact.{Fact, fact_from_dict}
use deskhelm.Core.Frames.{ErrorCode}
use deskhelm.Core.State.{SessionRecord, Core, Connection}
use deskhelm.Core.Clients.{is_text}
use deskhelm.Core.Facts.{Outcome, is_ended, fact}
use deskhelm.Core.Facts.Sequence.{StandsAt, Stands, Stays, fact-Stays}
use deskhelm.Core.Hosts.{owned, report_fact, session_frame, host_frame, host_frames}

-- A fact with this number, which does not end the session.
abbrev pub IsFactOf : ℕ → Result Fact → Type 0
IsFactOf n violation = ⊥
IsFactOf n (ok f) = (f.seq ≡ n) × (is_ended f.body ≡ false)

abbrev pub IsFactFrame : ℕ → Object → Type 0
IsFactFrame n frame = (get frame "type" ≡ Json.str "fact") × IsFactOf n (fact_from_dict frame)

report_fact-Stays :
    (key : SessionKey) (n : ℕ) (r : SessionRecord) (frame : Object) (now : ℕ) (c : Core)
    → lookup key c.sessions ≡ some r
    → r.host_seq ≡ n
    → IsFactOf (n + 1) (fact_from_dict frame)
    → Stays key (n + 1) r.owner (report_fact key r frame now c)
unfolding report_fact
report_fact-Stays key n r frame now c found at h = elim (Result-cases (fact_from_dict frame)) [
  | inl wrong ↦ elim (subst (IsFactOf (n + 1)) wrong h) [ ]
  | inr (f, fine) ↦
      let known : (f.seq ≡ n + 1) × (is_ended f.body ≡ false) = subst (IsFactOf (n + 1)) fine h in
      rw (fine, report_fact)
        (subst (λ m. Stays key m r.owner (fact key r f now c)) known.0
          (fact-Stays key r f now c found (known.0 ∙ ap (λ m. m + 1) (sym at)) known.1))
]

session_frame-Stays :
    (state : Connection) (key : SessionKey) (n : ℕ) (r : SessionRecord) (frame : Object) (now : ℕ)
    (c : Core)
    → lookup key c.sessions ≡ some r
    → r.host_seq ≡ n
    → IsFactFrame (n + 1) frame
    → Stays key (n + 1) r.owner (session_frame state key r frame now c)
unfolding session_frame is_text
session_frame-Stays state key n r frame now c found at h =
    rw h.0 (report_fact-Stays key n r frame now c found at h.1)

host_frame-Stays :
    (state : Connection) (key : SessionKey) (n : ℕ) (frame : Object) (now : ℕ) (c : Core)
    → state.session ≡ some key
    → IsFactFrame (n + 1) frame
    → Stands key n (some state.connection_id) c
    → Stays key (n + 1) (some state.connection_id) (host_frame state frame now c)
unfolding host_frame owned is_text
host_frame-Stays state key n frame now c of_key h stands =
    elim (Option-cases (lookup key c.sessions)) [
      | inl missing ↦ elim (subst (StandsAt n (some state.connection_id)) missing stands) [ ]
      | inr (r, found) ↦
          let at : (r.host_seq ≡ n) × (r.owner ≡ some state.connection_id) =
            subst (StandsAt n (some state.connection_id)) found stands in
          let owns : (r.owner == some state.connection_id) ≡ true =
            (option_eq.beq_iff r.owner (some state.connection_id)).1 at.1 in
          rw (h.0, of_key, found, owns)
            (subst (λ owner. Stays key (n + 1) owner (session_frame state key r frame now c)) at.1
              (session_frame-Stays state key n r frame now c found at.0 h))
    ]

-- The frames are facts whose numbers go on from `n`.
abbrev pub GoOn : ℕ → List (ℕ × Object) → Type 0
GoOn n [] = Unit
GoOn n (frame ∷ rest) = IsFactFrame (n + 1) frame.1 × GoOn (n + 1) rest

Outcome-cases :
    (o : Outcome)
    → ((c : Core) × (o ≡ Outcome.done c))
      ⊎ ((code : ErrorCode) × ((c : Core) × (o ≡ Outcome.raised code c)))
Outcome-cases (Outcome.done c) = inl (c, refl)
Outcome-cases (Outcome.raised code c) = inr (code, (c, refl))

-- A host whose session has taken `n` facts, and which sends facts with the numbers after `n` in order,
-- is not refused, and its session then stands at the last of them.
pub host_frames-Stays :
    (state : Connection) (key : SessionKey) (n : ℕ) (frames : List (ℕ × Object)) (c : Core)
    → state.session ≡ some key
    → GoOn n frames
    → Stands key n (some state.connection_id) c
    → Stays key (n + length frames) (some state.connection_id) (host_frames state frames c)
unfolding host_frames
host_frames-Stays state key n [] c of_key h stands =
    subst (λ m. Stands key m (some state.connection_id) c) (omega arith) stands
host_frames-Stays state key n ((now, frame) ∷ rest) c of_key h stands =
    let first = host_frame-Stays state key n frame now c of_key h.0 stands in
    elim (Outcome-cases (host_frame state frame now c)) [
      | inl (d, taken) ↦
          rw (taken, host_frames)
            (subst (λ m. Stays key m (some state.connection_id) (host_frames state rest d))
              (omega arith)
              (host_frames-Stays state key (n + 1) rest d of_key h.1
                (subst (Stays key (n + 1) (some state.connection_id)) taken first)))
      | inr (code, (d, refused)) ↦
          elim (subst (Stays key (n + 1) (some state.connection_id)) refused first) [ ]
    ]

-- ===== src/Core/Facts/Sequence.antt =====
-- The number of the last fact of a session, in bridge/deskhelm_core/core.py, and who owns the session.
use deskhelm.Prelude.{
  ℕ, ◌+◌, ◌≡◌, refl, sym, subst, ap, ◌∙◌, eqb, eqb_iff, String, string_eq, Bool, true, false, List,
  [], ◌∷◌, Option, none, some, inl, inr, if-keeps, Option-cases, ◌==◌, if◌then◌else◌,
}
use deskhelm.Dict.{Dict, lookup, modify}
use deskhelm.Dict.Laws.{lookup-modify, lookup-modify_self, map_option}
use deskhelm.Protocol.Session.{SessionKey, key_eq}
use deskhelm.Protocol.Request.{OpenRequest, Answers}
use deskhelm.Protocol.Shapes.{FactBody, ResolvedBy, Terminal}
use deskhelm.Protocol.Fact.{Fact}
use deskhelm.Core.Events.{Payload}
use deskhelm.Core.State.{SessionRecord, Core, Ticket}
use deskhelm.Core.Actions.{counted, update, interaction, resolved, recompute, Ending, ended}
use deskhelm.Core.Tickets.{
  ticket_for, opens, put_ticket, add_ticket, open_ticket, drop_ticket, decide, change_ticket,
  vendor_resolved, end_tickets, end_turn, turn_terminal,
}
use deskhelm.Core.Facts.{
  Outcome, start_turn, resolve_request, set_attention, apply_fact, is_ended, fact,
}

-- A session that is there, with its last number and its owner.
abbrev pub StandsAt : ℕ → Option String → Option SessionRecord → Type 0
StandsAt n owner none = ⊥
StandsAt n owner (some r) = (r.host_seq ≡ n) × (r.owner ≡ owner)

module _ (key : SessionKey) (n : ℕ) (owner : Option String) where
  abbrev pub Stands : Core → Type 0
  Stands c = StandsAt n owner (lookup key c.sessions)

  update_if-StandsAt :
      (b : Bool) (f : SessionRecord → SessionRecord) (o : Option SessionRecord)
      → ((r : SessionRecord) → (f r).host_seq ≡ r.host_seq)
      → ((r : SessionRecord) → (f r).owner ≡ r.owner)
      → StandsAt n owner o
      → StandsAt n owner (if b then map_option f o else o)
  update_if-StandsAt b f none seqs owners h = elim h [ ]
  update_if-StandsAt true f (some r) seqs owners h = (seqs r ∙ h.0, owners r ∙ h.1)
  update_if-StandsAt false f (some r) seqs owners h = h

  modify-StandsAt :
      (j : SessionKey) (f : SessionRecord → SessionRecord) (d : Dict SessionKey SessionRecord)
      → ((r : SessionRecord) → (f r).host_seq ≡ r.host_seq)
      → ((r : SessionRecord) → (f r).owner ≡ r.owner)
      → StandsAt n owner (lookup key d)
      → StandsAt n owner (lookup key (modify j f d))
  modify-StandsAt j f d seqs owners h =
      subst (StandsAt n owner) (sym (lookup-modify j key f d))
        (update_if-StandsAt (j == key) f (lookup key d) seqs owners h)

  update-Stands :
      (j : SessionKey) (f : SessionRecord → SessionRecord) (c : Core)
      → ((r : SessionRecord) → (f r).host_seq ≡ r.host_seq)
      → ((r : SessionRecord) → (f r).owner ≡ r.owner)
      → Stands c
      → Stands (update j f c)
  unfolding update
  update-Stands j f c seqs owners h = modify-StandsAt j f c.sessions seqs owners h

  interaction-Stands :
      (j : SessionKey) (payload : Payload) (correlation : String) (now : ℕ) (c : Core)
      → Stands c
      → Stands (interaction j payload correlation now c)
  unfolding interaction
  interaction-Stands j payload correlation now c h =
      modify-StandsAt j _ c.sessions (λ r. refl) (λ r. refl) h

  resolved-Stands :
      (j : SessionKey) (t : Ticket) (ending : Ending) (now : ℕ) (c : Core)
      → Stands c
      → Stands (resolved j t ending now c)
  unfolding resolved
  resolved-Stands j t ending now c h = interaction-Stands j _ _ now c h

  recompute-Stands : (j : SessionKey) (c : Core) → Stands c → Stands (recompute j c)
  unfolding recompute
  recompute-Stands j c h = modify-StandsAt j _ c.sessions (λ r. refl) (λ r. refl) h

  open_ticket-Stands :
      (j : SessionKey) (request : OpenRequest) (now : ℕ) (announce : Bool) (c : Core)
      → Stands c
      → Stands (open_ticket j request now announce c)
  unfolding open_ticket add_ticket put_ticket counted
  open_ticket-Stands j request now announce c h = elim (Option-cases (lookup j c.sessions)) [
    | inl missing ↦ rw (missing, open_ticket) h
    | inr (r, found) ↦
        let added = update-Stands j _ (counted c) (λ r. refl) (λ r. refl) h in
        rw (found, open_ticket)
          (if-keeps Stands (opens c r request now)
            (if-keeps Stands announce (interaction-Stands j _ _ now _ added) added) h)
  ]

  vendor_resolved-Stands :
      (j : SessionKey) (t : Ticket) (by : ResolvedBy) (answers : Option Answers) (now : ℕ)
      (c : Core)
      → Stands c
      → Stands (vendor_resolved j t by answers now c)
  unfolding vendor_resolved decide change_ticket
  vendor_resolved-Stands j t by answers now c h =
      if-keeps Stands t.reserved (update-Stands j _ c (λ r. refl) (λ r. refl) h)
        (resolved-Stands j t _ now _ (update-Stands j _ c (λ r. refl) (λ r. refl) h))

  end_tickets-Stands :
      (j : SessionKey) (ts : List Ticket) (by : ResolvedBy) (now : ℕ) (c : Core)
      → Stands c
      → Stands (end_tickets j ts by now c)
  unfolding end_tickets drop_ticket
  end_tickets-Stands j [] by now c h = h
  end_tickets-Stands j (t ∷ ts) by now c h =
      end_tickets-Stands j ts by now _
        (resolved-Stands j t (ended by) now _ (update-Stands j _ c (λ r. refl) (λ r. refl) h))

  turn_terminal-Stands :
      (j : SessionKey) (r : SessionRecord) (t : Terminal) (now : ℕ) (c : Core)
      → Stands c
      → Stands (turn_terminal j r t now c)
  unfolding turn_terminal end_turn
  turn_terminal-Stands j r t now c h =
      interaction-Stands j _ _ now _
        (end_tickets-Stands j _ _ now _ (update-Stands j _ c (λ r. refl) (λ r. refl) h))

  resolve_request-Stands :
      (j : SessionKey) (r : SessionRecord) (ref : String) (by : ResolvedBy)
      (answers : Option Answers) (now : ℕ) (c : Core)
      → Stands c
      → Stands (resolve_request j r ref by answers now c)
  unfolding resolve_request
  resolve_request-Stands j r ref by answers now c h = elim (Option-cases (ticket_for r ref)) [
    | inl missing ↦ rw (missing, resolve_request) h
    | inr (t, found) ↦ rw (found, resolve_request) (vendor_resolved-Stands j t by answers now c h)
  ]

  apply_fact-Stands :
      (j : SessionKey) (r : SessionRecord) (body : FactBody) (now : ℕ) (c : Core)
      → is_ended body ≡ false
      → Stands c
      → Stands (apply_fact j r body now c)
  unfolding apply_fact is_ended start_turn set_attention counted
  apply_fact-Stands j r FactBody.ready now c _ h = update-Stands j _ c (λ r. refl) (λ r. refl) h
  apply_fact-Stands j r (FactBody.turn_started id) now c _ h =
      update-Stands j _ (counted c) (λ r. refl) (λ r. refl) h
  apply_fact-Stands j r (FactBody.message m) now c _ h = interaction-Stands j _ _ now c h
  apply_fact-Stands j r (FactBody.tool t) now c _ h = interaction-Stands j _ _ now c h
  apply_fact-Stands j r (FactBody.request_opened request) now c _ h =
      open_ticket-Stands j request now true c h
  apply_fact-Stands j r (FactBody.request_resolved ref by answers) now c _ h =
      resolve_request-Stands j r ref by answers now c h
  apply_fact-Stands j r (FactBody.turn_terminal t) now c _ h = turn_terminal-Stands j r t now c h
  apply_fact-Stands j r (FactBody.status attention) now c _ h =
      if-keeps Stands _
        (interaction-Stands j _ _ now _ (update-Stands j _ c (λ r. refl) (λ r. refl) h)) h
  apply_fact-Stands j r (FactBody.catalog catalog) now c _ h =
      update-Stands j _ c (λ r. refl) (λ r. refl) h
  apply_fact-Stands j r (FactBody.capabilities matrix) now c _ h =
      update-Stands j _ c (λ r. refl) (λ r. refl) h
  apply_fact-Stands j r FactBody.session_ended now c over h = cc

  -- How a handler comes back that keeps the session: it does not raise.
  abbrev pub Stays : Outcome → Type 0
  Stays (Outcome.done c) = Stands c
  Stays (Outcome.raised code c) = ⊥

-- The fact with the next number is taken, and the session stays with its owner.
pub fact-Stays :
    (key : SessionKey) (r : SessionRecord) (f : Fact) (now : ℕ) (c : Core)
    → lookup key c.sessions ≡ some r
    → f.seq ≡ r.host_seq + 1
    → is_ended f.body ≡ false
    → Stays key f.seq r.owner (fact key r f now c)
unfolding fact update
fact-Stays key r f now c found next goes_on =
    let seen = λ (r : SessionRecord). record r { host_seq = f.seq } in
    let noted : StandsAt f.seq r.owner (lookup key (modify key seen c.sessions)) =
      subst (StandsAt f.seq r.owner)
        (sym (lookup-modify_self key seen c.sessions ∙ ap (map_option seen) found)) (refl, refl) in
    let numbered : eqb f.seq (r.host_seq + 1) ≡ true = (eqb_iff f.seq (r.host_seq + 1)).1 next in
    rw (numbered, goes_on)
      (recompute-Stands key f.seq r.owner key _
        (apply_fact-Stands key f.seq r.owner key r f.body now _ goes_on noted))

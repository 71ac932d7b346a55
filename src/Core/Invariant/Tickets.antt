-- ===== src/Core/Invariant/Tickets.antt =====
-- Opening, resolving and ending tickets keeps the capacity invariant.
use deskhelm.Prelude.{
  ℕ, ◌<◌, ◌≡◌, String, string_eq, Bool, true, List, [], ◌∷◌, Option, some, arith, inl, inr,
  if-keeps, Bool-cases, Option-cases, length, refl,
}
use deskhelm.Dict.{lookup}
use deskhelm.Dict.Laws.{length-insert, length-remove-le, length-modify}
use deskhelm.Protocol.Session.{SessionKey, key_eq}
use deskhelm.Protocol.Request.{OpenRequest, Answers}
use deskhelm.Protocol.Shapes.{ResolvedBy, Terminal}
use deskhelm.Core.State.{CoreLimits, SessionRecord, Core, Ticket}
use deskhelm.Core.Actions.{counted, ended, new_id}
use deskhelm.Core.Tickets.{
  new_ticket, put_ticket, opens, add_ticket, open_ticket, open_tickets, drop_ticket, decide,
  change_ticket, vendor_resolved, end_tickets, end_turn, turn_terminal,
}
use deskhelm.Core.Invariant.{RecordFits, Fits, update-Fits}
use deskhelm.Core.Invariant.Names.{Named-insert, Named-remove, Named-modify}
use deskhelm.Core.Invariant.Actions.{counted-Fits, interaction-Fits, resolved-Fits}

module _ (limits : CoreLimits) where
  put_ticket-RecordFits :
      (t : Ticket) (r : SessionRecord)
      → length r.tickets < limits.max_tickets
      → RecordFits limits r
      → RecordFits limits (put_ticket t r)
  unfolding put_ticket
  put_ticket-RecordFits t r room h = record {
    tickets_fit = ground (arith, length-insert t.approval_id t r.tickets);
    tickets_named = Named-insert t r.tickets h.tickets_named;
    window_fits = h.window_fits;
  }

  drop_ticket-RecordFits :
      (id : String) (r : SessionRecord) → RecordFits limits r → RecordFits limits (drop_ticket id r)
  unfolding drop_ticket
  drop_ticket-RecordFits id r h = record {
    tickets_fit = omega (arith, h.tickets_fit, length-remove-le id r.tickets);
    tickets_named = Named-remove id r.tickets h.tickets_named;
    window_fits = h.window_fits;
  }

  pub decide-RecordFits :
      (t : Ticket) (r : SessionRecord) → RecordFits limits r → RecordFits limits (decide t r)
  unfolding decide
  decide-RecordFits t r h = record {
    tickets_fit = omega (arith, h.tickets_fit, length-remove-le t.approval_id r.tickets);
    tickets_named = Named-remove t.approval_id r.tickets h.tickets_named;
    window_fits = h.window_fits;
  }

  pub change_ticket-RecordFits :
      (id : String) (f : Ticket → Ticket) (r : SessionRecord)
      → ((t : Ticket) → (f t).approval_id ≡ t.approval_id)
      → RecordFits limits r
      → RecordFits limits (change_ticket id f r)
  unfolding change_ticket
  change_ticket-RecordFits id f r same h = record {
    tickets_fit = omega (arith, h.tickets_fit, length-modify id f r.tickets);
    tickets_named = Named-modify id f r.tickets same h.tickets_named;
    window_fits = h.window_fits;
  }

  end_turn-RecordFits :
      (t : Terminal) (r : SessionRecord) → RecordFits limits r → RecordFits limits (end_turn t r)
  unfolding end_turn
  end_turn-RecordFits t r h = record {
    tickets_fit = h.tickets_fit;
    tickets_named = h.tickets_named;
    window_fits = h.window_fits;
  }

add_ticket-Fits :
    (key : SessionKey) (request : OpenRequest) (now : ℕ) (announce : Bool) (c : Core)
    (r : SessionRecord)
    → lookup key c.sessions ≡ some r
    → length r.tickets < c.limits.max_tickets
    → Fits c
    → Fits (add_ticket key request now announce c)
unfolding add_ticket
add_ticket-Fits key request now announce c r found room h =
    let added =
      update-Fits key (put_ticket (new_ticket (new_id "a" c) request)) (counted c)
        (λ s q fits. put_ticket-RecordFits c.limits _ s (ground arith) fits) (counted-Fits c h) in
    elim (Bool-cases announce) [
      | inl loud ↦ rw loud (interaction-Fits key _ _ now _ added)
      | inr quiet ↦ rw quiet added
    ]

pub open_ticket-Fits :
    (key : SessionKey) (request : OpenRequest) (now : ℕ) (announce : Bool) (c : Core)
    → Fits c
    → Fits (open_ticket key request now announce c)
unfolding open_ticket
open_ticket-Fits key request now announce c h = elim (Option-cases (lookup key c.sessions)) [
  | inl missing ↦ rw (missing, open_ticket) h
  | inr (r, found) ↦
      rw (found, open_ticket)
        (elim (Bool-cases (opens c r request now)) [
          | inl room ↦ rw room (add_ticket-Fits key request now announce c r found (ground arith) h)
          | inr full ↦ rw full h
        ])
]

pub open_tickets-Fits :
    (key : SessionKey) (requests : List OpenRequest) (now : ℕ) (c : Core)
    → Fits c
    → Fits (open_tickets key requests now c)
unfolding open_tickets
open_tickets-Fits key [] now c h = h
open_tickets-Fits key (request ∷ rest) now c h =
    open_tickets-Fits key rest now _ (open_ticket-Fits key request now true c h)

pub vendor_resolved-Fits :
    (key : SessionKey) (t : Ticket) (by : ResolvedBy) (answers : Option Answers) (now : ℕ)
    (c : Core)
    → Fits c
    → Fits (vendor_resolved key t by answers now c)
unfolding vendor_resolved
vendor_resolved-Fits key t by answers now c h =
    if-keeps Fits t.reserved
      (update-Fits key _ c
        (λ r _.
          change_ticket-RecordFits c.limits t.approval_id (λ u. record u { resolved_by = some by })
            r (λ u. refl))
        h)
      (resolved-Fits key t _ now _ (update-Fits key _ c (λ r _. decide-RecordFits c.limits t r) h))

pub end_tickets-Fits :
    (key : SessionKey) (ts : List Ticket) (by : ResolvedBy) (now : ℕ) (c : Core)
    → Fits c
    → Fits (end_tickets key ts by now c)
unfolding end_tickets
end_tickets-Fits key [] by now c h = h
end_tickets-Fits key (t ∷ ts) by now c h = end_tickets-Fits key ts by now _ (
    resolved-Fits key t (ended by) now _
      (update-Fits key _ c (λ r _. drop_ticket-RecordFits c.limits t.approval_id r) h))

pub turn_terminal-Fits :
    (key : SessionKey) (r : SessionRecord) (t : Terminal) (now : ℕ) (c : Core)
    → Fits c
    → Fits (turn_terminal key r t now c)
unfolding turn_terminal
turn_terminal-Fits key r t now c h = interaction-Fits key _ _ now _ (
    end_tickets-Fits key _ ResolvedBy.cancelled now _
      (update-Fits key (end_turn t) c (λ s _. end_turn-RecordFits c.limits t s) h))

-- ===== src/Core/Invariant/Settle.antt =====
-- Settling a command, removing a session and forgetting a connection keep the capacity invariant.
use deskhelm.Prelude.{
  ℕ, ◌≡◌, string_eq, pair_eq, option_eq, Bool, true, false, List, [], ◌∷◌, none, arith, inl, inr,
  if-keeps, Option-cases, refl,
}
use deskhelm.Dict.{lookup, map_values}
use deskhelm.Dict.Laws.{length-remove-le, length-modify, length-map_values}
use deskhelm.Dict.Every.{Every-remove}
use deskhelm.Protocol.Session.{SessionKey, key_eq}
use deskhelm.Core.Frames.{ResultCode, ErrorCode}
use deskhelm.Core.State.{
  CoreLimits, SessionRecord, Core, Ticket, Connection, InFlight, Receipt, Role,
}
use deskhelm.Core.Settle.{
  settle_ticket, flight_ticket, settle_request, close_receipt, settle_receipt, settle, fail_flights,
  flights_of, erase_session, remove_session, lose_host, disconnected, owned_session, drop_waiters,
  forget, refuse, leave_session, unfocus,
}
use deskhelm.Core.Invariant.{RecordFits, Fits, update-Fits}
use deskhelm.Core.Invariant.Actions.{resolved-Fits, recompute-Fits, set_focus-Fits}
use deskhelm.Core.Invariant.Tickets.{decide-RecordFits, change_ticket-RecordFits}
use deskhelm.Core.Invariant.Connections.{role_count-map_values, role_count-remove-le}

pub settle_ticket-Fits :
    (flight : InFlight) (t : Ticket) (code : ResultCode) (delivered : Bool) (now : ℕ) (c : Core)
    → Fits c
    → Fits (settle_ticket flight t code delivered now c)
unfolding settle_ticket
settle_ticket-Fits flight t code delivered now c h = recompute-Fits flight.session _ (
    if-keeps Fits _
      (resolved-Fits flight.session t _ now _
        (update-Fits flight.session _ c (λ r _. decide-RecordFits c.limits t r) h))
      (update-Fits flight.session _ c
        (λ r _.
          change_ticket-RecordFits c.limits t.approval_id (λ u. record u { reserved = false }) r
            (λ u. refl))
        h))

pub settle_request-Fits :
    (flight : InFlight) (code : ResultCode) (delivered : Bool) (now : ℕ) (c : Core)
    → Fits c
    → Fits (settle_request flight code delivered now c)
unfolding settle_request
settle_request-Fits flight code delivered now c h = elim (Option-cases (flight_ticket flight c)) [
  | inl missing ↦ rw (missing, settle_request) h
  | inr (t, found) ↦ rw (found, settle_request) (settle_ticket-Fits flight t code delivered now c h)
]

close_receipt-Fits :
    (flight : InFlight) (code : ResultCode) (delivered : Bool) (receipt : Receipt) (c : Core)
    → Fits c
    → Fits (close_receipt flight code delivered receipt c)
unfolding close_receipt
close_receipt-Fits flight code true receipt c h = record {
  sessions_fit = h.sessions_fit;
  receipts_fit = omega (arith, h.receipts_fit, length-modify flight.scope _ c.receipts);
  deltas_fit = h.deltas_fit;
  deltas_run = h.deltas_run;
  hosts_fit = h.hosts_fit;
  clients_fit = h.clients_fit;
  records_fit = h.records_fit;
}
close_receipt-Fits flight code false receipt c h = record {
  sessions_fit = h.sessions_fit;
  receipts_fit = omega (arith, h.receipts_fit, length-remove-le flight.scope c.receipts);
  deltas_fit = h.deltas_fit;
  deltas_run = h.deltas_run;
  hosts_fit = h.hosts_fit;
  clients_fit = h.clients_fit;
  records_fit = h.records_fit;
}

settle_receipt-Fits :
    (flight : InFlight) (code : ResultCode) (delivered : Bool) (c : Core)
    → Fits c
    → Fits (settle_receipt flight code delivered c)
unfolding settle_receipt
settle_receipt-Fits flight code delivered c h =
    elim (Option-cases (lookup flight.scope c.receipts)) [
      | inl missing ↦ rw (missing, settle_receipt) h
      | inr (receipt, found) ↦
          rw (found, settle_receipt) (close_receipt-Fits flight code delivered receipt c h)
    ]

pub settle-Fits :
    (flight : InFlight) (code : ResultCode) (delivered : Bool) (now : ℕ) (c : Core)
    → Fits c
    → Fits (settle flight code delivered now c)
unfolding settle
settle-Fits flight code delivered now c h =
    settle_receipt-Fits flight code delivered _
      (settle_request-Fits flight code delivered now _ (ground arith))

pub fail_flights-Fits :
    (flights : List InFlight) (now : ℕ) (c : Core) → Fits c → Fits (fail_flights flights now c)
unfolding fail_flights
fail_flights-Fits [] now c h = h
fail_flights-Fits (flight ∷ rest) now c h =
    fail_flights-Fits rest now _ (settle-Fits flight ResultCode.dispatch_failed true now c h)

unfocus-Fits : (key : SessionKey) (c : Core) → Fits c → Fits (unfocus key c)
unfolding unfocus
unfocus-Fits key c h = if-keeps Fits _ (set_focus-Fits none c h) h

role-leave_session : (key : SessionKey) (s : Connection) → (leave_session key s).role ≡ s.role
unfolding leave_session
role-leave_session key s = ground arith

-- Every connection may change, if none changes its role.
leave_all-Fits :
    (key : SessionKey) (c : Core)
    → Fits c
    → Fits (record c { connections = map_values (leave_session key) c.connections })
leave_all-Fits key c h = record {
  sessions_fit = h.sessions_fit;
  receipts_fit = h.receipts_fit;
  deltas_fit = h.deltas_fit;
  deltas_run = h.deltas_run;
  hosts_fit = omega (
    arith,
    h.hosts_fit,
    role_count-map_values Role.host (leave_session key) c.connections (role-leave_session key),
  );
  clients_fit = omega (
    arith,
    h.clients_fit,
    role_count-map_values Role.client (leave_session key) c.connections (role-leave_session key),
  );
  records_fit = h.records_fit;
}

erase_session-Fits : (key : SessionKey) (c : Core) → Fits c → Fits (erase_session key c)
unfolding erase_session
erase_session-Fits key c h = leave_all-Fits key _ (
    unfocus-Fits key _ (record {
      sessions_fit = omega (arith, h.sessions_fit, length-remove-le key c.sessions);
      receipts_fit = h.receipts_fit;
      deltas_fit = h.deltas_fit;
      deltas_run = h.deltas_run;
      hosts_fit = h.hosts_fit;
      clients_fit = h.clients_fit;
      records_fit = Every-remove (RecordFits c.limits) key c.sessions h.records_fit;
    }))

pub remove_session-Fits :
    (key : SessionKey) (now : ℕ) (c : Core) → Fits c → Fits (remove_session key now c)
unfolding remove_session
remove_session-Fits key now c h =
    erase_session-Fits key _ (fail_flights-Fits (flights_of key c) now c h)

disconnected-RecordFits :
    (limits : CoreLimits) (now : ℕ) (r : SessionRecord)
    → RecordFits limits r
    → RecordFits limits (disconnected now r)
unfolding disconnected
disconnected-RecordFits limits now r h = record {
  tickets_fit = omega arith;
  tickets_named = tt;
  window_fits = h.window_fits;
}

lose_host-Fits : (key : SessionKey) (now : ℕ) (c : Core) → Fits c → Fits (lose_host key now c)
unfolding lose_host
lose_host-Fits key now c h = recompute-Fits key _ (
    unfocus-Fits key _ (
      update-Fits key (disconnected now) _ (λ r _. disconnected-RecordFits _ now r)
        (fail_flights-Fits (flights_of key c) now c h)))

drop_waiters-Fits : (state : Connection) (c : Core) → Fits c → Fits (drop_waiters state c)
unfolding drop_waiters
drop_waiters-Fits state c h = record {
  sessions_fit = h.sessions_fit;
  receipts_fit = omega (arith, h.receipts_fit, length-map_values _ c.receipts);
  deltas_fit = h.deltas_fit;
  deltas_run = h.deltas_run;
  hosts_fit = h.hosts_fit;
  clients_fit = h.clients_fit;
  records_fit = h.records_fit;
}

pub forget-Fits : (state : Connection) (now : ℕ) (c : Core) → Fits c → Fits (forget state now c)
unfolding forget
forget-Fits state now c h =
    let rest = drop_waiters-Fits state c h in
    elim (Option-cases (owned_session state (drop_waiters state c))) [
      | inl none_owned ↦ rw (none_owned, forget) rest
      | inr (key, owns) ↦ rw (owns, forget) (lose_host-Fits key now _ rest)
    ]

pub refuse-Fits :
    (state : Connection) (code : ErrorCode) (now : ℕ) (c : Core)
    → Fits c
    → Fits (refuse state code now c)
unfolding refuse
refuse-Fits state code now c h = forget-Fits state now _ (record {
  sessions_fit = h.sessions_fit;
  receipts_fit = h.receipts_fit;
  deltas_fit = h.deltas_fit;
  deltas_run = h.deltas_run;
  hosts_fit =
      omega (arith, h.hosts_fit, role_count-remove-le Role.host state.connection_id c.connections);
  clients_fit =
      omega
        (arith, h.clients_fit, role_count-remove-le Role.client state.connection_id c.connections);
  records_fit = h.records_fit;
})

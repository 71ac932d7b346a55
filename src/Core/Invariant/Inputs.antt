-- ===== src/Core/Invariant/Inputs.antt =====
-- Every input of the core, and so every sequence of inputs, keeps the capacity invariant.
use deskhelm.Prelude.{
  ℕ, ◌+◌, ◌-◌, ◌≤◌, refl, String, string_eq, List, [], ◌∷◌, ◌++◌, Option, none, some, arith, inl,
  inr, if-keeps, Option-cases, length, length-drop, length-select-le, select,
}
use deskhelm.Dict.{lookup, remove, values}
use deskhelm.Json.{Object}
use deskhelm.Protocol.Session.{SessionKey, key_eq}
use deskhelm.Protocol.Request.{is_empty}
use deskhelm.Protocol.Shapes.{ResolvedBy}
use deskhelm.Core.Frames.{Change}
use deskhelm.Core.State.{Core, Connection, Role, Config, init, new_connection}
use deskhelm.Core.Facts.{Outcome}
use deskhelm.Core.Hosts.{role_count, hello, host_frame}
use deskhelm.Core.Clients.{client_frame}
use deskhelm.Core.Machine.{
  note_sent, push_delta, publish, changes, finish, connect, handle, caught, receive, disconnect,
  tick_session, tick_sessions, drop_receipts, tick, Input, connects, receives, disconnects, ticks,
  step, run, keep_decided, is_stale, is_expired, is_retained,
}
use deskhelm.Core.Deltas.{push_delta-IsRun}
use deskhelm.Core.Invariant.{Fits, update-Fits}
use deskhelm.Core.Invariant.Actions.{recompute-Fits}
use deskhelm.Core.Invariant.Tickets.{end_tickets-Fits}
use deskhelm.Core.Invariant.Connections.{role_count-remove-le, role_count-insert-le}
use deskhelm.Core.Invariant.Settle.{
  fail_flights-Fits, remove_session-Fits, forget-Fits, refuse-Fits,
}
use deskhelm.Core.Invariant.Facts.{OutcomeFits}
use deskhelm.Core.Invariant.Hosts.{hello-Fits, host_frame-Fits}
use deskhelm.Core.Invariant.Clients.{client_frame-Fits}

note_sent-Fits : (keys : List SessionKey) (c : Core) → Fits c → Fits (note_sent keys c)
unfolding note_sent
note_sent-Fits [] c h = h
note_sent-Fits (k ∷ ks) c h = note_sent-Fits ks _ (
    update-Fits k _ c
      (λ r _ f. record {
        tickets_fit = f.tickets_fit;
        tickets_named = f.tickets_named;
        window_fits = f.window_fits;
      })
      h)

length-push_delta-le :
    (n : ℕ) (d : ℕ × List Change) (deltas : List (ℕ × List Change))
    → length (push_delta n d deltas) ≤ n
unfolding push_delta
length-push_delta-le n d deltas =
    omega (arith, length-drop (length (deltas ++ d ∷ []) - n) (deltas ++ d ∷ []))

publish-Fits : (changes : List Change) (c : Core) → Fits c → Fits (publish changes c)
unfolding publish
publish-Fits [] c h = h
publish-Fits (d ∷ ds) c h = record {
  sessions_fit = h.sessions_fit;
  receipts_fit = h.receipts_fit;
  deltas_fit = length-push_delta-le c.limits.delta_history (c.console_seq + 1, d ∷ ds) c.deltas;
  deltas_run = push_delta-IsRun c.limits.delta_history c.console_seq (d ∷ ds) c.deltas h.deltas_run;
  hosts_fit = h.hosts_fit;
  clients_fit = h.clients_fit;
  records_fit = h.records_fit;
}

finish-Fits : (c : Core) → Fits c → Fits (finish c).0
unfolding finish
finish-Fits c h =
    let done = publish-Fits (changes c) (note_sent c.dirty c) (note_sent-Fits c.dirty c h) in
    record {
      sessions_fit = done.sessions_fit;
      receipts_fit = done.receipts_fit;
      deltas_fit = done.deltas_fit;
      deltas_run = done.deltas_run;
      hosts_fit = done.hosts_fit;
      clients_fit = done.clients_fit;
      records_fit = done.records_fit;
    }

connect-Fits : (connection : String) (c : Core) → Fits c → Fits (connect connection c).0
unfolding connect
connect-Fits connection c h = record {
  sessions_fit = h.sessions_fit;
  receipts_fit = h.receipts_fit;
  deltas_fit = h.deltas_fit;
  deltas_run = h.deltas_run;
  hosts_fit = omega (
    arith,
    h.hosts_fit,
    role_count-insert-le Role.host connection (new_connection connection) c.connections refl,
  );
  clients_fit = omega (
    arith,
    h.clients_fit,
    role_count-insert-le Role.client connection (new_connection connection) c.connections refl,
  );
  records_fit = h.records_fit;
}

handle-Fits :
    (state : Connection) (frame : Object) (now : ℕ) (c : Core)
    → Fits c
    → OutcomeFits (handle state frame now c)
unfolding handle
handle-Fits state frame now c h = go state.role
  where
    go :
        (role : Option Role)
        → OutcomeFits (elim role [
          | none ↦ hello state frame c
          | some Role.host ↦ host_frame state frame now c
          | some Role.client ↦ client_frame state frame now c
        ])
    go none = hello-Fits state frame c h
    go (some Role.host) = host_frame-Fits state frame now c h
    go (some Role.client) = client_frame-Fits state frame now c h

caught-Fits :
    (connection : String) (now : ℕ) (outcome : Outcome)
    → OutcomeFits outcome
    → Fits (caught connection now outcome)
unfolding caught
caught-Fits connection now (Outcome.done c) h = h
caught-Fits connection now (Outcome.raised code c) h =
    elim (Option-cases (lookup connection c.connections)) [
      | inl gone ↦ rw (gone, caught) h
      | inr (state, found) ↦ rw (found, caught) (refuse-Fits state code now c h)
    ]

receive-Fits :
    (connection : String) (frame : Object) (now : ℕ) (c : Core)
    → Fits c
    → Fits (receive connection frame now c).0
unfolding receive
receive-Fits connection frame now c h = elim (Option-cases (lookup connection c.connections)) [
  | inl unknown ↦ rw (unknown, receive) h
  | inr (state, found) ↦
      rw (found, receive)
        (finish-Fits _ (caught-Fits connection now _ (handle-Fits state frame now c h)))
]

without-Fits :
    (connection : String) (c : Core)
    → Fits c
    → Fits (record c { connections = remove connection c.connections })
without-Fits connection c h = record {
  sessions_fit = h.sessions_fit;
  receipts_fit = h.receipts_fit;
  deltas_fit = h.deltas_fit;
  deltas_run = h.deltas_run;
  hosts_fit = omega (arith, h.hosts_fit, role_count-remove-le Role.host connection c.connections);
  clients_fit =
      omega (arith, h.clients_fit, role_count-remove-le Role.client connection c.connections);
  records_fit = h.records_fit;
}

disconnect-Fits :
    (connection : String) (now : ℕ) (c : Core) → Fits c → Fits (disconnect connection now c).0
unfolding disconnect
disconnect-Fits connection now c h = elim (Option-cases (lookup connection c.connections)) [
  | inl unknown ↦ rw (unknown, disconnect) (finish-Fits c h)
  | inr (state, found) ↦
      rw (found, disconnect) (finish-Fits _ (forget-Fits state now _ (without-Fits connection c h)))
]

tick_session-Fits : (key : SessionKey) (now : ℕ) (c : Core) → Fits c → Fits (tick_session key now c)
unfolding tick_session
tick_session-Fits key now c h = elim (Option-cases (lookup key c.sessions)) [
  | inl gone ↦ rw (gone, tick_session) h
  | inr (r, found) ↦
      let kept =
        update-Fits key (keep_decided now) _
          (λ s _ f.
            unfold keep_decided in
            record {
              tickets_fit = f.tickets_fit;
              tickets_named = f.tickets_named;
              window_fits = f.window_fits;
            })
          (end_tickets-Fits key (select (is_expired now) (values r.tickets)) ResolvedBy.expired now
            c h) in
      let computed =
        if-keeps Fits (is_empty (select (is_expired now) (values r.tickets))) kept
          (recompute-Fits key _ kept) in
      rw (found, tick_session)
        (if-keeps Fits (is_stale c.limits.disconnected_ttl_ms now r)
          (remove_session-Fits key now _ computed) computed)
]

tick_sessions-Fits :
    (keys : List SessionKey) (now : ℕ) (c : Core) → Fits c → Fits (tick_sessions keys now c)
unfolding tick_sessions
tick_sessions-Fits [] now c h = h
tick_sessions-Fits (k ∷ ks) now c h = tick_sessions-Fits ks now _ (tick_session-Fits k now c h)

drop_receipts-Fits : (now : ℕ) (c : Core) → Fits c → Fits (drop_receipts now c)
unfolding drop_receipts
drop_receipts-Fits now c h = record {
  sessions_fit = h.sessions_fit;
  receipts_fit =
      omega (arith, h.receipts_fit, length-select-le (λ p. is_retained now p.1) c.receipts);
  deltas_fit = h.deltas_fit;
  deltas_run = h.deltas_run;
  hosts_fit = h.hosts_fit;
  clients_fit = h.clients_fit;
  records_fit = h.records_fit;
}

tick-Fits : (now : ℕ) (c : Core) → Fits c → Fits (tick now c).0
unfolding tick
tick-Fits now c h =
    finish-Fits _
      (drop_receipts-Fits now _ (tick_sessions-Fits _ now _ (fail_flights-Fits _ now c h)))

pub step-Fits : (input : Input) (c : Core) → Fits c → Fits (step input c).0
unfolding step
step-Fits (connects connection) c h = connect-Fits connection c h
step-Fits (receives connection frame now) c h = receive-Fits connection frame now c h
step-Fits (disconnects connection now) c h = disconnect-Fits connection now c h
step-Fits (ticks now) c h = tick-Fits now c h

run-Fits : (inputs : List Input) (c : Core) → Fits c → Fits (run inputs c)
unfolding run
run-Fits [] c h = h
run-Fits (input ∷ inputs) c h = run-Fits inputs _ (step-Fits input c h)

init-Fits : (config : Config) → Fits (init config)
unfolding role_count
init-Fits config = omega arith

-- Whatever its server calls it with, in any order, a core that starts empty never holds more
-- sessions, receipts, deltas, host or client connections than its limits say, nor a session more
-- tickets, window events or window bytes; a session's byte count is the sum of its events' sizes,
-- each ticket stands under its own id, and the kept deltas have consecutive numbers up to the newest.
pub run-init-Fits : (config : Config) (inputs : List Input) → Fits (run inputs (init config))
run-init-Fits config inputs = run-Fits inputs (init config) (init-Fits config)

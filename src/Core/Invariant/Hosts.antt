-- ===== src/Core/Invariant/Hosts.antt =====
-- A connection's hello, a host's frames and a client's frames keep the capacity invariant.
use deskhelm.Prelude.{
  ℕ, ◌<◌, ◌≤◌, ◌≡◌, refl, String, string_eq, some, arith, inl, inr, Bool-cases, Option-cases,
  length, leb, not_leb→lt, present,
}
use deskhelm.Dict.{lookup, modify}
use deskhelm.Dict.Laws.{length-insert}
use deskhelm.Dict.Every.{Every-insert}
use deskhelm.Json.{Object}
use deskhelm.Protocol.Session.{SessionKey, key_eq}
use deskhelm.Protocol.Fields.{Result-cases, get}
use deskhelm.Protocol.Fact.{fact_from_dict}
use deskhelm.Core.State.{CoreLimits, SessionRecord, Core, Connection, Role}
use deskhelm.Core.Clients.{update_connection, is_text}
use deskhelm.Core.Hosts.{
  Hello, Opening, greet, same_role, role_count, role_limit, accept_hello, hello, hello_fields,
  is_version_two, new_session, reopened, is_live, announce_session, open_session, session_open,
  opening_fields, owned, report_fact, close_session, session_frame, host_frame,
}
use deskhelm.Core.Invariant.{RecordFits, Fits, update-Fits}
use deskhelm.Core.Invariant.Actions.{send_to-Fits, recompute-Fits}
use deskhelm.Core.Invariant.Tickets.{open_tickets-Fits}
use deskhelm.Core.Invariant.Settle.{remove_session-Fits}
use deskhelm.Core.Invariant.Connections.{role_count-modify, role_count-modify-suc, role_count-greet}
use deskhelm.Core.Invariant.Facts.{OutcomeFits, fact-Fits, effect_result-Fits}

-- A change of a connection that leaves its role alone.
pub update_connection-Fits :
    (id : String) (f : Connection → Connection) (c : Core)
    → ((s : Connection) → (f s).role ≡ s.role)
    → Fits c
    → Fits (update_connection id f c)
unfolding update_connection
update_connection-Fits id f c same h = record {
  sessions_fit = h.sessions_fit;
  receipts_fit = h.receipts_fit;
  deltas_fit = h.deltas_fit;
  deltas_run = h.deltas_run;
  hosts_fit = omega (arith, h.hosts_fit, role_count-modify Role.host id f c.connections same);
  clients_fit = omega (arith, h.clients_fit, role_count-modify Role.client id f c.connections same);
  records_fit = h.records_fit;
}

-- The greeting role has room for one more, and the other role's count does not grow.
greet_within :
    (role k : Role) (id : String) (h : Hello) (c : Core)
    → h.role ≡ k
    → role_count k c.connections < role_limit c k
    → role_count role c.connections ≤ role_limit c role
    → role_count role (modify id (greet h) c.connections) ≤ role_limit c role
greet_within Role.host Role.host id h c e room fits =
    omega (arith, role_count-modify-suc Role.host id (greet h) c.connections)
greet_within Role.client Role.client id h c e room fits =
    omega (arith, role_count-modify-suc Role.client id (greet h) c.connections)
greet_within Role.host Role.client id h c e room fits =
    omega (arith, role_count-greet Role.host h id c.connections (unfold same_role in rw e))
greet_within Role.client Role.host id h c e room fits =
    omega (arith, role_count-greet Role.client h id c.connections (unfold same_role in rw e))

greet-Fits :
    (id : String) (h : Hello) (c : Core)
    → role_count h.role c.connections < role_limit c h.role
    → Fits c
    → Fits (update_connection id (greet h) c)
unfolding update_connection role_limit
greet-Fits id h c room fits = record {
  sessions_fit = fits.sessions_fit;
  receipts_fit = fits.receipts_fit;
  deltas_fit = fits.deltas_fit;
  deltas_run = fits.deltas_run;
  hosts_fit = greet_within Role.host h.role id h c refl room fits.hosts_fit;
  clients_fit = greet_within Role.client h.role id h c refl room fits.clients_fit;
  records_fit = fits.records_fit;
}

accept_hello-Fits :
    (state : Connection) (h : Hello) (c : Core) → Fits c → OutcomeFits (accept_hello state h c)
unfolding accept_hello
accept_hello-Fits state h c fits =
    elim (Bool-cases (leb (role_limit c h.role) (role_count h.role c.connections))) [
      | inl full ↦ rw full fits
      | inr room ↦ rw room (
          send_to-Fits (some state.connection_id) _ _
            (greet-Fits state.connection_id h c (not_leb→lt _ _ room) fits))
    ]

pub hello-Fits :
    (state : Connection) (frame : Object) (c : Core) → Fits c → OutcomeFits (hello state frame c)
unfolding hello
hello-Fits state frame c h = elim (Bool-cases (is_text (get frame "type") "hello")) [
  | inr other ↦ rw other h
  | inl greeting ↦ rw greeting (elim (Bool-cases (is_version_two (get frame "protocol_version"))) [
    | inr old ↦ rw old h
    | inl two ↦ rw two (elim (Result-cases (hello_fields frame)) [
      | inl wrong ↦ rw wrong h
      | inr (fields, fine) ↦ rw fine (accept_hello-Fits state fields c h)
    ])
  ])
]

announce_session-Fits :
    (id : String) (o : Opening) (now : ℕ) (c : Core) → Fits c → Fits (announce_session id o now c)
unfolding announce_session
announce_session-Fits id o now c h = send_to-Fits (some id) _ _ (
    recompute-Fits o.key _
      (open_tickets-Fits o.key o.requests now _ (update_connection-Fits id _ c (λ s. refl) h)))

new_session-RecordFits :
    (limits : CoreLimits) (owner : String) (o : Opening) (now : ℕ)
    → RecordFits limits (new_session owner o now)
unfolding new_session
new_session-RecordFits limits owner o now = omega arith

open_session-Fits :
    (state : Connection) (o : Opening) (now : ℕ) (c : Core)
    → Fits c
    → OutcomeFits (open_session state o now c)
unfolding open_session
open_session-Fits state o now c h = elim (Option-cases (lookup o.key c.sessions)) [
  | inl missing ↦
      rw (missing, open_session)
        (elim (Bool-cases (leb c.limits.max_sessions (length c.sessions))) [
          | inl full ↦ rw full (send_to-Fits (some state.connection_id) _ c h)
          | inr room ↦ rw room (
              announce_session-Fits state.connection_id o now _ (record {
                sessions_fit = ground (
                  arith,
                  missing,
                  length-insert o.key (new_session state.connection_id o now) c.sessions,
                );
                receipts_fit = h.receipts_fit;
                deltas_fit = h.deltas_fit;
                deltas_run = h.deltas_run;
                hosts_fit = h.hosts_fit;
                clients_fit = h.clients_fit;
                records_fit =
                    Every-insert (RecordFits c.limits) o.key _ c.sessions
                      (new_session-RecordFits c.limits state.connection_id o now) h.records_fit;
              }))
        ])
  | inr (r, found) ↦
      rw (found, open_session)
        (elim (Bool-cases (is_live r)) [
          | inl live ↦ rw live (send_to-Fits (some state.connection_id) _ c h)
          | inr gone ↦ rw gone (
              announce_session-Fits state.connection_id o now _ (
                update-Fits o.key _ c
                  (λ s _ f.
                    unfold reopened in
                    record {
                      tickets_fit = omega arith;
                      tickets_named = tt;
                      window_fits = f.window_fits;
                    })
                  h))
        ])
]

pub session_open-Fits :
    (state : Connection) (frame : Object) (now : ℕ) (c : Core)
    → Fits c
    → OutcomeFits (session_open state frame now c)
unfolding session_open
session_open-Fits state frame now c h = elim (Bool-cases (present state.session)) [
  | inl opened ↦ rw opened h
  | inr free ↦ rw free (elim (Result-cases (opening_fields frame)) [
    | inl wrong ↦ rw wrong h
    | inr (o, fine) ↦ rw fine (open_session-Fits state o now c h)
  ])
]

report_fact-Fits :
    (key : SessionKey) (r : SessionRecord) (frame : Object) (now : ℕ) (c : Core)
    → Fits c
    → OutcomeFits (report_fact key r frame now c)
unfolding report_fact
report_fact-Fits key r frame now c h = elim (Result-cases (fact_from_dict frame)) [
  | inl wrong ↦ rw (wrong, report_fact) h
  | inr (f, fine) ↦ rw (fine, report_fact) (fact-Fits key r f now c h)
]

session_frame-Fits :
    (state : Connection) (key : SessionKey) (r : SessionRecord) (frame : Object) (now : ℕ)
    (c : Core)
    → Fits c
    → OutcomeFits (session_frame state key r frame now c)
unfolding session_frame
session_frame-Fits state key r frame now c h =
    let kind = get frame "type" in
    elim (Bool-cases (is_text kind "fact")) [
      | inl yes_fact ↦ rw yes_fact (report_fact-Fits key r frame now c h)
      | inr no_fact ↦ rw no_fact (elim (Bool-cases (is_text kind "effect_result")) [
        | inl yes_result ↦ rw yes_result (effect_result-Fits key frame now c h)
        | inr no_result ↦ rw no_result (elim (Bool-cases (is_text kind "session_close")) [
          | inl closing ↦ rw closing (
              unfold close_session in
              update_connection-Fits state.connection_id _ _ (λ s. refl)
                (remove_session-Fits key now c h))
          | inr other ↦ rw other h
        ])
      ])
    ]

pub host_frame-Fits :
    (state : Connection) (frame : Object) (now : ℕ) (c : Core)
    → Fits c
    → OutcomeFits (host_frame state frame now c)
unfolding host_frame
host_frame-Fits state frame now c h =
    elim (Bool-cases (is_text (get frame "type") "session_open")) [
      | inl opening ↦ rw opening (session_open-Fits state frame now c h)
      | inr other ↦ rw other (elim (Option-cases (owned state c)) [
        | inl nothing ↦ rw nothing h
        | inr ((key, r), owns) ↦ rw owns (session_frame-Fits state key r frame now c h)
      ])
    ]

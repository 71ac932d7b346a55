-- ===== src/Core/Invariant.antt =====
-- The capacity invariant of the Bridge core (bridge/deskhelm_core/core.py): every limit of
-- `CoreLimits` on what the core holds. The children prove that each part keeps it.
pub mod Names
pub mod Actions
pub mod Tickets
pub mod Connections
pub mod Settle
pub mod Facts
pub mod Commands
pub mod Hosts
pub mod Clients
pub mod Inputs
pub mod Resume
use deskhelm.Prelude.{ℕ, ◌+◌, ◌≤◌, ◌≡◌, List, Option, some, arith, length, All, String}
use deskhelm.Dict.{Dict, lookup, modify}
use deskhelm.Dict.Laws.{length-modify}
use deskhelm.Dict.Every.{Every, Every-modify}
use deskhelm.Protocol.Session.{SessionKey, key_eq}
use deskhelm.Core.State.{CoreLimits, SessionRecord, Core, Role, Ticket}
use deskhelm.Core.Window.Bounds.{IsWindow}
use deskhelm.Core.Deltas.{IsRun}
use deskhelm.Core.Actions.{update}
use deskhelm.Core.Hosts.{role_count}

-- Each ticket stands under its own id.
abbrev pub Named : Dict String Ticket → Type 0
Named tickets = All (λ p. p.1.approval_id ≡ p.0) tickets

pub record RecordFits (limits : CoreLimits) (r : SessionRecord) : Type 0 where
  pub tickets_fit : length r.tickets ≤ limits.max_tickets
  pub tickets_named : Named r.tickets
  pub window_fits : IsWindow limits r.window r.window_bytes

pub record Fits (c : Core) : Type 0 where
  pub sessions_fit : length c.sessions ≤ c.limits.max_sessions
  pub receipts_fit : length c.receipts ≤ c.limits.max_receipts
  pub deltas_fit : length c.deltas ≤ c.limits.delta_history
  pub deltas_run : IsRun c.console_seq c.deltas
  pub hosts_fit : role_count Role.host c.connections ≤ c.limits.max_hosts
  pub clients_fit : role_count Role.client c.connections ≤ c.limits.max_clients
  pub records_fit : Every (RecordFits c.limits) c.sessions

-- A change of one record keeps the invariant if it keeps the record's part.
pub update-Fits :
    (key : SessionKey) (f : SessionRecord → SessionRecord) (c : Core)
    → ((r : SessionRecord)
        → lookup key c.sessions ≡ some r
        → RecordFits c.limits r
        → RecordFits c.limits (f r))
    → Fits c
    → Fits (update key f c)
unfolding update
update-Fits key f c keep h = record {
  sessions_fit = omega (arith, length-modify key f c.sessions);
  receipts_fit = h.receipts_fit;
  deltas_fit = h.deltas_fit;
  deltas_run = h.deltas_run;
  hosts_fit = h.hosts_fit;
  clients_fit = h.clients_fit;
  records_fit = Every-modify (RecordFits c.limits) key f c.sessions keep h.records_fit;
}

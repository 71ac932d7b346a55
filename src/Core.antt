-- ===== src/Core.antt =====
-- bridge/deskhelm_core/core.py: the single-threaded Bridge core.
pub mod Events
pub mod Frames
pub mod State
pub mod Window
pub mod Actions
pub mod Tickets
pub mod Settle
pub mod Facts
pub mod Plans
pub mod Commands
pub mod Clients
pub mod Hosts
pub mod Views
pub mod Machine
pub mod Deltas
pub mod Invariant

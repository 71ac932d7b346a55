-- ===== src/Transcript/Tells.antt =====
-- The patches of bridge/deskhelm_client/transcript.py tell a surface everything that changes, and the
-- bounds hold: one module for each group of handlers.
mod Messages
mod Tools
mod Requests
mod Trim
pub mod Streams
pub mod Bounds
pub mod Once

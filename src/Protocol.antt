-- ===== src/Protocol.antt =====
-- bridge/deskhelm_protocol: the values that hosts, clients and the Bridge exchange, and the
-- checks that a decoded frame passes at the boundary.
pub mod Fields
pub mod Session
pub mod Capability
pub mod Request
pub mod Shapes
pub mod Fact
pub mod Command
pub mod Blanks
pub mod Texts
pub mod Answering
pub mod Roundtrip
pub mod Accepted
pub mod Sound

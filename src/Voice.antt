-- ===== src/Voice.antt =====
-- The voice host's decisions (bridge/deskhelm_voice_host) over the client's view of the console
-- (bridge/deskhelm_client).
pub mod Client
pub mod Policy
pub mod Transcript
pub mod Notices
pub mod Labels
pub mod Due

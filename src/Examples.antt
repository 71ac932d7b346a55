-- ===== src/Examples.antt =====
-- Concrete runs of the model, on which the theorems hold with all their conditions.
mod Frames
mod Core
mod Commands
mod Window
mod Wire
mod Voice
mod Protocol
mod Effects
mod Replica
mod Transcript
mod Gateway
mod Link
mod Accepted

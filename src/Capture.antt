-- ===== src/Capture.antt =====
-- The guided capture session (app/features/guided-capture/core).
pub mod Records
pub mod State
pub mod Slots
pub mod Checks
pub mod Shots
pub mod Reducer
pub mod Invariant
pub mod Sessions
pub mod Responses
pub mod Progress
mod Examples

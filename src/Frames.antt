-- ===== src/Frames.antt =====
-- The frame scheduler (app/features/guided-capture/core/scheduler.ts).
pub mod Scheduler
pub mod Events
pub mod Invariant
pub mod Spacing
pub mod Progress
mod Examples

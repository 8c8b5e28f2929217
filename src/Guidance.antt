-- ===== src/Guidance.antt =====
-- Live guidance (app/features/guided-capture/core/guidanceSelector.ts).
pub mod Candidates
pub mod Hysteresis
pub mod Choice
pub mod Stability
pub mod Entry
pub mod Waking
mod Examples

-- ===== src/Bus.antt =====
-- The command bus (SandboxCommandBus of app/domain/commandBus.ts).
pub mod Records
pub mod Cache
pub mod Execute
pub mod Bounds
pub mod Replay
pub mod Kept
pub mod Once
pub mod Conflict
mod Examples

-- ===== src/Background.antt =====
-- Background editing (app/features/background-edit/backgroundEditReducer.ts).
pub mod Reducer
pub mod Approval
mod Examples

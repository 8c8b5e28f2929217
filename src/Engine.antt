-- ===== src/Engine.antt =====
-- The sandbox domain engine (app/domain/sandboxEngine.ts).
pub mod Ident
pub mod Records
pub mod State
pub mod Action
pub mod Access
pub mod Wallet
pub mod Reservation
pub mod Opening
pub mod Purchase
pub mod Pricing
pub mod Checkout
pub mod Orders
pub mod Review
pub mod Cancellation
pub mod Resolution
pub mod Returns
pub mod Auctions
pub mod Settlement
pub mod Ranking
pub mod Sale
pub mod Closing
pub mod Clock
pub mod Follows
pub mod Soundness
pub mod Commands
pub mod Initial
pub mod Refusals
mod Examples

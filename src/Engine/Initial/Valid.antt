-- ===== src/Engine/Initial/Valid.antt =====
-- The state of createState (app/domain/sandboxEngine.ts) and the invariant of the engine's state.
use furima_sandbox.Prelude.{ℕ, ◌*◌, ◌≤◌, List, [], ◌∷◌, arith, length, All}
use furima_sandbox.Text.{Text}
use furima_sandbox.Engine.Records.{MercariItem}
use furima_sandbox.Engine.State.{NotificationItem}
use furima_sandbox.Engine.Soundness.{Sound}
use furima_sandbox.Engine.Wallet.Reconciled.{IsReconciled, total_of}
use furima_sandbox.Engine.Initial.{
  ScenarioId, CatalogItem, initial_wallets, initial_movements, create_state,
}

length-initial_movements-le :
    (cs : List CatalogItem) (items : List MercariItem) (at : ℕ)
    → length (initial_movements cs items at) ≤ 2 * length cs
unfolding initial_movements
length-initial_movements-le [] items at = omega arith
length-initial_movements-le (c ∷ cs) [] at = omega arith
length-initial_movements-le (c ∷ cs) (i ∷ items) at =
    ground (arith, length-initial_movements-le cs items at)

initial_wallets-IsReconciled : All IsReconciled initial_wallets
unfolding initial_wallets total_of
initial_wallets-IsReconciled = ground arith

-- A catalog of at most a thousand items and at most two hundred notifications give a sound state.
pub create_state-Sound :
    (items : List CatalogItem) (scenario : ScenarioId) (seed : Text) (now : ℕ)
    (notifications : List NotificationItem)
    → length items ≤ 1000
    → length notifications ≤ 200
    → Sound (create_state items scenario seed now notifications)
unfolding create_state
create_state-Sound items scenario seed now notifications h k = record {
  reconciled = initial_wallets-IsReconciled;
  events_kept = omega arith;
  notifications_kept = k;
  movements_kept = omega (arith, length-initial_movements-le items _ now);
}

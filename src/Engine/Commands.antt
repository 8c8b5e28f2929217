-- ===== src/Engine/Commands.antt =====
-- The commands of the engine that change the state, as data, and runs of them: each public method of
-- SandboxEngine (app/domain/sandboxEngine.ts) that is modelled, called in any order with any
-- arguments.
use furima_sandbox.Prelude.{ℕ, Bool, Option, List, [], ◌∷◌}
use furima_sandbox.Text.{Text}
use furima_sandbox.Engine.Ident.{Ident}
use furima_sandbox.Engine.State.{EngineState}
use furima_sandbox.Engine.Access.{AgentActionOptions}
use furima_sandbox.Engine.Wallet.{Amount, deposit_wallet, withdraw_wallet}
use furima_sandbox.Engine.Purchase.{start_purchase}
use furima_sandbox.Engine.Pricing.{PurchasePricing}
use furima_sandbox.Engine.Checkout.{confirm_purchase, purchase_item_with_pricing}
use furima_sandbox.Engine.Orders.{ship_order, mark_delivered}
use furima_sandbox.Engine.Review.{review_order}
use furima_sandbox.Engine.Cancellation.{cancel_order}
use furima_sandbox.Engine.Resolution.{resolve_cancellation}
use furima_sandbox.Engine.Returns.{request_return, confirm_return_received}
use furima_sandbox.Engine.Auctions.{place_bid}
use furima_sandbox.Engine.Settlement.{Collation}
use furima_sandbox.Engine.Closing.{close_auction}
use furima_sandbox.Engine.Clock.{advance_clock}
use furima_sandbox.Engine.Follows.{follow_user, unfollow_user}

pub data Command : Type 0 where
  deposits withdraws : Amount → Command
  starts_purchase confirms_purchase : Ident → Command
  purchases : Ident → Option PurchasePricing → Command
  ships marks_delivered : Ident → Command
  reviews : Ident → ℕ → Text → Command
  cancels : Ident → Text → Command
  resolves : Ident → Bool → Command
  requests_return : Ident → Text → Command
  receives_return : Ident → Command
  bids : Ident → Amount → Command
  closes_auction : Collation → Ident → Command
  advances_clock : Collation → Amount → Command
  follows unfollows : Ident → Command

-- The state after a command, whether it returned or failed.
unfoldable pub perform : Command → AgentActionOptions → EngineState → EngineState
perform (deposits amount) o s = (deposit_wallet amount o s).1
perform (withdraws amount) o s = (withdraw_wallet amount o s).1
perform (starts_purchase item_id) o s = (start_purchase item_id o s).1
perform (confirms_purchase intent_id) o s = (confirm_purchase intent_id o s).1
perform (purchases item_id pricing) o s = (purchase_item_with_pricing item_id pricing o s).1
perform (ships transaction_id) o s = (ship_order transaction_id o s).1
perform (marks_delivered transaction_id) o s = (mark_delivered transaction_id o s).1
perform (reviews transaction_id rating comment) o s =
    (review_order transaction_id rating comment o s).1
perform (cancels transaction_id reason) o s = (cancel_order transaction_id reason o s).1
perform (resolves transaction_id approve) o s = (resolve_cancellation transaction_id approve o s).1
perform (requests_return transaction_id reason) o s = (request_return transaction_id reason o s).1
perform (receives_return transaction_id) o s = (confirm_return_received transaction_id o s).1
perform (bids item_id amount) o s = (place_bid item_id amount o s).1
perform (closes_auction collates item_id) o s = (close_auction collates item_id o s).1
perform (advances_clock collates amount) o s = (advance_clock collates amount o s).1
perform (follows actor_id) o s = (follow_user actor_id o s).1
perform (unfollows actor_id) o s = (unfollow_user actor_id o s).1

-- A run of commands, each with the options of its caller.
unfoldable pub run : EngineState → List (Command × AgentActionOptions) → EngineState
run s [] = s
run s ((c, o) ∷ rest) = run (perform c o s) rest

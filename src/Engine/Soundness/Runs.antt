-- ===== src/Engine/Soundness/Runs.antt =====
-- The invariant along runs of the engine's commands (app/domain/sandboxEngine.ts).
use furima_sandbox.Prelude.{List, [], ◌∷◌}
use furima_sandbox.Engine.State.{EngineState}
use furima_sandbox.Engine.Access.{AgentActionOptions}
use furima_sandbox.Engine.Commands.{
  Command, deposits, withdraws, starts_purchase, confirms_purchase, purchases, ships,
  marks_delivered, reviews, cancels, resolves, requests_return, receives_return, bids,
  closes_auction, advances_clock, follows, unfollows, perform, run,
}
use furima_sandbox.Engine.Soundness.{Sound}
use furima_sandbox.Engine.Soundness.Reservations.{start_purchase-Sound}
use furima_sandbox.Engine.Soundness.Payments.{
  deposit_wallet-Sound, withdraw_wallet-Sound, confirm_purchase-Sound,
}
use furima_sandbox.Engine.Soundness.Pricing.{purchase_item_with_pricing-Sound}
use furima_sandbox.Engine.Soundness.Orders.{
  ship_order-Sound, mark_delivered-Sound, review_order-Sound,
}
use furima_sandbox.Engine.Soundness.Follows.{follow_user-Sound, unfollow_user-Sound}
use furima_sandbox.Engine.Soundness.Bids.{place_bid-Sound}
use furima_sandbox.Engine.Soundness.Auctions.{close_auction-Sound, advance_clock-Sound}
use furima_sandbox.Engine.Soundness.Cancellations.{
  cancel_order-Sound, resolve_cancellation-Sound, request_return-Sound,
  confirm_return_received-Sound,
}

pub perform-Sound :
    (c : Command) (o : AgentActionOptions) (s : EngineState) → Sound s → Sound (perform c o s)
unfolding perform
perform-Sound (deposits amount) o s h = (deposit_wallet-Sound amount o).after s h
perform-Sound (withdraws amount) o s h = (withdraw_wallet-Sound amount o).after s h
perform-Sound (starts_purchase k) o s h = (start_purchase-Sound k o).after s h
perform-Sound (confirms_purchase k) o s h = (confirm_purchase-Sound k o).after s h
perform-Sound (purchases k pricing) o s h = (purchase_item_with_pricing-Sound k pricing o).after s h
perform-Sound (ships k) o s h = (ship_order-Sound k o).after s h
perform-Sound (marks_delivered k) o s h = (mark_delivered-Sound k o).after s h
perform-Sound (reviews k rating comment) o s h = (review_order-Sound k rating comment o).after s h
perform-Sound (cancels k reason) o s h = (cancel_order-Sound k reason o).after s h
perform-Sound (resolves k approve) o s h = (resolve_cancellation-Sound k approve o).after s h
perform-Sound (requests_return k reason) o s h = (request_return-Sound k reason o).after s h
perform-Sound (receives_return k) o s h = (confirm_return_received-Sound k o).after s h
perform-Sound (bids k amount) o s h = (place_bid-Sound k amount o).after s h
perform-Sound (closes_auction collates k) o s h = (close_auction-Sound collates k o).after s h
perform-Sound (advances_clock collates amount) o s h =
    (advance_clock-Sound collates amount o).after s h
perform-Sound (follows k) o s h = (follow_user-Sound k o).after s h
perform-Sound (unfollows k) o s h = (unfollow_user-Sound k o).after s h

-- From a sound state, after any commands by any callers, whether they succeed or fail: each wallet's
-- available and held balance is what the replay of its ledger gives, and the events, notifications
-- and inventory movements are within their retention limits.
pub run-Sound :
    (s : EngineState) (commands : List (Command × AgentActionOptions))
    → Sound s
    → Sound (run s commands)
unfolding run
run-Sound s [] h = h
run-Sound s ((c, o) ∷ rest) h = run-Sound (perform c o s) rest (perform-Sound c o s h)

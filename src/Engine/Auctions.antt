-- ===== src/Engine/Auctions.antt =====
-- Bids: placeBid of app/domain/sandboxEngine.ts.
use furima_sandbox.Prelude.{
  ℕ, ◌+◌, Bool, true, false, not, ◌||◌, Option, none, some, List, [], ◌∷◌, ◌++◌, ltb, leb, ◌==◌,
  keep, sort_by, head, if◌then◌else◌,
}
use furima_sandbox.Prelude.Int.{ℤ, pos, negsuc, pos_part, ◌+ℤ◌, ltb_ℤ}
use furima_sandbox.Text.{text}
use furima_sandbox.Engine.Ident.{Ident, auction_hold, same}
use furima_sandbox.Engine.Records.{
  MercariItem, AuctionBidRecord, SandboxActor, AggregateType, Value, WalletLedgerType,
}
use furima_sandbox.Engine.State.{
  WalletSnapshot, EngineState, EventSpec, next_id, commit, add_notification, update_item, find_item,
  find_wallet,
}
use furima_sandbox.Engine.Action.{
  Action, ◌>>=◌, ◌>>◌, pure, gets, modify, run_helper, reject_if, require, item_not_found,
  forbidden, not_auction, auction_ended, already_sold, invalid_amount, bid_too_low, payment_failed,
}
use furima_sandbox.Engine.Access.{AgentActionOptions, authenticate, is_buyer}
use furima_sandbox.Engine.Wallet.{
  Amount, whole, fractional, add_ledger, held_amount_for_reference, release_wallet_hold,
}
use furima_sandbox.Engine.Opening.{shipping_cost_for}
use furima_sandbox.Engine.Purchase.{first_id}

pub record BidResult : Type 0 where
  pub current_bid : ℕ
  pub bids_count : ℕ

-- item.auctionEndsAt && Date.parse(item.auctionEndsAt) <= now
abbrev pub has_ended : MercariItem → ℕ → Bool
has_ended item now = elim item.auction_ends_at [ none ↦ false | some at ↦ leb at now ]

-- (item.currentBid ?? item.price) + 100
abbrev pub minimum_bid : MercariItem → ℕ
minimum_bid item = elim item.current_bid [ none ↦ item.price | some bid ↦ bid ] + 100

-- A positive integer.
unfoldable pub positive_amount : Amount → Option ℕ
positive_amount fractional = none
positive_amount (whole (negsuc n)) = none
positive_amount (whole (pos n)) = if n == 0 then none else some n

-- The bids for the item.
abbrev pub bids_for : Ident → EngineState → List AuctionBidRecord
bids_for item_id s = keep (λ b. same b.item_id item_id) s.bids

-- [...bids].filter(…).sort((a, b) => b.amount - a.amount)[0]
unfoldable pub highest_bid : Ident → EngineState → Option AuctionBidRecord
highest_bid item_id s = head (sort_by (λ a b. ltb b.amount a.amount) (bids_for item_id s))

-- !wallet || requiredHold > wallet.availableBalance + existingHold
unfoldable pub cannot_cover : ℕ → ℤ → Option WalletSnapshot → Bool
cannot_cover required existing none = true
cannot_cover required existing (some w) = ltb_ℤ (pos w.available_balance +ℤ existing) (pos required)

-- if (existingHold > 0) this.releaseWalletHold(…)
unfoldable pub release_own : Ident → ℤ → Ident → EngineState → EngineState
release_own actor existing reference s =
    if leb (pos_part existing) 0
    then s
    else (release_wallet_hold actor (pos_part existing) reference s).1

-- The hold of the bidder that is outbid.
unfoldable pub release_outbid :
    MercariItem → Ident → Option AuctionBidRecord → EngineState → EngineState
release_outbid item actor none s = s
release_outbid item actor (some bid) s =
    if same bid.bidder_id actor
    then s
    else (release_wallet_hold bid.bidder_id (bid.amount + shipping_cost_for item)
        (auction_hold item.id bid.bidder_id) s).1

unfoldable pub push_bid : Ident → Ident → ℕ → EngineState → EngineState
push_bid item_id bidder amount s =
    let (bid_id, s₁) = next_id (text "bid") s in
    record s₁ {
      bids =
          s.bids
          ++ record {
            id = bid_id;
            item_id = item_id;
            bidder_id = bidder;
            amount = amount;
            created_at = s.now;
          }
            ∷ [];
    }

unfoldable pub notify_outbid :
    MercariItem → Ident → Option AuctionBidRecord → Option Ident → EngineState → EngineState
notify_outbid item actor none event s = s
notify_outbid item actor (some bid) event s =
    if same bid.bidder_id actor
    then s
    else add_notification bid.bidder_id (text "入札を上回られました")
        (Value.string item.title ∷ Value.string (text "の入札額が更新されました。") ∷ []) event s

bid_event : Ident → ℕ → ℕ → Ident → EventSpec
bid_event item_id amount count actor = record {
  kind = text "BID_PLACED";
  aggregate_type = AggregateType.auction;
  aggregate_id = item_id;
  actor_id = actor;
  payload = (text "amount", Value.number amount) ∷ (text "bidsCount", Value.number count) ∷ [];
}

-- placeBid from the release of the holds on.
unfoldable pub write_bid :
    MercariItem → SandboxActor → ℕ → ℤ → Option AuctionBidRecord → Action BidResult
unfolding bid_event
write_bid item actor amount existing highest = do
  let reference = auction_hold item.id actor.id
  modify (release_own actor.id existing reference)
  modify (release_outbid item actor.id highest)
  modify (push_bid item.id actor.id amount)
  run_helper (add_ledger actor.id WalletLedgerType.hold (amount + shipping_cost_for item) reference)
  modify (
      update_item item.id
        (λ i. record i { current_bid = some amount; bids_count = item.bids_count + 1 }))
  events ← run_helper (commit (bid_event item.id amount (item.bids_count + 1) actor.id ∷ []))
  modify (notify_outbid item actor.id highest (first_id events))
  pure (record { current_bid = amount; bids_count = item.bids_count + 1 })

-- placeBid
unfoldable pub place_bid : Ident → Amount → AgentActionOptions → Action BidResult
place_bid item_id amount o = do
  actor ← authenticate o
  reject_if (not (is_buyer actor.role)) forbidden
  found ← gets (λ s. find_item s item_id)
  item ← require found item_not_found
  reject_if (not item.is_auction) not_auction
  now ← gets (λ s. s.now)
  reject_if (has_ended item now) auction_ended
  reject_if (item.is_sold || item.inventory_quantity == 0) already_sold
  value ← require (positive_amount amount) invalid_amount
  reject_if (ltb value (minimum_bid item)) bid_too_low
  wallet ← gets (λ s. find_wallet s actor.id)
  existing ← gets (held_amount_for_reference actor.id (auction_hold item_id actor.id))
  reject_if (cannot_cover (value + shipping_cost_for item) existing wallet) payment_failed
  highest ← gets (highest_bid item_id)
  write_bid item actor value existing highest

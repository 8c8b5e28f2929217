-- ===== src/Engine/Closing.antt =====
-- The end of auctions: settleExpiredAuction as a whole, and closeAuction, of
-- app/domain/sandboxEngine.ts.
use furima_sandbox.Prelude.{
  Bool, true, false, not, ◌&&◌, Option, none, some, List, [], ◌∷◌, any, find, if◌then◌else◌,
}
use furima_sandbox.Text.{text, Text-discrete}
use furima_sandbox.Engine.Ident.{Ident, same}
use furima_sandbox.Engine.Records.{MercariItem, AuctionBidRecord, SandboxActor, TransactionRecord}
use furima_sandbox.Engine.State.{EngineState, DomainEvent, find_item, find_wallet}
use furima_sandbox.Engine.Action.{
  Action, ◌>>=◌, ◌>>◌, pure, gets, reject_if, require, item_not_found, forbidden, not_auction,
  invalid_transition,
}
use furima_sandbox.Engine.Access.{AgentActionOptions, authenticate, is_operator}
use furima_sandbox.Engine.Auctions.{has_ended}
use furima_sandbox.Engine.Settlement.{
  Collation, ranked_bids, Candidate, select_bidder, archive_without_bids, archive_unpaid,
}
use furima_sandbox.Engine.Sale.{settle_seller}

-- From the choice of the winner on.
unfoldable pub settle_with :
    MercariItem → Candidate → Option SandboxActor → Action (List DomainEvent)
settle_with item c none = pure []
settle_with item c (some winner) = do
  seller ← gets (λ s. find_wallet s item.seller_id)
  settle_seller item c winner seller

unfoldable pub settle_selected :
    MercariItem
    → AuctionBidRecord
    → List AuctionBidRecord
    → Option Candidate
    → Action (List DomainEvent)
settle_selected item bid ranked none = archive_unpaid item bid ranked
settle_selected item bid ranked (some c) = settle_with item c c.winner

unfoldable pub settle_ranked : MercariItem → List AuctionBidRecord → Action (List DomainEvent)
settle_ranked item [] = archive_without_bids item.id
settle_ranked item (bid ∷ bids) = do
  selected ← select_bidder item (bid ∷ bids)
  settle_selected item bid (bid ∷ bids) selected

-- Whether there is an ended auction of the item, with no transaction yet.
unfoldable pub is_settleable : MercariItem → EngineState → Bool
is_settleable item s =
    item.is_auction
    && has_ended item s.now
    && not (any (λ t. same t.item_id item.id) s.transactions)

unfoldable pub settle_item : Collation → MercariItem → Action (List DomainEvent)
settle_item collates item = do
  open_ ← gets (is_settleable item)
  ranked ← gets (ranked_bids collates item.id)
  if open_ then settle_ranked item ranked else pure []

unfoldable pub settle_found : Collation → Option MercariItem → Action (List DomainEvent)
settle_found collates none = pure []
settle_found collates (some item) = settle_item collates item

-- settleExpiredAuction
unfoldable pub settle_expired_auction : Collation → Ident → Action (List DomainEvent)
unfolding settle_found
settle_expired_auction collates item_id = do
  found ← gets (λ s. find_item s item_id)
  settle_found collates found

pub data AuctionStatus : Type 0 where
  settled payment_failed no_bids : AuctionStatus

pub record CloseAuctionResult : Type 0 where
  pub item_id : Ident
  pub transaction_id : Option Ident
  pub status : AuctionStatus

-- events.some((event) => event.type === 'AUCTION_PAYMENT_FAILED')
is_failure_event : DomainEvent → Bool
is_failure_event e = elim (Text-discrete e.spec.kind (text "AUCTION_PAYMENT_FAILED")) [
  | yes _ ↦ true
  | no _ ↦ false
]

unfoldable pub close_result :
    Ident → List DomainEvent → Option TransactionRecord → CloseAuctionResult
unfolding is_failure_event
close_result item_id events none = record {
  item_id = item_id;
  transaction_id = none;
  status =
      if any is_failure_event events then AuctionStatus.payment_failed else AuctionStatus.no_bids;
}
close_result item_id events (some t) = record {
  item_id = item_id;
  transaction_id = some t.id;
  status = AuctionStatus.settled;
}

is_nil : List DomainEvent → Bool
is_nil [] = true
is_nil (_ ∷ _) = false

-- closeAuction
unfoldable pub close_auction : Collation → Ident → AgentActionOptions → Action CloseAuctionResult
unfolding is_nil
close_auction collates item_id o = do
  actor ← authenticate o
  reject_if (not (is_operator actor.role)) forbidden
  found ← gets (λ s. find_item s item_id)
  item ← require found item_not_found
  reject_if (not item.is_auction) not_auction
  now ← gets (λ s. s.now)
  reject_if (not (has_ended item now)) invalid_transition
  events ← settle_expired_auction collates item_id
  reject_if (is_nil events) invalid_transition
  sale ← gets (λ s. find (λ t. same t.item_id item_id) s.transactions)
  pure (close_result item_id events sale)

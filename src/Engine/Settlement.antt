-- ===== src/Engine/Settlement.antt =====
-- The end of an auction: settleExpiredAuction and closeAuction of app/domain/sandboxEngine.ts.
--
-- The order of bids of the same amount and time is that of localeCompare on their ids, which the
-- JavaScript engine supplies: it is the argument `collates`, that the first text comes before.
use furima_sandbox.Prelude.{
  ℕ, ◌+◌, Bool, false, not, ◌&&◌, ◌||◌, Option, none, some, List, [], ◌∷◌, ◌++◌, map, ltb, leb,
  ◌==◌, any, sort_by, if◌then◌else◌,
}
use furima_sandbox.Prelude.Int.{ℤ, pos, pos_part, ◌-ℤ◌}
use furima_sandbox.Text.{Text, text}
use furima_sandbox.Engine.Ident.{Ident, literal, auction_hold, upper}
use furima_sandbox.Engine.Records.{
  MercariItem, AuctionBidRecord, SandboxActor, AggregateType, Value, ListingStatus,
}
use furima_sandbox.Engine.State.{
  WalletSnapshot, EngineState, EventSpec, DomainEvent, next_id, commit, add_notification,
  clear_failure, is_payment_failure, update_item, find_actor, find_wallet,
}
use furima_sandbox.Engine.Action.{Action, ◌>>=◌, ◌>>◌, pure, gets, modify, run_helper}
use furima_sandbox.Engine.Wallet.{held_amount_for_reference, release_wallet_hold}
use furima_sandbox.Engine.Opening.{shipping_cost_for}
use furima_sandbox.Engine.Auctions.{bids_for}

abbrev pub Collation : Type 0
Collation = Ident → Ident → Bool

abbrev pub platform_id : Ident
platform_id = literal (text "platform")

-- The comparison of settleExpiredAuction: the higher bid, then the earlier, then the id.
abbrev pub outranks : Collation → AuctionBidRecord → AuctionBidRecord → Bool
outranks collates a b =
    ltb b.amount a.amount
    || a.amount == b.amount
      && (ltb a.created_at b.created_at || a.created_at == b.created_at && collates a.id b.id)

unfoldable pub ranked_bids : Collation → Ident → EngineState → List AuctionBidRecord
ranked_bids collates item_id s = sort_by (outranks collates) (bids_for item_id s)

-- A candidate of the loop over the ranked bids.
pub record Candidate : Type 0 where
  pub bid : AuctionBidRecord
  pub winner : Option SandboxActor
  pub wallet : Option WalletSnapshot
  pub total : ℕ
  pub held : ℤ

-- winner ? this.wallet(winner.id) : undefined
unfoldable pub wallet_of_actor : Option SandboxActor → EngineState → Option WalletSnapshot
wallet_of_actor none s = none
wallet_of_actor (some a) s = find_wallet s a.id

unfoldable pub held_of : Option SandboxActor → Ident → EngineState → ℤ
held_of none reference s = pos 0
held_of (some a) reference s = held_amount_for_reference a.id reference s

unfoldable pub candidate_for : MercariItem → AuctionBidRecord → EngineState → Candidate
unfolding wallet_of_actor held_of
candidate_for item bid s = record {
  bid = bid;
  winner = find_actor s bid.bidder_id;
  wallet = wallet_of_actor (find_actor s bid.bidder_id) s;
  total = bid.amount + shipping_cost_for item;
  held = held_of (find_actor s bid.bidder_id) (auction_hold item.id bid.bidder_id) s;
}

-- candidateWallet.availableBalance >= Math.max(0, candidateTotal - candidateHeld)
unfoldable pub can_pay : Candidate → Bool
can_pay c = elim c.wallet [
  | none ↦ false
  | some w ↦ leb (pos_part (pos c.total -ℤ c.held)) w.available_balance
]

-- if (candidateWinner && candidateHeld > 0) this.releaseWalletHold(…)
unfoldable pub release_candidate : MercariItem → Candidate → EngineState → EngineState
release_candidate item c s = elim c.winner [
  | none ↦ s
  | some a ↦
      if leb (pos_part c.held) 0
      then s
      else (release_wallet_hold a.id (pos_part c.held) (auction_hold item.id c.bid.bidder_id) s).1
]

unfoldable pub drop_candidate : MercariItem → Candidate → EngineState → EngineState
drop_candidate item c s =
    add_notification c.bid.bidder_id (text "オークションの決済に失敗しました")
      (Value.string item.title ∷ Value.string (text "は残高不足または決済エラーのため落札候補から外れました。") ∷ []) none
      (release_candidate item c s)

unfoldable pub clear_injected : Bool → EngineState → EngineState
clear_injected injected s = if injected then clear_failure is_payment_failure s else s

-- The loop over the ranked bids.
unfoldable pub select_bidder : MercariItem → List AuctionBidRecord → Action (Option Candidate)
select_bidder item [] = pure none
select_bidder item (bid ∷ bids) = do
  c ← gets (candidate_for item bid)
  injected ← gets (λ s. any is_payment_failure s.pending_failures)
  modify (clear_injected injected)
  if can_pay c && not injected
      then pure (some c)
      else modify (drop_candidate item c) >> select_bidder item bids

auction_spec : Text → Ident → List (Text × Value) → EventSpec
auction_spec kind item_id payload = record {
  kind = kind;
  aggregate_type = AggregateType.auction;
  aggregate_id = item_id;
  actor_id = platform_id;
  payload = payload;
}

-- this.updateItem(itemId, { listingStatus: 'ARCHIVED' }); return this.commit([…])
unfoldable pub archive_with : Ident → EventSpec → Action (List DomainEvent)
archive_with item_id spec = do
  modify (update_item item_id (λ i. record i { listing_status = ListingStatus.archived }))
  run_helper (commit (spec ∷ []))

unfoldable pub archive_without_bids : Ident → Action (List DomainEvent)
unfolding auction_spec
archive_without_bids item_id =
    archive_with item_id (
      auction_spec (text "AUCTION_CLOSED_NO_BIDS") item_id ((text "itemId", Value.id item_id) ∷ []))

-- wallet?.availableBalance ?? 0
abbrev pub available_of : Option WalletSnapshot → ℕ
available_of none = 0
available_of (some w) = w.available_balance

-- No candidate could pay: the first bid is named.
unfoldable pub archive_unpaid :
    MercariItem → AuctionBidRecord → List AuctionBidRecord → Action (List DomainEvent)
unfolding auction_spec
archive_unpaid item bid ranked = do
  c ← gets (candidate_for item bid)
  archive_with item.id (
      auction_spec (text "AUCTION_PAYMENT_FAILED") item.id (
        (text "itemId", Value.id item.id)
        ∷ (text "bidderId", Value.id bid.bidder_id)
        ∷ (text "required", Value.number c.total)
        ∷ (text "available", Value.number (available_of c.wallet))
        ∷ (text "attemptedBidderIds", Value.ids (map (λ b. b.bidder_id) ranked))
        ∷ []))

-- The payload of a failed settlement, without its reason.
unfoldable pub failed_spec : MercariItem → Ident → ℕ → Option ℕ → Text → EventSpec
unfolding auction_spec
failed_spec item winner total available reason =
    auction_spec (text "AUCTION_PAYMENT_FAILED") item.id (
      (text "itemId", Value.id item.id)
        ∷ (text "bidderId", Value.id winner)
        ∷ (text "required", Value.number total)
        ∷ shown available
      ++ (text "reason", Value.string reason) ∷ [])
  where
    shown : Option ℕ → List (Text × Value)
    shown none = []
    shown (some n) = (text "available", Value.number n) ∷ []

-- The ids of a settlement, in the order in which they are taken.
pub record SettlementIds : Type 0 where
  pub intent_id : Ident
  pub transaction_id : Ident
  pub payment_id : Ident
  pub shipment_id : Ident
  pub order_id : Ident

unfoldable pub take_ids : EngineState → SettlementIds × EngineState
take_ids s =
    let (intent_id, s₁) = next_id (text "auction-intent") s in
    let (transaction_id, s₂) = next_id (text "txn") s₁ in
    let (payment_id, s₃) = next_id (text "payment") s₂ in
    let (shipment_id, s₄) = next_id (text "shipment") s₃ in
    let (order_id, s₅) = next_id (text "order") s₄ in
    (
      record {
        intent_id = intent_id;
        transaction_id = transaction_id;
        payment_id = payment_id;
        shipment_id = shipment_id;
        order_id = upper order_id;
      },
      s₅,
    )

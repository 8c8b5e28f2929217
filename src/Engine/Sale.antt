-- ===== src/Engine/Sale.antt =====
-- The sale of an auction's item: the writes of settleExpiredAuction of app/domain/sandboxEngine.ts once
-- a bidder is chosen.
use furima_sandbox.Prelude.{
  ℕ, ◌+◌, ◌-◌, Bool, true, false, not, Option, none, some, List, [], ◌∷◌, ◌++◌, ltb, leb, ◌==◌,
  if◌then◌else◌,
}
use furima_sandbox.Prelude.Int.{pos_part}
use furima_sandbox.Text.{Text, text}
use furima_sandbox.Engine.Ident.{Ident, auction_hold}
use furima_sandbox.Engine.Records.{
  MercariItem, SandboxActor, AggregateType, Value, WalletLedgerType, ListingStatus,
  ReservationStatus, TransactionStatus, PaymentStatus, ShipmentStatus, InventoryMovementType,
}
use furima_sandbox.Engine.State.{
  WalletSnapshot, EngineState, EventSpec, DomainEvent, commit, add_notification,
  record_inventory_movement, update_item, find_wallet,
}
use furima_sandbox.Engine.Action.{Action, ◌>>=◌, ◌>>◌, pure, gets, modify, run_helper}
use furima_sandbox.Engine.Wallet.{add_ledger, release_wallet_hold}
use furima_sandbox.Engine.Opening.{shipping_cost_for, purchase_intent_ttl_ms}
use furima_sandbox.Engine.Checkout.{seller_fee}
use furima_sandbox.Engine.Purchase.{first_id}
use furima_sandbox.Engine.Settlement.{
  platform_id, Candidate, archive_with, failed_spec, available_of, SettlementIds, take_ids,
}

-- The records of the sale, pushed to the state.
unfoldable pub push_sale :
    MercariItem → Candidate → SandboxActor → SettlementIds → EngineState → EngineState
push_sale item c winner ids s = record s {
  purchase_intents =
      s.purchase_intents
      ++ record {
        id = ids.intent_id;
        transaction_id = ids.transaction_id;
        item_id = item.id;
        buyer_id = winner.id;
        quantity = 1;
        quote = c.total;
        created_at = s.now;
        expires_at = s.now + purchase_intent_ttl_ms;
        expected_state_version = s.state_version + 1;
        status = ReservationStatus.committed;
        coupon_discount = none;
        points_discount = none;
      }
        ∷ [];
  transactions =
      s.transactions
      ++ record {
        id = ids.transaction_id;
        order_id = ids.order_id;
        item_id = item.id;
        buyer_id = winner.id;
        seller_id = item.seller_id;
        title_snapshot = item.title;
        price_snapshot = c.bid.amount;
        shipping_cost = shipping_cost_for item;
        total = c.total;
        coupon_discount = none;
        points_used = none;
        status = TransactionStatus.awaiting_shipment;
        payment_id = ids.payment_id;
        shipment_id = ids.shipment_id;
        reservation_id = ids.intent_id;
        created_at = s.now;
        updated_at = s.now;
        paid_at = some s.now;
        shipped_at = none;
        delivered_at = none;
        completed_at = none;
        buyer_reviewed_at = none;
        seller_reviewed_at = none;
        canceled_at = none;
        cancel_reason = none;
        cancel_previous_status = none;
      }
        ∷ [];
  payments =
      s.payments
      ++ record {
        id = ids.payment_id;
        transaction_id = ids.transaction_id;
        method = text "sandbox-wallet";
        amount = c.total;
        status = PaymentStatus.captured;
        created_at = s.now;
        updated_at = s.now;
      }
        ∷ [];
  shipments =
      s.shipments
      ++ record {
        id = ids.shipment_id;
        transaction_id = ids.transaction_id;
        method = item.shipping_method;
        tracking_number = none;
        status = ShipmentStatus.pending;
        created_at = s.now;
        updated_at = s.now;
      }
        ∷ [];
}

-- Each `||` of the ledger writes: the next one is made only after the last was.
unfoldable pub after_write : Bool → Action Bool → Action Bool
after_write true next = next
after_write false next = pure false

-- Whether the four ledger entries of a sale were written.
unfoldable pub write_ledger : Candidate → SandboxActor → WalletSnapshot → Ident → Action Bool
write_ledger c winner seller transaction_id = do
  wallet ← gets (λ s. find_wallet s winner.id)
  if ltb (available_of wallet) c.total then pure false else do
    held ← run_helper (add_ledger winner.id WalletLedgerType.hold c.total transaction_id)
    after_write held do
      captured ← run_helper (add_ledger winner.id WalletLedgerType.capture c.total transaction_id)
      after_write captured do
        sold ←
            run_helper
              (add_ledger seller.actor_id WalletLedgerType.sale c.bid.amount transaction_id)
        after_write sold (
            if leb (seller_fee c.bid.amount) 0
            then pure true
            else run_helper (
                add_ledger seller.actor_id WalletLedgerType.fee (seller_fee c.bid.amount)
                  transaction_id))

closed_specs : MercariItem → Candidate → Ident → SettlementIds → List EventSpec
closed_specs item c winner ids =
    record {
      kind = text "AUCTION_CLOSED";
      aggregate_type = AggregateType.auction;
      aggregate_id = item.id;
      actor_id = platform_id;
      payload =
          (text "itemId", Value.id item.id)
          ∷ (text "bidderId", Value.id winner)
          ∷ (text "amount", Value.number c.bid.amount)
          ∷ [];
    }
    ∷ record {
      kind = text "PAYMENT_CAPTURED";
      aggregate_type = AggregateType.payment;
      aggregate_id = ids.payment_id;
      actor_id = platform_id;
      payload =
          (text "transactionId", Value.id ids.transaction_id)
          ∷ (text "amount", Value.number c.total)
          ∷ [];
    }
    ∷ record {
      kind = text "INVENTORY_COMMITTED";
      aggregate_type = AggregateType.inventory;
      aggregate_id = item.id;
      actor_id = platform_id;
      payload =
          (text "quantity", Value.number 1)
          ∷ (text "transactionId", Value.id ids.transaction_id)
          ∷ [];
    }
    ∷ []

unfoldable pub sell_item : MercariItem → EngineState → EngineState
sell_item item s =
    update_item item.id
      (λ i. record i {
        inventory_quantity = item.inventory_quantity - 1;
        reserved_quantity = 0;
        is_sold = true;
        listing_status = ListingStatus.sold;
        sold_at = some s.now;
      })
      s

-- The rest of a settlement whose ledger entries are written.
unfoldable pub finish_sale :
    MercariItem → Candidate → SandboxActor → SettlementIds → Action (List DomainEvent)
unfolding closed_specs
finish_sale item c winner ids = do
  modify (push_sale item c winner ids)
  modify (sell_item item)
  modify (
      record_inventory_movement item InventoryMovementType.out 1 (text "オークション落札確定")
        (some ids.transaction_id))
  events ← run_helper (commit (closed_specs item c winner.id ids))
  modify (
      add_notification winner.id (text "オークションに落札しました")
        (Value.string item.title ∷ Value.string (text "の落札が確定しました。出品者の発送をお待ちください。") ∷ [])
        (first_id events))
  modify (
      add_notification item.seller_id (text "オークション商品が落札されました")
        (Value.string item.title
          ∷ Value.string (text "の落札価格は")
          ∷ Value.number c.bid.amount
          ∷ Value.string (text "円です。発送してください。")
          ∷ [])
        (first_id events))
  pure events

-- heldForWinner > 0 && this.releaseWalletHold(…) !== heldForWinner
unfoldable pub release_winner : MercariItem → Candidate → SandboxActor → Action Bool
release_winner item c winner = if leb (pos_part c.held) 0 then pure true else do
  released ←
      run_helper
        (release_wallet_hold winner.id (pos_part c.held) (auction_hold item.id c.bid.bidder_id))
  pure (released == pos_part c.held)

-- A settlement that fails midway puts the state back to `saved`.
unfoldable pub fail_settlement :
    EngineState → MercariItem → Ident → ℕ → Option ℕ → Text → Action (List DomainEvent)
fail_settlement saved item winner total available reason = do
  modify (λ _. saved)
  run_helper (commit (failed_spec item winner total available reason ∷ []))

unfoldable pub settle_ledger :
    EngineState
    → MercariItem
    → Candidate
    → SandboxActor
    → WalletSnapshot
    → SettlementIds
    → Action (List DomainEvent)
settle_ledger saved item c winner seller ids = do
  released ← release_winner item c winner
  if not released
      then fail_settlement saved item winner.id c.total none (text "winner-hold-mismatch")
      else do
        written ← write_ledger c winner seller ids.transaction_id
        wallet ← gets (λ s. find_wallet s winner.id)
        if written
            then finish_sale item c winner ids
            else fail_settlement saved item winner.id c.total (some (available_of wallet))
                (text "ledger-write-failed")

unfoldable pub archive_unsettled :
    MercariItem → Candidate → SandboxActor → Action (List DomainEvent)
archive_unsettled item c winner = archive_with item.id (
    failed_spec item winner.id c.total (some (available_of c.wallet))
      (text "seller-settlement-unavailable"))

-- !sellerWallet || sellerWallet.availableBalance + highestBid.amount < sellerFee
unfoldable pub settle_seller :
    MercariItem → Candidate → SandboxActor → Option WalletSnapshot → Action (List DomainEvent)
settle_seller item c winner none = archive_unsettled item c winner
settle_seller item c winner (some seller) =
    if ltb (seller.available_balance + c.bid.amount) (seller_fee c.bid.amount)
    then archive_unsettled item c winner
    else do
      ids ← run_helper take_ids
      saved ← gets (λ s. s)
      settle_ledger saved item c winner seller ids

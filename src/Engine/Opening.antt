-- ===== src/Engine/Opening.antt =====
-- The records of a new purchase: the intent, transaction, payment and shipment that startPurchase of
-- app/domain/sandboxEngine.ts pushes, and its events.
use furima_sandbox.Prelude.{ℕ, ◌+◌, none, List, [], ◌∷◌, ◌++◌, leb, if◌then◌else◌}
use furima_sandbox.Text.{text}
use furima_sandbox.Engine.Ident.{Ident, upper}
use furima_sandbox.Engine.Records.{
  ReservationStatus, TransactionStatus, PaymentStatus, ShipmentStatus, ListingStatus, AggregateType,
  Value, SandboxActor, PurchaseIntent, TransactionRecord, MercariItem,
}
use furima_sandbox.Engine.State.{EngineState, EventSpec, next_id, update_item}

-- shippingCostFor
abbrev pub shipping_cost_for : MercariItem → ℕ
shipping_cost_for item = if item.shipping_included then 0 else 800

abbrev pub purchase_intent_ttl_ms : ℕ
purchase_intent_ttl_ms = 900000

pub record StartPurchaseResult : Type 0 where
  pub purchase_intent_id : Ident
  pub transaction_id : Ident
  pub expires_at : ℕ
  pub quote : ℕ

new_intent : Ident → Ident → MercariItem → SandboxActor → ℕ → EngineState → PurchaseIntent
new_intent intent_id transaction_id item actor total s = record {
  id = intent_id;
  transaction_id = transaction_id;
  item_id = item.id;
  buyer_id = actor.id;
  quantity = 1;
  quote = total;
  created_at = s.now;
  expires_at = s.now + purchase_intent_ttl_ms;
  expected_state_version = s.state_version + 1;
  status = ReservationStatus.active;
  coupon_discount = none;
  points_discount = none;
}

new_transaction :
    Ident
    → Ident
    → Ident
    → Ident
    → Ident
    → MercariItem
    → SandboxActor
    → ℕ
    → EngineState
    → TransactionRecord
new_transaction transaction_id order_id payment_id shipment_id intent_id item actor total s =
    record {
      id = transaction_id;
      order_id = order_id;
      item_id = item.id;
      buyer_id = actor.id;
      seller_id = item.seller_id;
      title_snapshot = item.title;
      price_snapshot = item.price;
      shipping_cost = shipping_cost_for item;
      total = total;
      coupon_discount = none;
      points_used = none;
      status = TransactionStatus.payment_pending;
      payment_id = payment_id;
      shipment_id = shipment_id;
      reservation_id = intent_id;
      created_at = s.now;
      updated_at = s.now;
      paid_at = none;
      shipped_at = none;
      delivered_at = none;
      completed_at = none;
      buyer_reviewed_at = none;
      seller_reviewed_at = none;
      canceled_at = none;
      cancel_reason = none;
      cancel_previous_status = none;
    }

-- The records that startPurchase pushes, and the ids that it takes, in order.
unfoldable pub push_purchase :
    MercariItem → SandboxActor → ℕ → EngineState → StartPurchaseResult × EngineState
unfolding new_intent new_transaction
push_purchase item actor total s =
    let (intent_id, s₁) = next_id (text "purchase-intent") s in
    let (transaction_id, s₂) = next_id (text "txn") s₁ in
    let (payment_id, s₃) = next_id (text "payment") s₂ in
    let (shipment_id, s₄) = next_id (text "shipment") s₃ in
    let (order_id, s₅) = next_id (text "order") s₄ in
    let intent = new_intent intent_id transaction_id item actor total s in
    let transaction =
      new_transaction transaction_id (upper order_id) payment_id shipment_id intent_id item actor
        total s in
    (
      record {
        purchase_intent_id = intent_id;
        transaction_id = transaction_id;
        expires_at = intent.expires_at;
        quote = total;
      },
      record s₅ {
        purchase_intents = s.purchase_intents ++ intent ∷ [];
        transactions = s.transactions ++ transaction ∷ [];
        payments =
            s.payments
            ++ record {
              id = payment_id;
              transaction_id = transaction_id;
              method = text "sandbox-wallet";
              amount = total;
              status = PaymentStatus.initiated;
              created_at = s.now;
              updated_at = s.now;
            }
              ∷ [];
        shipments =
            s.shipments
            ++ record {
              id = shipment_id;
              transaction_id = transaction_id;
              method = item.shipping_method;
              tracking_number = none;
              status = ShipmentStatus.pending;
              created_at = s.now;
              updated_at = s.now;
            }
              ∷ [];
      },
    )

-- One more unit of the item is reserved.
unfoldable pub reserve_unit : MercariItem → EngineState → EngineState
reserve_unit item = update_item item.id (λ i. record i {
  reserved_quantity = item.reserved_quantity + 1;
  listing_status =
      if leb item.inventory_quantity (item.reserved_quantity + 1)
      then ListingStatus.reserved
      else item.listing_status;
})

unfoldable pub purchase_events : StartPurchaseResult → MercariItem → SandboxActor → List EventSpec
purchase_events r item actor =
    record {
      kind = text "PURCHASE_INTENT_CREATED";
      aggregate_type = AggregateType.transaction;
      aggregate_id = r.transaction_id;
      actor_id = actor.id;
      payload =
          (text "itemId", Value.id item.id)
          ∷ (text "purchaseIntentId", Value.id r.purchase_intent_id)
          ∷ (text "expiresAt", Value.instant r.expires_at)
          ∷ (text "total", Value.number r.quote)
          ∷ [];
    }
    ∷ record {
      kind = text "INVENTORY_RESERVED";
      aggregate_type = AggregateType.inventory;
      aggregate_id = item.id;
      actor_id = actor.id;
      payload =
          (text "quantity", Value.number 1)
          ∷ (text "reservationId", Value.id r.purchase_intent_id)
          ∷ [];
    }
    ∷ []

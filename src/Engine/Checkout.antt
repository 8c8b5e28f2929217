-- ===== src/Engine/Checkout.antt =====
-- Paying for a reservation: purchaseItem, purchaseItemWithPricing and
-- confirmPurchase of app/domain/sandboxEngine.ts. Prices are integers far below 2^53, where
-- Math.floor(price * 0.1) is the quotient by ten.
use furima_sandbox.Prelude.{
  ℕ, ◌-◌, ◌/◌, Bool, true, not, Option, none, some, List, [], ◌∷◌, ltb, leb, ◌==◌, any,
  if◌then◌else◌,
}
use furima_sandbox.Text.{text}
use furima_sandbox.Engine.Ident.{Ident, same}
use furima_sandbox.Engine.Records.{
  ReservationStatus, TransactionStatus, PaymentStatus, ShipmentStatus, ListingStatus,
  InventoryMovementType, AggregateType, Value, SandboxActor, PurchaseIntent, TransactionRecord,
  PaymentRecord, ShipmentRecord, MercariItem,
}
use furima_sandbox.Engine.State.{
  EngineState, EventSpec, commit, add_notification, clear_failure, is_payment_failure,
  record_inventory_movement, update_item, find_item, find_intent, find_transaction, find_payment,
  find_shipment, find_wallet, set_intent, set_transaction, set_payment, set_shipment, set_wallet,
}
use furima_sandbox.Engine.Action.{
  Action, ◌>>=◌, ◌>>◌, pure, fail, gets, modify, run_helper, reject_if, require, forbidden,
  invalid_transition, payment_failed, state_conflict, confirmation_required,
  purchase_intent_expired,
}
use furima_sandbox.Engine.Access.{AgentActionOptions, authenticate, stale_version}
use furima_sandbox.Engine.Reservation.{
  is_active, active_intent_for, by_release, by_expiry, release_intent,
}
use furima_sandbox.Engine.Purchase.{last_id}
use furima_sandbox.Engine.Pricing.{PurchasePricing, update_purchase_pricing}

pub record ConfirmPurchaseResult : Type 0 where
  pub transaction_id : Ident
  pub order_id : Ident
  pub status : TransactionStatus
  pub total : ℕ

-- The part of a sale that goes to the platform.
abbrev pub seller_fee : ℕ → ℕ
seller_fee price = price / 10

unfoldable pub points_of : TransactionRecord → ℕ
points_of t = elim t.points_used [ none ↦ 0 | some n ↦ n ]

payment_event : TransactionRecord → PaymentRecord → SandboxActor → EventSpec
payment_event transaction payment actor = record {
  kind = text "PAYMENT_FAILED";
  aggregate_type = AggregateType.payment;
  aggregate_id = payment.id;
  actor_id = actor.id;
  payload =
      (text "transactionId", Value.id transaction.id)
      ∷ (text "reason", Value.string (text "injected_failure"))
      ∷ [];
}

-- The branch of an injected payment failure.
unfoldable pub fail_payment :
    PurchaseIntent → TransactionRecord → PaymentRecord → SandboxActor → Action ConfirmPurchaseResult
unfolding payment_event
fail_payment intent transaction payment actor = do
  modify (clear_failure is_payment_failure)
  modify (λ s.
      set_payment payment.id (λ p. record p { status = PaymentStatus.failed; updated_at = s.now })
        s)
  specs ← run_helper (release_intent intent by_release actor.id)
  run_helper (commit (payment_event transaction payment actor ∷ specs))
  fail payment_failed

points_short : SandboxActor → TransactionRecord → EngineState → Bool
unfolding points_of
points_short actor transaction s = elim (find_wallet s actor.id) [
  | none ↦ true
  | some w ↦ ltb w.points (points_of transaction)
]

-- The payment is captured: payment, transaction, intent, points and shipment.
unfoldable pub capture_payment :
    PurchaseIntent
    → TransactionRecord
    → PaymentRecord
    → ShipmentRecord
    → SandboxActor
    → EngineState
    → EngineState
unfolding points_of
capture_payment intent transaction payment shipment actor s =
    set_shipment shipment.id (λ p. record p { status = ShipmentStatus.pending; updated_at = s.now })
      (set_wallet actor.id (λ w. record w { points = w.points - points_of transaction })
        (set_intent intent.id (λ i. record i { status = ReservationStatus.committed })
          (set_transaction transaction.id
            (λ t. record t {
              status = TransactionStatus.awaiting_shipment;
              paid_at = some s.now;
              updated_at = s.now;
            })
            (set_payment payment.id
              (λ p. record p { status = PaymentStatus.captured; updated_at = s.now }) s))))

-- The stock leaves the item.
unfoldable pub take_stock : PurchaseIntent → MercariItem → EngineState → EngineState
take_stock intent item s =
    let next_quantity = item.inventory_quantity - intent.quantity in
    update_item item.id
      (λ i. record i {
        inventory_quantity = next_quantity;
        reserved_quantity = item.reserved_quantity - intent.quantity;
        is_sold = next_quantity == 0;
        listing_status = if next_quantity == 0 then ListingStatus.sold else ListingStatus.active;
        sold_at = if next_quantity == 0 then some s.now else item.sold_at;
      })
      s

purchase_specs :
    PurchaseIntent → TransactionRecord → PaymentRecord → MercariItem → SandboxActor → List EventSpec
purchase_specs intent transaction payment item actor =
    record {
      kind = text "PAYMENT_CAPTURED";
      aggregate_type = AggregateType.payment;
      aggregate_id = payment.id;
      actor_id = actor.id;
      payload =
          (text "transactionId", Value.id transaction.id)
          ∷ (text "amount", Value.number transaction.total)
          ∷ [];
    }
    ∷ record {
      kind = text "INVENTORY_COMMITTED";
      aggregate_type = AggregateType.inventory;
      aggregate_id = item.id;
      actor_id = actor.id;
      payload =
          (text "quantity", Value.number intent.quantity)
          ∷ (text "transactionId", Value.id transaction.id)
          ∷ [];
    }
    ∷ record {
      kind = text "TRANSACTION_PAID";
      aggregate_type = AggregateType.transaction;
      aggregate_id = transaction.id;
      actor_id = actor.id;
      payload =
          (text "orderId", Value.id transaction.order_id)
          ∷ (
            text "sellerNet",
            Value.number (transaction.price_snapshot - seller_fee transaction.price_snapshot),
          )
          ∷ [];
    }
    ∷ []

-- confirmPurchase from the check of the points on.
unfoldable pub settle_purchase :
    PurchaseIntent
    → TransactionRecord
    → PaymentRecord
    → ShipmentRecord
    → MercariItem
    → SandboxActor
    → Action ConfirmPurchaseResult
unfolding points_short purchase_specs
settle_purchase intent transaction payment shipment item actor = do
  short ← gets (points_short actor transaction)
  reject_if short payment_failed
  modify (capture_payment intent transaction payment shipment actor)
  modify (take_stock intent item)
  modify (
      record_inventory_movement item InventoryMovementType.out intent.quantity (text "決済確定")
        (some transaction.id))
  events ← run_helper (commit (purchase_specs intent transaction payment item actor))
  modify (
      add_notification transaction.seller_id (text "商品が購入されました")
        (Value.string transaction.title_snapshot ∷ Value.string (text "の支払いが完了しました。発送してください。") ∷ [])
        (last_id events))
  modify (
      add_notification actor.id (text "購入が確定しました")
        (Value.string transaction.title_snapshot ∷ Value.string (text "の支払いが完了しました。") ∷ [])
        (last_id events))
  pure (record {
    transaction_id = transaction.id;
    order_id = transaction.order_id;
    status = TransactionStatus.awaiting_shipment;
    total = transaction.total;
  })

-- The branch of an intent whose time has come.
unfoldable pub expire_intent : PurchaseIntent → SandboxActor → Action ConfirmPurchaseResult
expire_intent intent actor = do
  specs ← run_helper (release_intent intent by_expiry actor.id)
  run_helper (commit specs)
  fail purchase_intent_expired

-- confirmPurchase from the lookup of the aggregate on.
unfoldable pub pay_intent :
    PurchaseIntent → SandboxActor → AgentActionOptions → Action ConfirmPurchaseResult
pay_intent intent actor o = do
  reject_if (stale_version o.expected_state_version intent.expected_state_version) state_conflict
  found ← gets (λ s. find_transaction s intent.transaction_id)
  transaction ← require found state_conflict
  found_payment ← gets (λ s. find_payment s transaction.payment_id)
  payment ← require found_payment state_conflict
  found_shipment ← gets (λ s. find_shipment s transaction.shipment_id)
  shipment ← require found_shipment state_conflict
  found_item ← gets (λ s. find_item s intent.item_id)
  item ← require found_item state_conflict
  reject_if (ltb item.inventory_quantity item.reserved_quantity) state_conflict
  failing ← gets (λ s. any is_payment_failure s.pending_failures)
  if failing
      then fail_payment intent transaction payment actor
      else settle_purchase intent transaction payment shipment item actor

-- confirmPurchase
unfoldable pub confirm_purchase : Ident → AgentActionOptions → Action ConfirmPurchaseResult
confirm_purchase intent_id o = do
  actor ← authenticate o
  found ← gets (λ s. find_intent s intent_id)
  intent ← require found confirmation_required
  reject_if (not (same intent.buyer_id actor.id)) forbidden
  reject_if (not (is_active intent.status)) invalid_transition
  now ← gets (λ s. s.now)
  if leb intent.expires_at now then expire_intent intent actor else pay_intent intent actor o

-- purchaseItemWithPricing: the expected version is checked once, at its start.
unfoldable pub purchase_item_with_pricing :
    Ident → Option PurchasePricing → AgentActionOptions → Action ConfirmPurchaseResult
purchase_item_with_pricing item_id pricing o = do
  actor ← authenticate o
  found ← gets (active_intent_for item_id actor.id)
  intent ← require found confirmation_required
  update_purchase_pricing intent pricing actor.id
  confirm_purchase intent.id (record o { expected_state_version = none })

-- purchaseItem
unfoldable pub purchase_item : Ident → AgentActionOptions → Action ConfirmPurchaseResult
purchase_item item_id o = purchase_item_with_pricing item_id none o

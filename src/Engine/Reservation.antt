-- ===== src/Engine/Reservation.antt =====
-- Reservations of stock by purchase intents: activeReservationQuantity, activeIntentFor,
-- releaseIntent and releaseExpiredPurchaseIntents of app/domain/sandboxEngine.ts.
use furima_sandbox.Prelude.{
  ℕ, ◌+◌, Bool, true, false, ◌&&◌, Option, none, some, List, [], ◌∷◌, ◌++◌, leb, keep, find,
  if◌then◌else◌,
}
use furima_sandbox.Text.{Text, text}
use furima_sandbox.Engine.Ident.{Ident, same}
use furima_sandbox.Engine.Records.{
  ReservationStatus, TransactionStatus, ListingStatus, InventoryMovementType, AggregateType, Value,
  PurchaseIntent, TransactionRecord,
}
use furima_sandbox.Engine.State.{
  EngineState, EventSpec, find_item, find_transaction, set_intent, set_transaction, update_item,
  record_inventory_movement,
}
use furima_sandbox.Engine.Wallet.{release_wallet_hold}

abbrev pub is_active : ReservationStatus → Bool
is_active ReservationStatus.active = true
is_active ReservationStatus.committed = false
is_active ReservationStatus.released = false
is_active ReservationStatus.expired = false

abbrev pub reserves : Ident → PurchaseIntent → Bool
reserves item_id intent = same intent.item_id item_id && is_active intent.status

unfoldable pub sum_quantities : List PurchaseIntent → ℕ
sum_quantities [] = 0
sum_quantities (i ∷ is) = i.quantity + sum_quantities is

-- activeReservationQuantity
unfoldable pub active_reservation_quantity : Ident → EngineState → ℕ
active_reservation_quantity item_id s = sum_quantities (keep (reserves item_id) s.purchase_intents)

-- activeIntentFor
unfoldable pub active_intent_for : Ident → Ident → EngineState → Option PurchaseIntent
active_intent_for item_id buyer_id s =
    find (λ i. same i.item_id item_id && same i.buyer_id buyer_id && is_active i.status)
      s.purchase_intents

-- The two statuses that releaseIntent can set.
pub data Ending : Type 0 where
  by_release by_expiry : Ending

unfoldable pub status_of : Ending → ReservationStatus
status_of by_release = ReservationStatus.released
status_of by_expiry = ReservationStatus.expired

cancel_reason_of : Ending → Text
cancel_reason_of by_expiry = text "購入手続きの期限切れ"
cancel_reason_of by_release = text "購入手続きの取消"

movement_reason_of : Ending → Text
movement_reason_of by_expiry = text "購入予約期限切れ"
movement_reason_of by_release = text "購入予約解放"

event_of : Ending → Text
event_of by_expiry = text "PURCHASE_INTENT_EXPIRED"
event_of by_release = text "PURCHASE_INTENT_RELEASED"

abbrev pub is_unpaid : TransactionStatus → Bool
is_unpaid TransactionStatus.payment_pending = true
is_unpaid TransactionStatus.created = true
is_unpaid _ = false

unfoldable pub cancel_fields : Ending → ℕ → TransactionRecord → TransactionRecord
unfolding cancel_reason_of
cancel_fields ending now t = record t {
  status = TransactionStatus.canceled;
  canceled_at = some now;
  cancel_reason = some (cancel_reason_of ending);
  updated_at = now;
}

-- The transaction of a released intent: canceled, and its hold returned, unless it was paid.
unfoldable pub cancel_unpaid : PurchaseIntent → Ending → EngineState → EngineState
cancel_unpaid intent ending s = elim (find_transaction s intent.transaction_id) [
  | none ↦ s
  | some t ↦
      if is_unpaid t.status
      then (release_wallet_hold intent.buyer_id t.total t.id
          (set_transaction t.id (cancel_fields ending s.now) s)).1
      else s
]

abbrev pub listing_after_release : ℕ → ℕ → ListingStatus
listing_after_release quantity reserved =
    if leb quantity 0
    then ListingStatus.sold
    else if leb reserved 0
    then ListingStatus.active
    else ListingStatus.reserved

-- The item of a released intent: its reserved quantity is counted again.
unfoldable pub free_stock : PurchaseIntent → Ending → EngineState → EngineState
unfolding movement_reason_of
free_stock intent ending s = elim (find_item s intent.item_id) [
  | none ↦ s
  | some item ↦
      let next_reserved = active_reservation_quantity item.id s in
      record_inventory_movement item InventoryMovementType.release intent.quantity
        (movement_reason_of ending) (some intent.id)
        (update_item item.id
          (λ i. record i {
            reserved_quantity = next_reserved;
            listing_status = listing_after_release item.inventory_quantity next_reserved;
            is_sold = leb item.inventory_quantity 0;
          })
          s)
]

text_value : Option Text → Value
text_value none = Value.absent
text_value (some t) = Value.string t

recorded_reason : Ident → EngineState → Value
unfolding text_value
recorded_reason transaction_id s = elim (find_transaction s transaction_id) [
  | none ↦ Value.absent
  | some t ↦ text_value t.cancel_reason
]

release_event : PurchaseIntent → Ending → Ident → EngineState → EventSpec
unfolding event_of recorded_reason
release_event intent ending actor s = record {
  kind = event_of ending;
  aggregate_type = AggregateType.inventory;
  aggregate_id = intent.item_id;
  actor_id = actor;
  payload =
      (text "purchaseIntentId", Value.id intent.id)
      ∷ (text "transactionId", Value.id intent.transaction_id)
      ∷ (text "reason", recorded_reason intent.transaction_id s)
      ∷ [];
}

unfoldable pub end_intent : PurchaseIntent → Ending → EngineState → EngineState
end_intent intent ending s = free_stock intent ending (
    cancel_unpaid intent ending
      (set_intent intent.id (λ i. record i { status = status_of ending }) s))

-- releaseIntent
unfoldable pub release_intent :
    PurchaseIntent → Ending → Ident → EngineState → List EventSpec × EngineState
unfolding release_event
release_intent intent ending actor s =
    let s₁ = end_intent intent ending s in
    if is_active intent.status then (release_event intent ending actor s₁ ∷ [], s₁) else ([], s)

-- Whether the intent is active and its time has come.
abbrev pub is_overdue : ℕ → PurchaseIntent → Bool
is_overdue now intent = is_active intent.status && leb intent.expires_at now

-- The forEach of releaseExpiredPurchaseIntents. Ending one intent changes the status of no other.
unfoldable pub release_overdue :
    List PurchaseIntent → Ident → EngineState → (List Ident × List EventSpec) × EngineState
release_overdue [] actor s = (([], []), s)
release_overdue (intent ∷ intents) actor s =
    let (specs, s₁) = release_intent intent by_expiry actor s in
    let ((ids, later), s₂) =
      release_overdue intents actor (if is_overdue s.now intent then s₁ else s) in
    if is_overdue s.now intent then ((intent.id ∷ ids, specs ++ later), s₂) else ((ids, later), s₂)

-- releaseExpiredPurchaseIntents
unfoldable pub release_expired_purchase_intents :
    Ident → EngineState → (List Ident × List EventSpec) × EngineState
release_expired_purchase_intents actor s = release_overdue s.purchase_intents actor s

-- ===== src/Engine/Cancellation.antt =====
-- Canceling an order: cancelOrder of app/domain/sandboxEngine.ts.
use furima_sandbox.Prelude.{
  ℕ, ◌+◌, Bool, true, false, not, ◌&&◌, Option, none, some, List, [], ◌∷◌, leb, if◌then◌else◌,
}
use furima_sandbox.Prelude.Int.{pos, ltb_ℤ}
use furima_sandbox.Text.{Text, text, trim, is_empty}
use furima_sandbox.Engine.Ident.{Ident, same}
use furima_sandbox.Engine.Records.{
  TransactionStatus, PaymentStatus, ListingStatus, InventoryMovementType, Value, SandboxActor,
  TransactionRecord, PaymentRecord, MercariItem, PurchaseIntent,
}
use furima_sandbox.Engine.State.{
  EngineState, EventSpec, commit, add_notification, record_inventory_movement, update_item,
  find_item, find_intent, find_transaction, find_payment, set_transaction, set_payment, set_wallet,
}
use furima_sandbox.Engine.Action.{
  Action, ◌>>=◌, ◌>>◌, pure, gets, modify, run_helper, reject_if, require, forbidden,
  invalid_transition, invalid_input, invalid_state, transaction_not_found,
}
use furima_sandbox.Engine.Access.{AgentActionOptions, is_operator}
use furima_sandbox.Engine.Wallet.{held_amount_for_reference, release_wallet_hold}
use furima_sandbox.Engine.Reservation.{active_reservation_quantity, by_release, release_intent}
use furima_sandbox.Engine.Purchase.{first_id}
use furima_sandbox.Engine.Checkout.{points_of}
use furima_sandbox.Engine.Orders.{OrderResult, open_order, transaction_event}

abbrev pub is_final : TransactionStatus → Bool
is_final TransactionStatus.completed = true
is_final TransactionStatus.canceled = true
is_final TransactionStatus.refunded = true
is_final _ = false

abbrev pub is_cancel_requested : TransactionStatus → Bool
is_cancel_requested TransactionStatus.cancel_requested = true
is_cancel_requested _ = false

-- ['SHIPPED', 'DELIVERED'].includes(status)
abbrev pub is_on_its_way : TransactionStatus → Bool
is_on_its_way TransactionStatus.shipped = true
is_on_its_way TransactionStatus.delivered = true
is_on_its_way _ = false

abbrev pub is_captured : PaymentStatus → Bool
is_captured PaymentStatus.captured = true
is_captured _ = false

abbrev pub payment_captured : Option PaymentRecord → Bool
payment_captured none = false
payment_captured (some p) = is_captured p.status

-- The hold of the buyer for the transaction is smaller than the total.
unfoldable pub hold_missing : TransactionRecord → EngineState → Bool
hold_missing t s = ltb_ℤ (held_amount_for_reference t.buyer_id t.id s) (pos t.total)

-- if (intent?.status === 'ACTIVE') specs.push(...releaseIntent(…))
unfoldable pub release_if_active :
    Option PurchaseIntent → Ident → EngineState → List EventSpec × EngineState
release_if_active none actor s = ([], s)
release_if_active (some intent) actor s = release_intent intent by_release actor s

unfoldable pub give_back_points : TransactionRecord → EngineState → EngineState
give_back_points t = set_wallet t.buyer_id (λ w. record w { points = w.points + points_of t })

-- The refund of a captured payment: payment, transaction, hold and points, in this order.
unfoldable pub refund_order : TransactionRecord → PaymentRecord → EngineState → EngineState
refund_order t payment s =
    give_back_points t
      (release_wallet_hold t.buyer_id t.total t.id (
        set_transaction t.id (λ u. record u { status = TransactionStatus.refunded })
          (set_payment payment.id
            (λ p. record p { status = PaymentStatus.refunded; updated_at = s.now }) s))).1

-- The status that cancelOrder gives, from the status before it and whether the payment is captured.
abbrev pub canceled_status : TransactionStatus → Bool → TransactionStatus
canceled_status status captured =
    if is_on_its_way status
    then TransactionStatus.cancel_requested
    else if captured
    then TransactionStatus.refunded
    else TransactionStatus.canceled

-- The three branches of cancelOrder.
unfoldable pub cancel_branch : TransactionRecord → Option PaymentRecord → EngineState → EngineState
cancel_branch t none s =
    set_transaction t.id
      (λ u. record u {
        status = canceled_status t.status false;
        cancel_previous_status =
            if is_on_its_way t.status then some t.status else u.cancel_previous_status;
      })
      s
cancel_branch t (some payment) s =
    if is_on_its_way t.status
    then set_transaction t.id
        (λ u. record u {
          status = TransactionStatus.cancel_requested;
          cancel_previous_status = some t.status;
        })
        s
    else if is_captured payment.status
    then refund_order t payment s
    else set_transaction t.id (λ u. record u { status = TransactionStatus.canceled }) s

unfoldable pub note_cancel : TransactionRecord → Text → EngineState → EngineState
note_cancel t reason s =
    set_transaction t.id
      (λ u. record u { cancel_reason = some reason; canceled_at = some s.now; updated_at = s.now })
      s

abbrev pub listing_for_reserved : ℕ → ListingStatus
listing_for_reserved reserved =
    if leb reserved 0 then ListingStatus.active else ListingStatus.reserved

-- One unit comes back into the stock of a refunded order.
unfoldable pub restock : TransactionRecord → MercariItem → EngineState → EngineState
restock t item s =
    let next_reserved = active_reservation_quantity item.id s in
    record_inventory_movement item InventoryMovementType.release 1 (text "キャンセルによる在庫復帰") (some t.id)
      (update_item item.id
        (λ i. record i {
          inventory_quantity = item.inventory_quantity + 1;
          reserved_quantity = next_reserved;
          is_sold = false;
          listing_status = listing_for_reserved next_reserved;
        })
        s)

abbrev pub is_refunded : TransactionStatus → Bool
is_refunded TransactionStatus.refunded = true
is_refunded _ = false

-- The item as it was found before the reservation was released.
unfoldable pub restock_if_refunded :
    TransactionRecord → TransactionStatus → Option MercariItem → EngineState → EngineState
restock_if_refunded t status none s = s
restock_if_refunded t status (some item) s = if is_refunded status then restock t item s else s

cancel_event : TransactionRecord → TransactionStatus → Text → SandboxActor → EventSpec
cancel_event t status reason actor =
    transaction_event
      (if is_refunded status then text "PAYMENT_REFUNDED" else text "TRANSACTION_CANCELED") t.id
      actor.id ((text "reason", Value.string reason) ∷ [])

notice_of : TransactionRecord → TransactionStatus → List Value
notice_of t status =
    Value.string t.title_snapshot
    ∷ Value.string (text "の取引が")
    ∷ Value.status status
    ∷ Value.string (text "になりました。")
    ∷ []

-- cancelOrder from the release of the reservation on. The transaction is read again, since the
-- release can have canceled it.
unfoldable pub write_cancel :
    TransactionRecord
    → Option PurchaseIntent
    → Option MercariItem
    → Text
    → SandboxActor
    → Action OrderResult
unfolding cancel_event notice_of
write_cancel before intent item reason actor = do
  specs ← run_helper (release_if_active intent actor.id)
  found ← gets (λ s. find_transaction s before.id)
  t ← require found transaction_not_found
  payment ← gets (λ s. find_payment s t.payment_id)
  let status = canceled_status t.status (payment_captured payment)
  modify (cancel_branch t payment)
  modify (note_cancel t reason)
  modify (restock_if_refunded t status item)
  events ← run_helper (commit (cancel_event t status reason actor ∷ specs))
  modify (add_notification t.buyer_id (text "取引状態が更新されました") (notice_of t status) (first_id events))
  modify (add_notification t.seller_id (text "取引状態が更新されました") (notice_of t status) (first_id events))
  pure (record { transaction_id = t.id; status = status })

-- cancelOrder
unfoldable pub cancel_order : Ident → Text → AgentActionOptions → Action OrderResult
cancel_order transaction_id reason o = do
  (actor, t) ← open_order transaction_id o
  reject_if
      (not (same actor.id t.buyer_id)
        && not (same actor.id t.seller_id)
        && not (is_operator actor.role))
      forbidden
  reject_if (is_final t.status) invalid_transition
  reject_if (is_cancel_requested t.status) invalid_transition
  let body = trim reason
  reject_if (is_empty body) invalid_input
  payment ← gets (λ s. find_payment s t.payment_id)
  item ← gets (λ s. find_item s t.item_id)
  intent ← gets (λ s. find_intent s t.reservation_id)
  missing ← gets (hold_missing t)
  reject_if (payment_captured payment && not (is_on_its_way t.status) && missing) invalid_state
  write_cancel t intent item body actor

-- ===== src/Engine/Resolution.antt =====
-- The decision on a requested cancellation: resolveCancellation of app/domain/sandboxEngine.ts.
use furima_sandbox.Prelude.{
  ◌+◌, min, Bool, true, false, not, ◌&&◌, Option, none, some, List, [], ◌∷◌, find, ◌==◌,
  if◌then◌else◌,
}
use furima_sandbox.Text.{Text, text}
use furima_sandbox.Engine.Ident.{Ident, same}
use furima_sandbox.Engine.Records.{
  TransactionStatus, PaymentStatus, ShipmentStatus, ReturnStatus, InventoryMovementType,
  AggregateType, Value, SandboxActor, TransactionRecord, PaymentRecord, ShipmentRecord, MercariItem,
  ReturnCase,
}
use furima_sandbox.Engine.State.{
  EngineState, EventSpec, commit, add_notification, record_inventory_movement, update_item,
  find_item, find_transaction, find_payment, find_shipment, set_transaction, set_payment,
  set_shipment, set_return,
}
use furima_sandbox.Engine.Action.{
  Action, ◌>>=◌, ◌>>◌, pure, gets, modify, run_helper, reject_if, require, forbidden,
  invalid_transition, state_conflict, invalid_state, transaction_not_found,
}
use furima_sandbox.Engine.Access.{AgentActionOptions, authenticate, is_operator}
use furima_sandbox.Engine.Wallet.{release_wallet_hold}
use furima_sandbox.Engine.Reservation.{active_reservation_quantity}
use furima_sandbox.Engine.Purchase.{first_id}
use furima_sandbox.Engine.Orders.{OrderResult, transaction_event}
use furima_sandbox.Engine.Cancellation.{
  is_cancel_requested, is_captured, hold_missing, give_back_points, listing_for_reserved,
}

abbrev pub is_requested : ReturnStatus → Bool
is_requested ReturnStatus.requested = true
is_requested _ = false

-- The open return case of the transaction.
unfoldable pub requested_return : Ident → EngineState → Option ReturnCase
requested_return transaction_id s =
    find (λ r. same r.transaction_id transaction_id && is_requested r.status) s.returns

-- One unit comes back, up to the initial quantity, and the item is for sale again.
unfoldable pub restore_stock : Text → TransactionRecord → MercariItem → EngineState → EngineState
restore_stock reason t item s =
    let next_reserved = active_reservation_quantity item.id s in
    record_inventory_movement item InventoryMovementType.release 1 reason (some t.id) (
      update_item item.id
        (λ i. record i {
          inventory_quantity = min item.inventory_initial_quantity (item.inventory_quantity + 1);
          reserved_quantity = next_reserved;
          is_sold = false;
          listing_status = listing_for_reserved next_reserved;
          sold_at = none;
        })
        s)

-- Approval of a return: the parcel has to come back first.
unfoldable pub await_return :
    TransactionRecord → ShipmentRecord → ReturnCase → EngineState → EngineState
await_return t shipment case_ s =
    set_shipment shipment.id (λ p. record p { status = ShipmentStatus.returning })
      (set_transaction t.id (λ u. record u { status = TransactionStatus.cancel_requested })
        (set_return case_.id
          (λ r. record r { status = ReturnStatus.in_transit; decided_at = some s.now }) s))

-- Approval with no return case: the refund.
unfoldable pub approve_refund :
    TransactionRecord → PaymentRecord → ShipmentRecord → MercariItem → Action (Unit {0})
approve_refund t payment shipment item = do
  missing ← gets (hold_missing t)
  reject_if (is_captured payment.status && missing) invalid_state
  modify (λ s.
      set_payment payment.id (λ p. record p { status = PaymentStatus.refunded; updated_at = s.now })
        s)
  released ← run_helper (release_wallet_hold t.buyer_id t.total t.id)
  reject_if (released == 0) invalid_state
  modify (give_back_points t)
  modify (set_transaction t.id (λ u. record u { status = TransactionStatus.refunded }))
  modify (set_shipment shipment.id (λ p. record p { status = ShipmentStatus.returned }))
  modify (restore_stock (text "キャンセルによる在庫復元") t item)

unfoldable pub approve_cancellation :
    TransactionRecord
    → PaymentRecord
    → ShipmentRecord
    → MercariItem
    → Option ReturnCase
    → Action (Unit {0})
approve_cancellation t payment shipment item (some case_) = modify (await_return t shipment case_)
approve_cancellation t payment shipment item none = approve_refund t payment shipment item

-- cancelPreviousStatus ?? 'SHIPPED'
abbrev pub resumed_status : TransactionRecord → TransactionStatus
resumed_status t = elim t.cancel_previous_status [
  | none ↦ TransactionStatus.shipped
  | some status ↦ status
]

abbrev pub resumed_shipment : TransactionStatus → ShipmentStatus
resumed_shipment TransactionStatus.delivered = ShipmentStatus.delivered
resumed_shipment _ = ShipmentStatus.in_transit

unfoldable pub decline_return : Option ReturnCase → EngineState → EngineState
decline_return none s = s
decline_return (some case_) s =
    set_return case_.id (λ r. record r { status = ReturnStatus.declined; decided_at = some s.now })
      s

unfoldable pub decline_cancellation :
    TransactionRecord → ShipmentRecord → Option ReturnCase → EngineState → EngineState
decline_cancellation t shipment case_ s = decline_return case_ (
    set_shipment shipment.id (λ p. record p { status = resumed_shipment (resumed_status t) })
      (set_transaction t.id (λ u. record u { status = resumed_status t }) s))

decision_events :
    Bool → TransactionRecord → PaymentRecord → Option ReturnCase → SandboxActor → List EventSpec
decision_events approve t payment case_ actor =
    transaction_event
      (if approve then text "CANCELLATION_APPROVED" else text "CANCELLATION_DECLINED") t.id actor.id
      ((text "transactionId", Value.id t.id) ∷ (text "approve", Value.flag approve) ∷ [])
    ∷ refund_event approve case_
  where
    refund_event : Bool → Option ReturnCase → List EventSpec
    refund_event true none =
        record {
          kind = text "PAYMENT_REFUNDED";
          aggregate_type = AggregateType.payment;
          aggregate_id = payment.id;
          actor_id = actor.id;
          payload =
              (text "transactionId", Value.id t.id) ∷ (text "amount", Value.number t.total) ∷ [];
        }
        ∷ []
    refund_event _ _ = []

decided_status : Bool → TransactionRecord → Option ReturnCase → TransactionStatus
decided_status false t case_ = resumed_status t
decided_status true t none = TransactionStatus.refunded
decided_status true t (some case_) = TransactionStatus.cancel_requested

-- resolveCancellation from its decision on.
unfoldable pub decide :
    Bool
    → TransactionRecord
    → PaymentRecord
    → ShipmentRecord
    → MercariItem
    → Option ReturnCase
    → SandboxActor
    → Action OrderResult
unfolding decision_events decided_status
decide approve t payment shipment item case_ actor = do
  if approve
      then approve_cancellation t payment shipment item case_
      else modify (decline_cancellation t shipment case_)
  modify (λ s. set_transaction t.id (λ u. record u { updated_at = s.now }) s)
  events ← run_helper (commit (decision_events approve t payment case_ actor))
  modify (
      add_notification t.buyer_id
        (if approve then text "キャンセルが承認され返金されました" else text "キャンセル申請が却下されました")
        (Value.string t.title_snapshot ∷ Value.string (text "の取引状態が更新されました。") ∷ [])
        (first_id events))
  modify (
      add_notification t.seller_id
        (if approve then text "キャンセルが承認されました" else text "キャンセル申請が却下されました")
        (Value.string t.title_snapshot ∷ Value.string (text "の取引状態が更新されました。") ∷ [])
        (first_id events))
  pure (record { transaction_id = t.id; status = decided_status approve t case_ })

-- resolveCancellation
unfoldable pub resolve_cancellation : Ident → Bool → AgentActionOptions → Action OrderResult
resolve_cancellation transaction_id approve o = do
  actor ← authenticate o
  reject_if (not (is_operator actor.role)) forbidden
  found ← gets (λ s. find_transaction s transaction_id)
  t ← require found transaction_not_found
  reject_if (not (is_cancel_requested t.status)) invalid_transition
  found_payment ← gets (λ s. find_payment s t.payment_id)
  payment ← require found_payment state_conflict
  found_shipment ← gets (λ s. find_shipment s t.shipment_id)
  shipment ← require found_shipment state_conflict
  found_item ← gets (λ s. find_item s t.item_id)
  item ← require found_item state_conflict
  case_ ← gets (requested_return transaction_id)
  decide approve t payment shipment item case_ actor

-- ===== src/Engine/Orders.antt =====
-- The life of a paid order: shipOrder and markDelivered of
-- app/domain/sandboxEngine.ts.
use furima_sandbox.Prelude.{Bool, true, false, not, ◌&&◌, some, List, [], ◌∷◌, any, if◌then◌else◌}
use furima_sandbox.Text.{Text, text}
use furima_sandbox.Engine.Ident.{Ident, tracking, same}
use furima_sandbox.Engine.Records.{
  TransactionStatus, ShipmentStatus, AggregateType, Value, SandboxActor, TransactionRecord,
  ShipmentRecord,
}
use furima_sandbox.Engine.State.{
  EngineState, EventSpec, next_id, commit, add_notification, clear_failure, is_delivery_failure,
  find_transaction, find_shipment, set_transaction, set_shipment,
}
use furima_sandbox.Engine.Action.{
  Action, ◌>>=◌, ◌>>◌, pure, fail, gets, modify, run_helper, reject_if, reject_with, require,
  forbidden, invalid_transition, state_conflict, transaction_not_found, auth_required,
}
use furima_sandbox.Engine.Access.{
  AgentActionOptions, validate_options, actor_for, signed_in, is_operator,
}
use furima_sandbox.Engine.Purchase.{first_id}

pub record OrderResult : Type 0 where
  pub transaction_id : Ident
  pub status : TransactionStatus

-- The checks at the head of the order commands: the options, the transaction, a signed-in actor.
unfoldable pub open_order : Ident → AgentActionOptions → Action (SandboxActor × TransactionRecord)
open_order transaction_id o = do
  invalid ← gets (validate_options o)
  reject_with invalid
  actor ← gets (actor_for o)
  found ← gets (λ s. find_transaction s transaction_id)
  transaction ← require found transaction_not_found
  signed ← require (signed_in actor) auth_required
  pure (signed, transaction)

abbrev pub transaction_event : Text → Ident → Ident → List (Text × Value) → EventSpec
transaction_event kind transaction_id actor payload = record {
  kind = kind;
  aggregate_type = AggregateType.transaction;
  aggregate_id = transaction_id;
  actor_id = actor;
  payload = payload;
}

abbrev pub shipment_event : Text → Ident → Ident → List (Text × Value) → EventSpec
shipment_event kind shipment_id actor payload = record {
  kind = kind;
  aggregate_type = AggregateType.shipment;
  aggregate_id = shipment_id;
  actor_id = actor;
  payload = payload;
}

abbrev pub awaits_shipment : TransactionStatus → Bool
awaits_shipment TransactionStatus.paid = true
awaits_shipment TransactionStatus.awaiting_shipment = true
awaits_shipment _ = false

abbrev pub is_shipped : TransactionStatus → Bool
is_shipped TransactionStatus.shipped = true
is_shipped _ = false

abbrev pub is_delivered : TransactionStatus → Bool
is_delivered TransactionStatus.delivered = true
is_delivered _ = false

abbrev pub is_buyer_reviewed : TransactionStatus → Bool
is_buyer_reviewed TransactionStatus.buyer_reviewed = true
is_buyer_reviewed _ = false

-- The branch of an injected delivery failure.
unfoldable pub fail_delivery :
    TransactionRecord → ShipmentRecord → SandboxActor → Action OrderResult
fail_delivery transaction shipment actor = do
  modify (clear_failure is_delivery_failure)
  modify (λ s.
      set_shipment shipment.id
        (λ p. record p { status = ShipmentStatus.exception; updated_at = s.now }) s)
  run_helper (
      commit (
        shipment_event (text "SHIPMENT_EXCEPTION") shipment.id actor.id (
          (text "transactionId", Value.id transaction.id)
          ∷ (text "reason", Value.string (text "injected_failure"))
          ∷ [])
        ∷ []))
  fail invalid_transition

unfoldable pub mark_shipped : TransactionRecord → ShipmentRecord → Ident → EngineState → EngineState
mark_shipped transaction shipment number s =
    set_transaction transaction.id
      (λ t. record t {
        status = TransactionStatus.shipped;
        shipped_at = some s.now;
        updated_at = s.now;
      })
      (set_shipment shipment.id
        (λ p. record p {
          status = ShipmentStatus.in_transit;
          tracking_number = some (tracking number);
          updated_at = s.now;
        })
        s)

unfoldable pub dispatch_order :
    TransactionRecord → ShipmentRecord → SandboxActor → Action OrderResult
dispatch_order transaction shipment actor = do
  number ← run_helper (next_id (text "tracking"))
  modify (mark_shipped transaction shipment number)
  events ← run_helper (
      commit (
        shipment_event (text "SHIPMENT_DISPATCHED") shipment.id actor.id (
          (text "transactionId", Value.id transaction.id)
          ∷ (text "trackingNumber", Value.id (tracking number))
          ∷ [])
        ∷ transaction_event (text "TRANSACTION_SHIPPED") transaction.id actor.id []
        ∷ []))
  modify (
      add_notification transaction.buyer_id (text "商品が発送されました")
        (Value.string transaction.title_snapshot ∷ Value.string (text "の発送通知が届きました。") ∷ [])
        (first_id events))
  pure (record { transaction_id = transaction.id; status = TransactionStatus.shipped })

-- shipOrder
unfoldable pub ship_order : Ident → AgentActionOptions → Action OrderResult
ship_order transaction_id o = do
  (actor, transaction) ← open_order transaction_id o
  reject_if (not (is_operator actor.role) && not (same actor.id transaction.seller_id)) forbidden
  reject_if (not (awaits_shipment transaction.status)) invalid_transition
  found ← gets (λ s. find_shipment s transaction.shipment_id)
  shipment ← require found state_conflict
  failing ← gets (λ s. any is_delivery_failure s.pending_failures)
  if failing
      then fail_delivery transaction shipment actor
      else dispatch_order transaction shipment actor

unfoldable pub mark_arrived : TransactionRecord → ShipmentRecord → EngineState → EngineState
mark_arrived transaction shipment s =
    set_transaction transaction.id
      (λ t. record t {
        status = TransactionStatus.delivered;
        delivered_at = some s.now;
        updated_at = s.now;
      })
      (set_shipment shipment.id
        (λ p. record p { status = ShipmentStatus.delivered; updated_at = s.now }) s)

-- markDelivered
unfoldable pub mark_delivered : Ident → AgentActionOptions → Action OrderResult
mark_delivered transaction_id o = do
  (actor, transaction) ← open_order transaction_id o
  reject_if (not (is_operator actor.role) && not (same actor.id transaction.buyer_id)) forbidden
  reject_if (not (is_shipped transaction.status)) invalid_transition
  found ← gets (λ s. find_shipment s transaction.shipment_id)
  shipment ← require found state_conflict
  modify (mark_arrived transaction shipment)
  events ← run_helper (
      commit (
        shipment_event (text "SHIPMENT_DELIVERED") shipment.id actor.id
          ((text "transactionId", Value.id transaction.id) ∷ [])
        ∷ transaction_event (text "TRANSACTION_DELIVERED") transaction.id actor.id []
        ∷ []))
  modify (
      add_notification transaction.buyer_id (text "受取確認が可能です")
        (Value.string transaction.title_snapshot ∷ Value.string (text "が配達済みです。受取評価をお願いします。") ∷ [])
        (first_id events))
  pure (record { transaction_id = transaction.id; status = TransactionStatus.delivered })

-- ===== src/Engine/Soundness/Orders.antt =====
-- The invariant along shipOrder, markDelivered and reviewOrder (app/domain/sandboxEngine.ts).
use furima_sandbox.Prelude.{ℕ, Bool, ◌==◌, refl}
use furima_sandbox.Text.{Text}
use furima_sandbox.Engine.Ident.{Ident}
use furima_sandbox.Engine.Records.{TransactionRecord, ShipmentRecord, SandboxActor}
use furima_sandbox.Engine.State.{EngineState, next_id}
use furima_sandbox.Engine.Action.Preserves.{
  Preserves, Preserves-if, Preserves-pure, Preserves-bind, Preserves-modify, Preserves-run_helper,
  Preserves-reject_if, preserves_rules,
}
use furima_sandbox.Engine.Access.{AgentActionOptions}
use furima_sandbox.Engine.Checkout.{seller_fee}
use furima_sandbox.Engine.Orders.{
  open_order, fail_delivery, mark_shipped, dispatch_order, ship_order, mark_arrived, mark_delivered,
}
use furima_sandbox.Engine.Review.{push_review, mark_completed, settle, write_review, review_order}
use furima_sandbox.Engine.Soundness.{
  Sound, Sound-frame, next_id-Sound, commit-Sound, add_notification-Sound, clear_failure-Sound,
  set_transaction-Sound, set_shipment-Sound, add_ledger-Sound,
}

pub open_order-Sound : (k : Ident) (o : AgentActionOptions) → Preserves Sound (open_order k o)
unfolding open_order
open_order-Sound k o = search preserves_rules depth 30

mark_shipped-Sound :
    (t : TransactionRecord) (shipment : ShipmentRecord) (number : Ident) (s : EngineState)
    → Sound s
    → Sound (mark_shipped t shipment number s)
unfolding mark_shipped
mark_shipped-Sound t shipment number s h = set_transaction-Sound _ _ _ (set_shipment-Sound _ _ s h)

mark_arrived-Sound :
    (t : TransactionRecord) (shipment : ShipmentRecord) (s : EngineState)
    → Sound s
    → Sound (mark_arrived t shipment s)
unfolding mark_arrived
mark_arrived-Sound t shipment s h = set_transaction-Sound _ _ _ (set_shipment-Sound _ _ s h)

ruleset order_rules = (
  preserves_rules, open_order-Sound, next_id-Sound, mark_shipped-Sound, mark_arrived-Sound,
  clear_failure-Sound, set_shipment-Sound, commit-Sound, add_notification-Sound,
)

fail_delivery-Sound :
    (t : TransactionRecord) (shipment : ShipmentRecord) (actor : SandboxActor)
    → Preserves Sound (fail_delivery t shipment actor)
unfolding fail_delivery
fail_delivery-Sound t shipment actor = search order_rules depth 20

dispatch_order-Sound :
    (t : TransactionRecord) (shipment : ShipmentRecord) (actor : SandboxActor)
    → Preserves Sound (dispatch_order t shipment actor)
unfolding dispatch_order
dispatch_order-Sound t shipment actor = search order_rules depth 30

pub ship_order-Sound : (k : Ident) (o : AgentActionOptions) → Preserves Sound (ship_order k o)
unfolding ship_order
ship_order-Sound k o =
    search (preserves_rules, open_order-Sound, fail_delivery-Sound, dispatch_order-Sound) depth 40

pub mark_delivered-Sound :
    (k : Ident) (o : AgentActionOptions) → Preserves Sound (mark_delivered k o)
unfolding mark_delivered
mark_delivered-Sound k o = search order_rules depth 40

push_review-Sound :
    (t : TransactionRecord) (actor : SandboxActor) (by_buyer : Bool) (rating : ℕ) (comment : Text)
    (s : EngineState)
    → Sound s
    → Sound (push_review t actor by_buyer rating comment s)
unfolding push_review next_id
push_review-Sound t actor by_buyer rating comment s h =
    set_transaction-Sound _ _ _ (Sound-frame s _ refl refl refl refl h)

mark_completed-Sound :
    (t : TransactionRecord) (s : EngineState) → Sound s → Sound (mark_completed t s)
unfolding mark_completed
mark_completed-Sound t s = set_transaction-Sound _ _ s

settle-Sound : (t : TransactionRecord) → Preserves Sound (settle t)
unfolding settle
settle-Sound t = Preserves-bind _ _ (Preserves-modify _ (mark_completed-Sound t)) λ _.
    Preserves-bind _ _ (Preserves-run_helper _ (add_ledger-Sound _ _ _ _)) λ captured.
      Preserves-bind _ _ (Preserves-reject_if _ _) λ _.
        Preserves-bind _ _ (Preserves-run_helper _ (add_ledger-Sound _ _ _ _)) λ sold.
          Preserves-bind _ _ (Preserves-reject_if _ _) λ _.
            Preserves-if (seller_fee t.price_snapshot == 0) _ _ (Preserves-pure tt) (
              Preserves-bind _ _ (Preserves-run_helper _ (add_ledger-Sound _ _ _ _))
                λ paid. Preserves-reject_if _ _)

write_review-Sound :
    (t : TransactionRecord) (actor : SandboxActor) (by_buyer completes : Bool) (rating : ℕ)
    (comment : Text)
    → Preserves Sound (write_review t actor by_buyer completes rating comment)
unfolding write_review
write_review-Sound t actor by_buyer completes rating comment =
    search (order_rules, push_review-Sound, settle-Sound, set_transaction-Sound) depth 40

pub review_order-Sound :
    (k : Ident) (rating : ℕ) (comment : Text) (o : AgentActionOptions)
    → Preserves Sound (review_order k rating comment o)
unfolding review_order
review_order-Sound k rating comment o =
    search (preserves_rules, open_order-Sound, write_review-Sound) depth 60

-- ===== src/Engine/Soundness/Cancellations.antt =====
-- The invariant along cancelOrder, resolveCancellation, requestReturn and confirmReturnReceived
-- (app/domain/sandboxEngine.ts).
use furima_sandbox.Prelude.{Bool, ◌==◌, refl, Option, none, some, Bool-cases, inl, inr}
use furima_sandbox.Text.{Text}
use furima_sandbox.Engine.Ident.{Ident}
use furima_sandbox.Engine.Records.{
  TransactionRecord, TransactionStatus, PaymentRecord, ShipmentRecord, MercariItem, PurchaseIntent,
  ReturnCase, SandboxActor,
}
use furima_sandbox.Engine.State.{EngineState, WalletSnapshot, next_id}
use furima_sandbox.Engine.Action.Preserves.{
  Preserves, Preserves-if, Preserves-pure, Preserves-bind, Preserves-modify, Preserves-run_helper,
  Preserves-reject_if, preserves_rules,
}
use furima_sandbox.Engine.Access.{AgentActionOptions}
use furima_sandbox.Engine.Checkout.{seller_fee}
use furima_sandbox.Engine.Reservation.{by_release}
use furima_sandbox.Engine.Cancellation.{
  is_captured, is_on_its_way, release_if_active, give_back_points, refund_order, cancel_branch,
  note_cancel, is_refunded, restock, restock_if_refunded, write_cancel, cancel_order,
}
use furima_sandbox.Engine.Resolution.{
  restore_stock, await_return, approve_refund, approve_cancellation, decline_return,
  decline_cancellation, decide, resolve_cancellation,
}
use furima_sandbox.Engine.Returns.{
  push_return, request_return, reverse_sale, return_hold, close_return, receive_return,
  receive_or_report, confirm_return_received,
}
use furima_sandbox.Engine.Soundness.{
  Sound, Sound-frame, commit-Sound, add_notification-Sound, record_inventory_movement-Sound,
  update_item-Sound, set_transaction-Sound, set_payment-Sound, set_return-Sound, set_points-Sound,
  set_shipment-Sound, add_ledger-Sound, release_wallet_hold-Sound,
}
use furima_sandbox.Engine.Soundness.Reservations.{authenticate-Sound, release_intent-Sound}
use furima_sandbox.Engine.Soundness.Orders.{open_order-Sound}

release_if_active-Sound :
    (intent : Option PurchaseIntent) (actor : Ident) (s : EngineState)
    → Sound s
    → Sound (release_if_active intent actor s).1
unfolding release_if_active
release_if_active-Sound none actor s h = h
release_if_active-Sound (some intent) actor s h = release_intent-Sound intent by_release actor s h

give_back_points-Sound :
    (t : TransactionRecord) (s : EngineState) → Sound s → Sound (give_back_points t s)
unfolding give_back_points
give_back_points-Sound t s = set_points-Sound _ _ s

refund_order-Sound :
    (t : TransactionRecord) (payment : PaymentRecord) (s : EngineState)
    → Sound s
    → Sound (refund_order t payment s)
unfolding refund_order
refund_order-Sound t payment s h =
    give_back_points-Sound t _
      (release_wallet_hold-Sound _ _ _ _ (set_transaction-Sound _ _ _ (set_payment-Sound _ _ s h)))

cancel_branch-Sound :
    (t : TransactionRecord) (payment : Option PaymentRecord) (s : EngineState)
    → Sound s
    → Sound (cancel_branch t payment s)
unfolding cancel_branch
cancel_branch-Sound t none s h = set_transaction-Sound _ _ s h
cancel_branch-Sound t (some payment) s h = elim (Bool-cases (is_on_its_way t.status)) [
  | inl w ↦ rw w (set_transaction-Sound _ _ s h)
  | inr w ↦ elim (Bool-cases (is_captured payment.status)) [
    | inl c ↦ rw (w, c) (refund_order-Sound t payment s h)
    | inr c ↦ rw (w, c) (set_transaction-Sound _ _ s h)
  ]
]

note_cancel-Sound :
    (t : TransactionRecord) (reason : Text) (s : EngineState)
    → Sound s
    → Sound (note_cancel t reason s)
unfolding note_cancel
note_cancel-Sound t reason s = set_transaction-Sound _ _ s

restock_if_refunded-Sound :
    (t : TransactionRecord) (status : TransactionStatus) (item : Option MercariItem)
    (s : EngineState)
    → Sound s
    → Sound (restock_if_refunded t status item s)
unfolding restock_if_refunded restock
restock_if_refunded-Sound t status none s h = h
restock_if_refunded-Sound t status (some item) s h = elim (Bool-cases (is_refunded status)) [
  | inl r ↦ rw r (record_inventory_movement-Sound _ _ _ _ _ _ (update_item-Sound _ _ s h))
  | inr r ↦ rw r h
]

ruleset cancel_rules = (
  preserves_rules, authenticate-Sound, open_order-Sound, release_if_active-Sound,
  cancel_branch-Sound, note_cancel-Sound, restock_if_refunded-Sound, commit-Sound,
  add_notification-Sound, set_transaction-Sound, set_payment-Sound, set_shipment-Sound,
  give_back_points-Sound, release_wallet_hold-Sound,
)

write_cancel-Sound :
    (t : TransactionRecord) (intent : Option PurchaseIntent) (item : Option MercariItem)
    (reason : Text) (actor : SandboxActor)
    → Preserves Sound (write_cancel t intent item reason actor)
unfolding write_cancel
write_cancel-Sound t intent item reason actor = search cancel_rules depth 50

pub cancel_order-Sound :
    (k : Ident) (reason : Text) (o : AgentActionOptions) → Preserves Sound (cancel_order k reason o)
unfolding cancel_order
cancel_order-Sound k reason o =
    search (preserves_rules, open_order-Sound, write_cancel-Sound) depth 60

restore_stock-Sound :
    (reason : Text) (t : TransactionRecord) (item : MercariItem) (s : EngineState)
    → Sound s
    → Sound (restore_stock reason t item s)
unfolding restore_stock
restore_stock-Sound reason t item s h =
    record_inventory_movement-Sound _ _ _ _ _ _ (update_item-Sound _ _ s h)

approve_refund-Sound :
    (t : TransactionRecord) (payment : PaymentRecord) (shipment : ShipmentRecord)
    (item : MercariItem)
    → Preserves Sound (approve_refund t payment shipment item)
unfolding approve_refund
approve_refund-Sound t payment shipment item = search (cancel_rules, restore_stock-Sound) depth 50

await_return-Sound :
    (t : TransactionRecord) (shipment : ShipmentRecord) (case_ : ReturnCase) (s : EngineState)
    → Sound s
    → Sound (await_return t shipment case_ s)
unfolding await_return
await_return-Sound t shipment case_ s h =
    set_shipment-Sound _ _ _ (set_transaction-Sound _ _ _ (set_return-Sound _ _ s h))

approve_cancellation-Sound :
    (t : TransactionRecord) (payment : PaymentRecord) (shipment : ShipmentRecord)
    (item : MercariItem) (case_ : Option ReturnCase)
    → Preserves Sound (approve_cancellation t payment shipment item case_)
unfolding approve_cancellation
approve_cancellation-Sound t payment shipment item (some case_) =
    Preserves-modify _ (await_return-Sound t shipment case_)
approve_cancellation-Sound t payment shipment item none =
    approve_refund-Sound t payment shipment item

decline_return-Sound :
    (case_ : Option ReturnCase) (s : EngineState) → Sound s → Sound (decline_return case_ s)
unfolding decline_return
decline_return-Sound none s h = h
decline_return-Sound (some case_) s h = set_return-Sound _ _ s h

decline_cancellation-Sound :
    (t : TransactionRecord) (shipment : ShipmentRecord) (case_ : Option ReturnCase)
    (s : EngineState)
    → Sound s
    → Sound (decline_cancellation t shipment case_ s)
unfolding decline_cancellation
decline_cancellation-Sound t shipment case_ s h =
    decline_return-Sound case_ _ (set_shipment-Sound _ _ _ (set_transaction-Sound _ _ s h))

decide-Sound :
    (approve : Bool) (t : TransactionRecord) (payment : PaymentRecord) (shipment : ShipmentRecord)
    (item : MercariItem) (case_ : Option ReturnCase) (actor : SandboxActor)
    → Preserves Sound (decide approve t payment shipment item case_ actor)
unfolding decide
decide-Sound approve t payment shipment item case_ actor =
    search (cancel_rules, approve_cancellation-Sound, decline_cancellation-Sound) depth 50

pub resolve_cancellation-Sound :
    (k : Ident) (approve : Bool) (o : AgentActionOptions)
    → Preserves Sound (resolve_cancellation k approve o)
unfolding resolve_cancellation
resolve_cancellation-Sound k approve o =
    search (preserves_rules, authenticate-Sound, decide-Sound) depth 60

push_return-Sound :
    (t : TransactionRecord) (actor : SandboxActor) (reason : Text) (s : EngineState)
    → Sound s
    → Sound (push_return t actor reason s).1
unfolding push_return next_id
push_return-Sound t actor reason s h =
    set_transaction-Sound _ _ _ (Sound-frame s _ refl refl refl refl h)

pub request_return-Sound :
    (k : Ident) (reason : Text) (o : AgentActionOptions)
    → Preserves Sound (request_return k reason o)
unfolding request_return
request_return-Sound k reason o = search (cancel_rules, push_return-Sound) depth 60

reverse_sale-Sound :
    (t : TransactionRecord) (seller : WalletSnapshot) → Preserves Sound (reverse_sale t seller)
unfolding reverse_sale
reverse_sale-Sound t seller = Preserves-bind _ _ (Preserves-reject_if _ _) λ _.
    Preserves-bind _ _
      (Preserves-if (seller_fee t.price_snapshot == 0) _ _ (Preserves-pure tt) (
        Preserves-bind _ _ (Preserves-run_helper _ (add_ledger-Sound _ _ _ _))
          λ paid. Preserves-reject_if _ _))
      λ _. search (preserves_rules, add_ledger-Sound) depth 30

return_hold-Sound : (t : TransactionRecord) → Preserves Sound (return_hold t)
unfolding return_hold
return_hold-Sound t = search (preserves_rules, release_wallet_hold-Sound) depth 20

close_return-Sound :
    (t : TransactionRecord) (payment : PaymentRecord) (case_ : ReturnCase) (s : EngineState)
    → Sound s
    → Sound (close_return t payment case_ s)
unfolding close_return
close_return-Sound t payment case_ s h =
    set_return-Sound _ _ _
      (set_transaction-Sound _ _ _ (set_points-Sound _ _ _ (set_payment-Sound _ _ s h)))

receive_return-Sound :
    (t : TransactionRecord) (case_ : ReturnCase) (payment : PaymentRecord) (item : MercariItem)
    (shipment : ShipmentRecord) (seller : WalletSnapshot) (actor : SandboxActor)
    → Preserves Sound (receive_return t case_ payment item shipment seller actor)
unfolding receive_return
receive_return-Sound t case_ payment item shipment seller actor =
    search
      (cancel_rules, reverse_sale-Sound, return_hold-Sound, close_return-Sound, restore_stock-Sound)
      depth 50

receive_or_report-Sound :
    (t : TransactionRecord) (done moving : Option ReturnCase) (actor : SandboxActor)
    → Preserves Sound (receive_or_report t done moving actor)
unfolding receive_or_report
receive_or_report-Sound t (some done) moving actor = Preserves-pure _
receive_or_report-Sound t none moving actor =
    search (preserves_rules, receive_return-Sound) depth 60

pub confirm_return_received-Sound :
    (k : Ident) (o : AgentActionOptions) → Preserves Sound (confirm_return_received k o)
unfolding confirm_return_received
confirm_return_received-Sound k o = search (preserves_rules, receive_or_report-Sound) depth 60

-- ===== src/Engine/Soundness/Payments.antt =====
-- The invariant along the wallet commands and confirmPurchase (app/domain/sandboxEngine.ts).
use furima_sandbox.Prelude.{ℕ}
use furima_sandbox.Engine.Ident.{Ident}
use furima_sandbox.Engine.Records.{
  MercariItem, PurchaseIntent, TransactionRecord, PaymentRecord, ShipmentRecord, SandboxActor,
}
use furima_sandbox.Engine.State.{EngineState}
use furima_sandbox.Engine.Action.Preserves.{Preserves, preserves_rules}
use furima_sandbox.Engine.Access.{AgentActionOptions}
use furima_sandbox.Engine.Wallet.{
  Amount, wallet_for_authenticated_actor, get_wallet, deposit_wallet, withdraw_wallet,
}
use furima_sandbox.Engine.Pricing.{write_quote}
use furima_sandbox.Engine.Checkout.{
  fail_payment, capture_payment, take_stock, settle_purchase, expire_intent, pay_intent,
  confirm_purchase,
}
use furima_sandbox.Engine.Soundness.{
  Sound, next_id-Sound, commit-Sound, add_notification-Sound, record_inventory_movement-Sound,
  clear_failure-Sound, update_item-Sound, set_intent-Sound, set_transaction-Sound,
  set_payment-Sound, set_shipment-Sound, set_points-Sound, add_ledger-Sound,
}
use furima_sandbox.Engine.Soundness.Reservations.{authenticate-Sound, release_intent-Sound}

wallet_for-Sound : (o : AgentActionOptions) → Preserves Sound (wallet_for_authenticated_actor o)
unfolding wallet_for_authenticated_actor
wallet_for-Sound o = search (preserves_rules, authenticate-Sound) depth 20

pub get_wallet-Sound : (o : AgentActionOptions) → Preserves Sound (get_wallet o)
unfolding get_wallet
get_wallet-Sound o = search (preserves_rules, wallet_for-Sound)

pub deposit_wallet-Sound :
    (amount : Amount) (o : AgentActionOptions) → Preserves Sound (deposit_wallet amount o)
unfolding deposit_wallet
deposit_wallet-Sound amount o =
    search (preserves_rules, wallet_for-Sound, next_id-Sound, add_ledger-Sound, commit-Sound) depth
      30

pub withdraw_wallet-Sound :
    (amount : Amount) (o : AgentActionOptions) → Preserves Sound (withdraw_wallet amount o)
unfolding withdraw_wallet
withdraw_wallet-Sound amount o =
    search (preserves_rules, wallet_for-Sound, next_id-Sound, add_ledger-Sound, commit-Sound) depth
      30

pub write_quote-Sound :
    (intent : PurchaseIntent) (t : TransactionRecord) (total coupon points : ℕ) (s : EngineState)
    → Sound s
    → Sound (write_quote intent t total coupon points s)
unfolding write_quote
write_quote-Sound intent t total coupon points s h =
    set_payment-Sound _ _ _ (set_transaction-Sound _ _ _ (set_intent-Sound _ _ s h))

capture_payment-Sound :
    (intent : PurchaseIntent) (t : TransactionRecord) (payment : PaymentRecord)
    (shipment : ShipmentRecord) (actor : SandboxActor) (s : EngineState)
    → Sound s
    → Sound (capture_payment intent t payment shipment actor s)
unfolding capture_payment
capture_payment-Sound intent t payment shipment actor s h = set_shipment-Sound _ _ _ (
    set_points-Sound _ _ _
      (set_intent-Sound _ _ _ (set_transaction-Sound _ _ _ (set_payment-Sound _ _ s h))))

take_stock-Sound :
    (intent : PurchaseIntent) (item : MercariItem) (s : EngineState)
    → Sound s
    → Sound (take_stock intent item s)
unfolding take_stock
take_stock-Sound intent item s = update_item-Sound _ _ s

ruleset checkout_rules = (
  preserves_rules, release_intent-Sound, commit-Sound, clear_failure-Sound, set_payment-Sound,
  capture_payment-Sound, take_stock-Sound, record_inventory_movement-Sound, add_notification-Sound,
)

fail_payment-Sound :
    (intent : PurchaseIntent) (t : TransactionRecord) (payment : PaymentRecord)
    (actor : SandboxActor)
    → Preserves Sound (fail_payment intent t payment actor)
unfolding fail_payment
fail_payment-Sound intent t payment actor = search checkout_rules depth 20

settle_purchase-Sound :
    (intent : PurchaseIntent) (t : TransactionRecord) (payment : PaymentRecord)
    (shipment : ShipmentRecord) (item : MercariItem) (actor : SandboxActor)
    → Preserves Sound (settle_purchase intent t payment shipment item actor)
unfolding settle_purchase
settle_purchase-Sound intent t payment shipment item actor = search checkout_rules depth 30

expire_intent-Sound :
    (intent : PurchaseIntent) (actor : SandboxActor) → Preserves Sound (expire_intent intent actor)
unfolding expire_intent
expire_intent-Sound intent actor = search checkout_rules depth 20

pay_intent-Sound :
    (intent : PurchaseIntent) (actor : SandboxActor) (o : AgentActionOptions)
    → Preserves Sound (pay_intent intent actor o)
unfolding pay_intent
pay_intent-Sound intent actor o =
    search (preserves_rules, fail_payment-Sound, settle_purchase-Sound) depth 40

pub confirm_purchase-Sound :
    (k : Ident) (o : AgentActionOptions) → Preserves Sound (confirm_purchase k o)
unfolding confirm_purchase
confirm_purchase-Sound k o =
    search (preserves_rules, authenticate-Sound, expire_intent-Sound, pay_intent-Sound) depth 40

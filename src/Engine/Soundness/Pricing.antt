-- ===== src/Engine/Soundness/Pricing.antt =====
-- The invariant along updatePurchasePricing and purchaseItemWithPricing
-- (app/domain/sandboxEngine.ts).
use furima_sandbox.Prelude.{ℕ, Option, none, some, ◌&&◌, not, ◌==◌}
use furima_sandbox.Engine.Ident.{Ident}
use furima_sandbox.Engine.Records.{PurchaseIntent, TransactionRecord}
use furima_sandbox.Engine.State.{EngineState}
use furima_sandbox.Engine.Action.{AgentErrorCode, fail}
use furima_sandbox.Engine.Action.Preserves.{
  Preserves, Preserves-if, Preserves-pure, Preserves-save, Preserves-bind, Preserves-fail,
  Preserves-gets, Preserves-reject_if, Preserves-run_helper, Preserves-modify, preserves_rules,
}
use furima_sandbox.Engine.Access.{AgentActionOptions}
use furima_sandbox.Engine.Pricing.{
  PurchasePricing, is_zero_discount, roll_back, replace_hold, reprice, update_purchase_pricing,
}
use furima_sandbox.Engine.Checkout.{purchase_item_with_pricing, purchase_item}
use furima_sandbox.Engine.Soundness.{
  Sound, commit-Sound, add_ledger-Sound, release_wallet_hold-Sound,
}
use furima_sandbox.Engine.Soundness.Reservations.{authenticate-Sound}
use furima_sandbox.Engine.Soundness.Payments.{write_quote-Sound, confirm_purchase-Sound}

roll_back-Sound :
    {A : Type 0} (saved : EngineState) (e : AgentErrorCode)
    → Sound saved
    → Preserves Sound (roll_back {A = A} saved (fail e))
unfolding roll_back
roll_back-Sound saved e h =
    Preserves-bind _ _ (Preserves-modify _ (λ s _. h)) (λ _. Preserves-fail e)

replace_hold-Sound :
    (actor : Ident) (t : TransactionRecord) (total : ℕ)
    → Preserves Sound (replace_hold actor t total)
unfolding replace_hold
replace_hold-Sound actor t total = Preserves-bind _ _ (Preserves-gets _) λ short.
    Preserves-bind _ _ (Preserves-reject_if _ _) λ _. Preserves-save _ λ saved h.
      Preserves-bind _ _ (Preserves-run_helper _ (λ s k. release_wallet_hold-Sound _ _ _ s k))
        λ released. Preserves-bind _ _ (Preserves-gets _) λ still_short.
          Preserves-if still_short _ _ (roll_back-Sound saved _ h) (
            Preserves-if (not (released == t.total)) _ _ (roll_back-Sound saved _ h) (
              Preserves-bind _ _ (Preserves-run_helper _ (λ s k. add_ledger-Sound _ _ _ _ s k))
                λ placed. Preserves-if placed _ _ (Preserves-pure _) (roll_back-Sound saved _ h)))

reprice-Sound :
    (intent : PurchaseIntent) (pricing : PurchasePricing) (actor : Ident)
    → Preserves Sound (reprice intent pricing actor)
unfolding reprice
reprice-Sound intent pricing actor =
    search (preserves_rules, replace_hold-Sound, write_quote-Sound, commit-Sound) depth 50

update_purchase_pricing-Sound :
    (intent : PurchaseIntent) (pricing : Option PurchasePricing) (actor : Ident)
    → Preserves Sound (update_purchase_pricing intent pricing actor)
unfolding update_purchase_pricing
update_purchase_pricing-Sound intent none actor = Preserves-pure tt
update_purchase_pricing-Sound intent (some pricing) actor =
    Preserves-if
      (is_zero_discount pricing.coupon_discount && is_zero_discount pricing.points_discount) _ _
      (Preserves-pure tt) (reprice-Sound intent pricing actor)

pub purchase_item_with_pricing-Sound :
    (k : Ident) (pricing : Option PurchasePricing) (o : AgentActionOptions)
    → Preserves Sound (purchase_item_with_pricing k pricing o)
unfolding purchase_item_with_pricing
purchase_item_with_pricing-Sound k pricing o =
    search
      (preserves_rules, authenticate-Sound, update_purchase_pricing-Sound, confirm_purchase-Sound)
      depth 40

pub purchase_item-Sound : (k : Ident) (o : AgentActionOptions) → Preserves Sound (purchase_item k o)
unfolding purchase_item
purchase_item-Sound k o = purchase_item_with_pricing-Sound k none o

-- ===== src/Engine/Pricing.antt =====
-- Discounts on a reservation: updatePurchasePricing of app/domain/sandboxEngine.ts.
use furima_sandbox.Prelude.{
  ℕ, ◌+◌, ◌-◌, min, Bool, true, false, not, ◌&&◌, Option, none, some, [], ◌∷◌, ltb, ◌==◌,
  if◌then◌else◌,
}
use furima_sandbox.Prelude.Int.{ℤ, pos, negsuc, pos_part, ltb_ℤ, ◌+ℤ◌}
use furima_sandbox.Text.{text}
use furima_sandbox.Engine.Ident.{Ident}
use furima_sandbox.Engine.Records.{
  AggregateType, Value, WalletLedgerType, PurchaseIntent, TransactionRecord, MercariItem,
}
use furima_sandbox.Engine.State.{
  EngineState, EventSpec, WalletSnapshot, commit, find_item, find_transaction, find_wallet,
  set_intent, set_transaction, set_payment,
}
use furima_sandbox.Engine.Action.{
  Action, ◌>>=◌, ◌>>◌, pure, fail, gets, modify, run_helper, reject_if, require, invalid_transition,
  payment_failed, state_conflict, invalid_input, invalid_state,
}
use furima_sandbox.Engine.Wallet.{add_ledger, held_amount_for_reference, release_wallet_hold}
use furima_sandbox.Engine.Reservation.{is_active}
use furima_sandbox.Engine.Opening.{shipping_cost_for}

-- A finite number: an integer, or one strictly between an integer and the next.
pub data Discount : Type 0 where
  exactly : ℤ → Discount
  above : ℤ → Discount

pub record PurchasePricing : Type 0 where
  pub coupon_discount : Option Discount
  pub points_discount : Option Discount

-- (discount ?? 0) === 0
pub is_zero_discount : Option Discount → Bool
is_zero_discount none = true
is_zero_discount (some (exactly (pos n))) = n == 0
is_zero_discount (some (exactly (negsuc n))) = false
is_zero_discount (some (above z)) = false

-- Math.max(0, Math.floor(discount ?? 0))
unfoldable pub requested : Option Discount → ℕ
requested none = 0
requested (some (exactly z)) = pos_part z
requested (some (above z)) = pos_part z

unfoldable pub coupon_for : MercariItem → ℕ → ℕ
coupon_for item wanted =
    if ltb 0 wanted
    then if item.is_coupon_eligible then min (min wanted 500) item.price else 0
    else 0

unfoldable pub points_for : MercariItem → WalletSnapshot → ℕ → ℕ → ℕ
points_for item wallet coupon wanted =
    min (min (min wanted 200) wallet.points) (item.price - coupon)

-- discount || undefined
some_if_positive : ℕ → Option ℕ
some_if_positive n = if n == 0 then none else some n

-- What is left to pay after the discounts.
abbrev pub discounted_total : MercariItem → ℕ → ℕ → ℕ
discounted_total item coupon points = item.price + shipping_cost_for item - coupon - points

funds_short : Ident → Ident → ℕ → EngineState → Bool
funds_short actor transaction_id total s = elim (find_wallet s actor) [
  | none ↦ true
  | some w ↦
      ltb_ℤ (pos w.available_balance +ℤ held_amount_for_reference actor transaction_id s)
        (pos total)
]

available_short : Ident → ℕ → EngineState → Bool
available_short actor total s = elim (find_wallet s actor) [
  | none ↦ true
  | some w ↦ ltb w.available_balance total
]

-- `this.state = pricingState` and the error.
unfoldable pub roll_back : {A : Type 0} → EngineState → Action A → Action A
roll_back saved failing = modify (λ _. saved) >> failing

-- The replacement of the hold when the total changes, rolled back where it does not succeed.
unfoldable pub replace_hold : Ident → TransactionRecord → ℕ → Action (Unit {0})
unfolding funds_short available_short
replace_hold actor transaction next_total = do
  short ← gets (funds_short actor transaction.id next_total)
  reject_if short payment_failed
  saved ← gets (λ s. s)
  released ← run_helper (release_wallet_hold actor transaction.total transaction.id)
  still_short ← gets (available_short actor next_total)
  if still_short then roll_back saved (fail payment_failed) else do
    if not (released == transaction.total) then roll_back saved (fail invalid_state) else do
      placed ← run_helper (add_ledger actor WalletLedgerType.hold next_total transaction.id)
      if placed then pure tt else roll_back saved (fail invalid_state)

quote_event : TransactionRecord → Ident → ℕ → ℕ → ℕ → EventSpec
quote_event transaction actor total coupon points = record {
  kind = text "PURCHASE_QUOTE_UPDATED";
  aggregate_type = AggregateType.transaction;
  aggregate_id = transaction.id;
  actor_id = actor;
  payload =
      (text "total", Value.number total)
      ∷ (text "couponDiscount", Value.number coupon)
      ∷ (text "pointsDiscount", Value.number points)
      ∷ [];
}

-- The writes of the new quote to the intent, the transaction and the payment.
unfoldable pub write_quote :
    PurchaseIntent → TransactionRecord → ℕ → ℕ → ℕ → EngineState → EngineState
unfolding some_if_positive
write_quote intent transaction total coupon points s =
    set_payment transaction.payment_id (λ p. record p { amount = total; updated_at = s.now })
      (set_transaction transaction.id
        (λ t. record t {
          total = total;
          updated_at = s.now;
          coupon_discount = some_if_positive coupon;
          points_used = some_if_positive points;
        })
        (set_intent intent.id
          (λ i. record i {
            quote = total;
            coupon_discount = some_if_positive coupon;
            points_discount = some_if_positive points;
          })
          s))

-- updatePurchasePricing with a discount that is not zero.
unfoldable pub reprice : PurchaseIntent → PurchasePricing → Ident → Action (Unit {0})
unfolding quote_event
reprice intent pricing actor = do
  found_item ← gets (λ s. find_item s intent.item_id)
  item ← require found_item state_conflict
  found ← gets (λ s. find_transaction s intent.transaction_id)
  transaction ← require found state_conflict
  found_wallet ← gets (λ s. find_wallet s actor)
  wallet ← require found_wallet state_conflict
  reject_if (not (is_active intent.status)) invalid_transition
  let wanted_coupon = requested pricing.coupon_discount
  let wanted_points = requested pricing.points_discount
  let coupon = coupon_for item wanted_coupon
  let points = points_for item wallet coupon wanted_points
  reject_if (ltb 0 wanted_coupon && coupon == 0) invalid_input
  reject_if (ltb 0 wanted_points && not (points == wanted_points)) invalid_input
  let next_total = discounted_total item coupon points
  if next_total == transaction.total then pure tt else replace_hold actor transaction next_total
  modify (write_quote intent transaction next_total coupon points)
  run_helper (commit (quote_event transaction actor next_total coupon points ∷ []))
  pure tt

-- updatePurchasePricing
unfoldable pub update_purchase_pricing :
    PurchaseIntent → Option PurchasePricing → Ident → Action (Unit {0})
update_purchase_pricing intent none actor = pure tt
update_purchase_pricing intent (some pricing) actor =
    if is_zero_discount pricing.coupon_discount && is_zero_discount pricing.points_discount
    then pure tt
    else reprice intent pricing actor

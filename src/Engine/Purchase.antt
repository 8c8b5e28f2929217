-- ===== src/Engine/Purchase.antt =====
-- Buying an item: startPurchase, purchaseItem, purchaseItemWithPricing, updatePurchasePricing and
-- confirmPurchase of app/domain/sandboxEngine.ts.
use furima_sandbox.Prelude.{
  ℕ, ◌+◌, ◌-◌, Bool, true, false, not, ◌&&◌, ◌||◌, Option, none, some, List, [], ◌∷◌, ltb, leb,
  keep, if◌then◌else◌,
}
use furima_sandbox.Prelude.Int.{ℤ, pos, ltb_ℤ, ◌+ℤ◌}
use furima_sandbox.Text.{text}
use furima_sandbox.Engine.Ident.{Ident}
use furima_sandbox.Engine.Records.{
  ListingStatus, InventoryMovementType, Value, WalletLedgerType, SandboxActor, PurchaseIntent,
  MercariItem,
}
use furima_sandbox.Engine.State.{
  EngineState, EventSpec, DomainEvent, WalletSnapshot, commit, add_notification,
  record_inventory_movement, find_item, find_intent, find_wallet,
}
use furima_sandbox.Engine.Action.{
  Action, ◌>>=◌, ◌>>◌, pure, gets, modify, run_helper, reject_if, require, forbidden,
  item_not_found, invalid_transition, policy_review_required, payment_failed, already_sold,
}
use furima_sandbox.Engine.Access.{AgentActionOptions, authenticate, is_buyer}
use furima_sandbox.Engine.Wallet.{add_ledger, held_amount_for_reference}
use furima_sandbox.Engine.Reservation.{
  reserves, sum_quantities, active_intent_for, release_expired_purchase_intents,
}
use furima_sandbox.Engine.Opening.{
  shipping_cost_for, StartPurchaseResult, push_purchase, reserve_unit, purchase_events,
}

abbrev pub is_held_listing : ListingStatus → Bool
is_held_listing ListingStatus.held = true
is_held_listing _ = false

-- publicListingStatuses
abbrev pub is_public : ListingStatus → Bool
is_public ListingStatus.active = true
is_public ListingStatus.reserved = true
is_public ListingStatus.sold = true
is_public _ = false

-- The balance that the buyer could pay with: what is available, and the hold of an expired intent.
unfoldable pub payable : Ident → Option PurchaseIntent → WalletSnapshot → EngineState → ℤ
payable buyer existing wallet s = pos wallet.available_balance +ℤ elim existing [
  | none ↦ pos 0
  | some intent ↦ held_amount_for_reference buyer intent.transaction_id s
]

unfoldable pub cannot_pay : Ident → Option PurchaseIntent → ℕ → EngineState → Bool
cannot_pay buyer existing total s = elim (find_wallet s buyer) [
  | none ↦ true
  | some wallet ↦ ltb_ℤ (payable buyer existing wallet s) (pos total)
]

-- The quantity that overdue intents still reserve.
unfoldable pub expired_reservation_quantity : Ident → EngineState → ℕ
expired_reservation_quantity item_id s =
    sum_quantities (keep (λ i. reserves item_id i && leb i.expires_at s.now) s.purchase_intents)

abbrev pub out_of_stock : MercariItem → EngineState → Bool
out_of_stock item s =
    leb item.inventory_quantity (item.reserved_quantity - expired_reservation_quantity item.id s)

buyer_of : Ident → EngineState → Option Ident
buyer_of intent_id s = elim (find_intent s intent_id) [
  | none ↦ none
  | some intent ↦ some intent.buyer_id
]

or_actor : Option Ident → Ident → Ident
or_actor none actor = actor
or_actor (some buyer) actor = buyer

-- The loop over the released intents in startPurchase.
unfoldable pub notify_expired : List Ident → Ident → EngineState → EngineState
unfolding buyer_of or_actor
notify_expired [] actor s = s
notify_expired (intent_id ∷ ids) actor s = notify_expired ids actor (
    add_notification (or_actor (buyer_of intent_id s) actor) (text "購入予約の期限が切れました")
      (Value.string (text "在庫予約を解放しました。もう一度購入手続きを開始してください。") ∷ []) none s)

-- if (expired.specs.length) { … }
unfoldable pub announce_expired : List Ident → List EventSpec → Ident → EngineState → EngineState
announce_expired ids [] actor s = s
announce_expired ids (spec ∷ specs) actor s = notify_expired ids actor (commit (spec ∷ specs) s).1

abbrev pub first_id : List DomainEvent → Option Ident
first_id [] = none
first_id (e ∷ _) = some e.id

-- events.at(-1)?.id
abbrev pub last_id : List DomainEvent → Option Ident
last_id [] = none
last_id (e ∷ []) = some e.id
last_id (e ∷ f ∷ es) = last_id (f ∷ es)

-- startPurchase from the allocation of the ids on.
unfoldable pub open_purchase : MercariItem → SandboxActor → ℕ → Action StartPurchaseResult
open_purchase item actor total = do
  result ← run_helper (push_purchase item actor total)
  run_helper (add_ledger actor.id WalletLedgerType.hold total result.transaction_id)
  modify (reserve_unit item)
  modify (
      record_inventory_movement item InventoryMovementType.reserve 1 (text "購入予約")
        (some result.purchase_intent_id))
  events ← run_helper (commit (purchase_events result item actor))
  modify (
      add_notification actor.id (text "購入手続きを開始しました")
        (Value.string item.title
          ∷ Value.string (text "の購入予約を作成しました。")
          ∷ Value.instant result.expires_at
          ∷ Value.string (text "までに確定してください。")
          ∷ [])
        (first_id events))
  pure result

-- startPurchase from the check of the wallet on.
unfoldable pub reserve_purchase :
    MercariItem → SandboxActor → Option PurchaseIntent → Action StartPurchaseResult
reserve_purchase item actor existing = do
  let total = item.price + shipping_cost_for item
  short ← gets (cannot_pay actor.id existing total)
  reject_if short payment_failed
  reject_if item.is_sold already_sold
  empty ← gets (out_of_stock item)
  reject_if empty already_sold
  (ids, specs) ← run_helper (release_expired_purchase_intents actor.id)
  modify (announce_expired ids specs actor.id)
  found ← gets (λ s. find_item s item.id)
  current ← require found already_sold
  reject_if (leb current.inventory_quantity current.reserved_quantity || current.is_sold)
      already_sold
  open_purchase current actor total

quoted : PurchaseIntent → StartPurchaseResult
quoted intent = record {
  purchase_intent_id = intent.id;
  transaction_id = intent.transaction_id;
  expires_at = intent.expires_at;
  quote = intent.quote;
}

-- A live intent is returned again; otherwise a new one is made.
unfoldable pub resume_or_reserve :
    MercariItem → SandboxActor → Option PurchaseIntent → ℕ → Action StartPurchaseResult
unfolding quoted
resume_or_reserve item actor none now = reserve_purchase item actor none
resume_or_reserve item actor (some intent) now =
    if ltb now intent.expires_at
    then pure (quoted intent)
    else reserve_purchase item actor (some intent)

-- startPurchase
unfoldable pub start_purchase : Ident → AgentActionOptions → Action StartPurchaseResult
start_purchase item_id o = do
  actor ← authenticate o
  reject_if (not (is_buyer actor.role)) forbidden
  found ← gets (λ s. find_item s item_id)
  item ← require found item_not_found
  reject_if item.is_auction invalid_transition
  reject_if (is_held_listing item.listing_status) policy_review_required
  reject_if (not (is_public item.listing_status)) invalid_transition
  existing ← gets (active_intent_for item_id actor.id)
  now ← gets (λ s. s.now)
  resume_or_reserve item actor existing now

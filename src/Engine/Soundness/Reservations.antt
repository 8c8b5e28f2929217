-- ===== src/Engine/Soundness/Reservations.antt =====
-- The invariant along the release of reservations and startPurchase (app/domain/sandboxEngine.ts).
use furima_sandbox.Prelude.{
  ℕ, ltb, refl, Option, none, some, List, [], ◌∷◌, Option-cases, Bool-cases, inl, inr,
}
use furima_sandbox.Engine.Ident.{Ident}
use furima_sandbox.Engine.Records.{MercariItem, PurchaseIntent, SandboxActor}
use furima_sandbox.Engine.State.{EngineState, EventSpec, find_item, find_transaction, next_id}
use furima_sandbox.Engine.Action.Preserves.{
  Preserves, Preserves-if, Preserves-pure, preserves_rules,
}
use furima_sandbox.Engine.Access.{AgentActionOptions, authenticate}
use furima_sandbox.Engine.Reservation.{
  Ending, by_expiry, is_unpaid, is_active, is_overdue, cancel_unpaid, free_stock, end_intent,
  release_intent, release_overdue, release_expired_purchase_intents,
}
use furima_sandbox.Engine.Opening.{push_purchase, reserve_unit}
use furima_sandbox.Engine.Purchase.{
  notify_expired, announce_expired, open_purchase, reserve_purchase, resume_or_reserve,
  start_purchase,
}
use furima_sandbox.Engine.Soundness.{
  Sound, Sound-frame, commit-Sound, add_notification-Sound, record_inventory_movement-Sound,
  update_item-Sound, set_intent-Sound, set_transaction-Sound, add_ledger-Sound,
  release_wallet_hold-Sound,
}

cancel_unpaid-Sound :
    (intent : PurchaseIntent) (ending : Ending) (s : EngineState)
    → Sound s
    → Sound (cancel_unpaid intent ending s)
unfolding cancel_unpaid
cancel_unpaid-Sound intent ending s h =
    elim (Option-cases (find_transaction s intent.transaction_id)) [
      | inl e ↦ rw (e, cancel_unpaid) h
      | inr (t, e) ↦ elim (Bool-cases (is_unpaid t.status)) [
        | inl u ↦
            rw (e, cancel_unpaid, u)
              (release_wallet_hold-Sound _ _ _ _ (set_transaction-Sound _ _ s h))
        | inr u ↦ rw (e, cancel_unpaid, u) h
      ]
    ]

free_stock-Sound :
    (intent : PurchaseIntent) (ending : Ending) (s : EngineState)
    → Sound s
    → Sound (free_stock intent ending s)
unfolding free_stock
free_stock-Sound intent ending s h = elim (Option-cases (find_item s intent.item_id)) [
  | inl e ↦ rw (e, free_stock) h
  | inr (i, e) ↦
      rw (e, free_stock) (record_inventory_movement-Sound _ _ _ _ _ _ (update_item-Sound _ _ s h))
]

pub release_intent-Sound :
    (intent : PurchaseIntent) (ending : Ending) (actor : Ident) (s : EngineState)
    → Sound s
    → Sound (release_intent intent ending actor s).1
unfolding release_intent end_intent
release_intent-Sound intent ending actor s h = elim (Bool-cases (is_active intent.status)) [
  | inl a ↦ rw a (
      free_stock-Sound intent ending _
        (cancel_unpaid-Sound intent ending _ (set_intent-Sound _ _ s h)))
  | inr a ↦ rw a h
]

release_overdue-Sound :
    (intents : List PurchaseIntent) (actor : Ident) (s : EngineState)
    → Sound s
    → Sound (release_overdue intents actor s).1
unfolding release_overdue
release_overdue-Sound [] actor s h = h
release_overdue-Sound (intent ∷ intents) actor s h = elim (Bool-cases (is_overdue s.now intent)) [
  | inl o ↦
      rw o (release_overdue-Sound intents actor _ (release_intent-Sound intent by_expiry actor s h))
  | inr o ↦ rw o (release_overdue-Sound intents actor s h)
]

pub release_expired-Sound :
    (actor : Ident) (s : EngineState) → Sound s → Sound (release_expired_purchase_intents actor s).1
unfolding release_expired_purchase_intents
release_expired-Sound actor s = release_overdue-Sound s.purchase_intents actor s

notify_expired-Sound :
    (ids : List Ident) (actor : Ident) (s : EngineState)
    → Sound s
    → Sound (notify_expired ids actor s)
unfolding notify_expired
notify_expired-Sound [] actor s h = h
notify_expired-Sound (k ∷ ids) actor s h =
    notify_expired-Sound ids actor _ (add_notification-Sound _ _ _ _ s h)

announce_expired-Sound :
    (ids : List Ident) (specs : List EventSpec) (actor : Ident) (s : EngineState)
    → Sound s
    → Sound (announce_expired ids specs actor s)
unfolding announce_expired
announce_expired-Sound ids [] actor s h = h
announce_expired-Sound ids (spec ∷ specs) actor s h =
    notify_expired-Sound ids actor _ (commit-Sound (spec ∷ specs) s h)

push_purchase-Sound :
    (item : MercariItem) (actor : SandboxActor) (total : ℕ) (s : EngineState)
    → Sound s
    → Sound (push_purchase item actor total s).1
unfolding push_purchase next_id
push_purchase-Sound item actor total s = Sound-frame s _ refl refl refl refl

reserve_unit-Sound : (item : MercariItem) (s : EngineState) → Sound s → Sound (reserve_unit item s)
unfolding reserve_unit
reserve_unit-Sound item s = update_item-Sound _ _ s

ruleset purchase_rules = (
  preserves_rules, release_expired-Sound, announce_expired-Sound, push_purchase-Sound,
  add_ledger-Sound, reserve_unit-Sound, record_inventory_movement-Sound, commit-Sound,
  add_notification-Sound,
)

open_purchase-Sound :
    (item : MercariItem) (actor : SandboxActor) (total : ℕ)
    → Preserves Sound (open_purchase item actor total)
unfolding open_purchase
open_purchase-Sound item actor total = search purchase_rules depth 20

reserve_purchase-Sound :
    (item : MercariItem) (actor : SandboxActor) (existing : Option PurchaseIntent)
    → Preserves Sound (reserve_purchase item actor existing)
unfolding reserve_purchase
reserve_purchase-Sound item actor existing = search (purchase_rules, open_purchase-Sound) depth 30

resume_or_reserve-Sound :
    (item : MercariItem) (actor : SandboxActor) (existing : Option PurchaseIntent) (now : ℕ)
    → Preserves Sound (resume_or_reserve item actor existing now)
unfolding resume_or_reserve
resume_or_reserve-Sound item actor none now = reserve_purchase-Sound item actor none
resume_or_reserve-Sound item actor (some intent) now =
    Preserves-if (ltb now intent.expires_at) _ _ (Preserves-pure _)
      (reserve_purchase-Sound item actor (some intent))

pub authenticate-Sound : (o : AgentActionOptions) → Preserves Sound (authenticate o)
unfolding authenticate
authenticate-Sound o = search preserves_rules depth 20

pub start_purchase-Sound :
    (k : Ident) (o : AgentActionOptions) → Preserves Sound (start_purchase k o)
unfolding start_purchase
start_purchase-Sound k o =
    search (preserves_rules, authenticate-Sound, resume_or_reserve-Sound) depth 40

-- ===== src/Engine/State.antt =====
-- The state of the engine (SandboxEngineState of app/domain/sandboxEngine.ts), the results of its
-- commands, and the private helpers that every command uses: ids, events, notifications,
-- inventory movements, and the lookups by id.
--
-- An object that the source finds and then mutates is looked up by its id and updated at the first
-- entry with that id, the one that `find` returned. The state leaves out what no modelled command
-- reads or writes (profiles, drafts, support tickets, uiRevision, scenarioId).
use furima_sandbox.Prelude.{
  ℕ, suc, Bool, true, false, Option, none, some, List, [], ◌∷◌, ◌++◌, map, find, any, keep,
  update_first, take, last_n, if◌then◌else◌,
}
use furima_sandbox.Text.{Text, text}
use furima_sandbox.Engine.Ident.{Ident, minted, same}
use furima_sandbox.Engine.Records.{
  Failure, AggregateType, Value, SandboxActor, MercariItem, PurchaseIntent, TransactionRecord,
  PaymentRecord, ShipmentRecord, AuctionBidRecord, ReviewRecord, ReturnCase, InventoryMovement,
  InventoryMovementType, WalletLedgerType, FollowRelation,
}

pub record LedgerEntry : Type 0 where
  pub id : Ident
  pub kind : WalletLedgerType
  pub amount : ℕ
  pub reference_id : Ident
  pub at : ℕ

pub record WalletSnapshot : Type 0 where
  pub actor_id : Ident
  pub opening_balance : ℕ
  pub available_balance : ℕ
  pub held_balance : ℕ
  pub points : ℕ
  pub ledger : List LedgerEntry

pub record EventSpec : Type 0 where
  pub kind : Text
  pub aggregate_type : AggregateType
  pub aggregate_id : Ident
  pub actor_id : Ident
  pub payload : List (Text × Value)

pub record DomainEvent : Type 0 where
  pub id : Ident
  pub spec : EventSpec
  pub at : ℕ
  pub state_version : ℕ
  pub correlation_id : Ident

pub record NotificationItem : Type 0 where
  pub id : Ident
  pub title : Text
  pub content : List Value
  pub date : ℕ
  pub is_read : Bool
  pub actor_id : Ident
  pub event_id : Option Ident

pub record EngineState : Type 0 where
  pub seed : Text
  pub now : ℕ
  pub state_version : ℕ
  pub id_counter : ℕ
  pub current_actor_id : Ident
  pub actors : List SandboxActor
  pub items : List MercariItem
  pub purchase_intents : List PurchaseIntent
  pub transactions : List TransactionRecord
  pub payments : List PaymentRecord
  pub shipments : List ShipmentRecord
  pub bids : List AuctionBidRecord
  pub reviews : List ReviewRecord
  pub returns : List ReturnCase
  pub inventory_movements : List InventoryMovement
  pub events : List DomainEvent
  pub notifications : List NotificationItem
  pub wallets : List WalletSnapshot
  pub pending_failures : List Failure
  pub follows : List FollowRelation

-- nextId
unfoldable pub next_id : Text → EngineState → Ident × EngineState
next_id prefix s =
    (minted prefix s.seed (suc s.id_counter), record s { id_counter = suc s.id_counter })

-- The map of `commit`: an id for each event, in order.
unfoldable pub stamp_events : List EventSpec → Ident → EngineState → List DomainEvent × EngineState
stamp_events [] correlation s = ([], s)
stamp_events (spec ∷ specs) correlation s =
    let (event_id, s₁) = next_id (text "event") s in
    let (events, s₂) = stamp_events specs correlation s₁ in
    (
      record {
        id = event_id;
        spec = spec;
        at = s.now;
        state_version = s.state_version;
        correlation_id = correlation;
      }
          ∷ events,
      s₂,
    )

-- commit, without the subscribers: they run in microtasks, on copies of the events.
unfoldable pub commit : List EventSpec → EngineState → List DomainEvent × EngineState
commit specs s =
    let s₁ = record s { state_version = suc s.state_version } in
    let (correlation, s₂) = next_id (text "correlation") s₁ in
    let (events, s₃) = stamp_events specs correlation s₂ in
    (events, record s₃ { events = last_n 500 (s₃.events ++ events) })

abbrev pub is_notification_failure : Failure → Bool
is_notification_failure Failure.notification = true
is_notification_failure Failure.payment = false
is_notification_failure Failure.delivery = false

abbrev pub is_payment_failure : Failure → Bool
is_payment_failure Failure.payment = true
is_payment_failure Failure.delivery = false
is_payment_failure Failure.notification = false

abbrev pub is_delivery_failure : Failure → Bool
is_delivery_failure Failure.delivery = true
is_delivery_failure Failure.payment = false
is_delivery_failure Failure.notification = false

abbrev negated : (Failure → Bool) → Failure → Bool
negated test f = if test f then false else true

-- pendingFailures.filter((failure) => failure !== …)
unfoldable pub clear_failure : (Failure → Bool) → EngineState → EngineState
clear_failure test s = record s { pending_failures = keep (negated test) s.pending_failures }

-- addNotification
unfoldable pub add_notification :
    Ident → Text → List Value → Option Ident → EngineState → EngineState
add_notification actor title content event s =
    let (notification_id, s₁) = next_id (text "notification") s in
    if any is_notification_failure s.pending_failures
    then clear_failure is_notification_failure s
    else record s₁ {
      notifications = take 200 (
          record {
            id = notification_id;
            title = title;
            content = content;
            date = s.now;
            is_read = false;
            actor_id = actor;
            event_id = event;
          }
          ∷ s.notifications);
    }

-- recordInventoryMovement
unfoldable pub record_inventory_movement :
    MercariItem → InventoryMovementType → ℕ → Text → Option Ident → EngineState → EngineState
record_inventory_movement item movement quantity reason reference s =
    let (movement_id, s₁) = next_id (text "inventory-movement") s in
    record s₁ {
      inventory_movements =
          last_n 1999 s.inventory_movements
          ++ record {
            id = movement_id;
            item_id = item.id;
            sku = item.sku;
            movement = movement;
            quantity = quantity;
            reason = reason;
            reference_id = reference;
            at = s.now;
          }
            ∷ [];
    }

-- item
unfoldable pub find_item : EngineState → Ident → Option MercariItem
find_item s k = find (λ i. same i.id k) s.items

-- updateItem: the spread of `update` over the item, for every entry with the id. `updatedAt` is
-- set last.
unfoldable pub update_item : Ident → (MercariItem → MercariItem) → EngineState → EngineState
unfolding find_item
update_item k update s = elim (find_item s k) [
  | none ↦ s
  | some target ↦ record s {
    items =
        map (λ i. if same i.id k then record (update target) { updated_at = s.now } else i) s.items;
  }
]

unfoldable pub find_actor : EngineState → Ident → Option SandboxActor
find_actor s k = find (λ a. same a.id k) s.actors

unfoldable pub find_intent : EngineState → Ident → Option PurchaseIntent
find_intent s k = find (λ i. same i.id k) s.purchase_intents

unfoldable pub find_transaction : EngineState → Ident → Option TransactionRecord
find_transaction s k = find (λ t. same t.id k) s.transactions

unfoldable pub find_payment : EngineState → Ident → Option PaymentRecord
find_payment s k = find (λ p. same p.id k) s.payments

unfoldable pub find_shipment : EngineState → Ident → Option ShipmentRecord
find_shipment s k = find (λ p. same p.id k) s.shipments

-- wallet
unfoldable pub find_wallet : EngineState → Ident → Option WalletSnapshot
find_wallet s k = find (λ w. same w.actor_id k) s.wallets

-- Assignments to the fields of the object with the id.
unfoldable pub set_intent : Ident → (PurchaseIntent → PurchaseIntent) → EngineState → EngineState
set_intent k f s = record s {
  purchase_intents = update_first (λ i. same i.id k) f s.purchase_intents;
}

unfoldable pub set_transaction :
    Ident → (TransactionRecord → TransactionRecord) → EngineState → EngineState
set_transaction k f s = record s { transactions = update_first (λ t. same t.id k) f s.transactions }

unfoldable pub set_payment : Ident → (PaymentRecord → PaymentRecord) → EngineState → EngineState
set_payment k f s = record s { payments = update_first (λ p. same p.id k) f s.payments }

unfoldable pub set_shipment : Ident → (ShipmentRecord → ShipmentRecord) → EngineState → EngineState
set_shipment k f s = record s { shipments = update_first (λ p. same p.id k) f s.shipments }

unfoldable pub set_wallet : Ident → (WalletSnapshot → WalletSnapshot) → EngineState → EngineState
set_wallet k f s = record s { wallets = update_first (λ w. same w.actor_id k) f s.wallets }

unfoldable pub set_return : Ident → (ReturnCase → ReturnCase) → EngineState → EngineState
set_return k f s = record s { returns = update_first (λ r. same r.id k) f s.returns }

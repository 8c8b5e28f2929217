-- ===== src/Engine/Soundness.antt =====
-- The invariant of the engine's state, along the private helpers: the balances of the wallets follow
-- from their ledgers, and the retention limits hold. These are checks of
-- assertInvariants (app/domain/sandboxEngine.ts).
pub mod Reservations
pub mod Payments
pub mod Pricing
pub mod Orders
pub mod Cancellations
pub mod Bids
pub mod Auctions
pub mod Follows
pub mod Runs
use furima_sandbox.Prelude.{
  ℕ, suc, ◌+◌, ◌≤◌, Bool, Option, none, some, List, [], ◌∷◌, ◌++◌, ◌≡◌, refl, arith, length,
  length-append, last_n, take, length-last_n-le, length-take-le, find, update_first, All,
  Option-cases, Bool-cases, inl, inr, any,
}
use furima_sandbox.Text.{Text, text}
use furima_sandbox.Engine.Ident.{Ident, same}
use furima_sandbox.Engine.Records.{
  MercariItem, PurchaseIntent, TransactionRecord, PaymentRecord, ShipmentRecord, ReturnCase,
  Failure, Value, InventoryMovementType, WalletLedgerType,
}
use furima_sandbox.Engine.State.{
  EngineState, DomainEvent, NotificationItem, WalletSnapshot, EventSpec, next_id, stamp_events,
  commit, clear_failure, add_notification, is_notification_failure, record_inventory_movement,
  update_item, find_item, set_intent, set_transaction, set_payment, set_shipment, set_return,
  set_wallet,
}
use furima_sandbox.Engine.Wallet.{add_ledger, release_wallet_hold}
use furima_sandbox.Engine.Wallet.Reconciled.{
  IsReconciled, Reconciled, add_ledger-Reconciled, release_cases,
}

pub record Sound (s : EngineState) : Type 0 where
  pub reconciled : Reconciled s
  pub events_kept : length s.events ≤ 500
  pub notifications_kept : length s.notifications ≤ 200
  pub movements_kept : length s.inventory_movements ≤ 2000

-- A change of other parts of the state.
pub Sound-frame :
    (s t : EngineState)
    → t.wallets ≡ s.wallets
    → t.events ≡ s.events
    → t.notifications ≡ s.notifications
    → t.inventory_movements ≡ s.inventory_movements
    → Sound s
    → Sound t
Sound-frame s t w e n m h = record {
  reconciled = rw w h.reconciled;
  events_kept = rw e h.events_kept;
  notifications_kept = rw n h.notifications_kept;
  movements_kept = rw m h.movements_kept;
}

pub next_id-Sound : (prefix : Text) (s : EngineState) → Sound s → Sound (next_id prefix s).1
unfolding next_id
next_id-Sound prefix s = Sound-frame s _ refl refl refl refl

stamp_events-Sound :
    (specs : List EventSpec) (correlation : Ident) (s : EngineState)
    → Sound s
    → Sound (stamp_events specs correlation s).1
unfolding stamp_events
stamp_events-Sound [] correlation s h = h
stamp_events-Sound (spec ∷ specs) correlation s h =
    stamp_events-Sound specs correlation _ (next_id-Sound _ s h)

with_events-Sound :
    (s : EngineState) (events : List DomainEvent)
    → length events ≤ 500
    → Sound s
    → Sound (record s { events = events })
with_events-Sound s events k h = record {
  reconciled = h.reconciled;
  events_kept = k;
  notifications_kept = h.notifications_kept;
  movements_kept = h.movements_kept;
}

pub commit-Sound : (specs : List EventSpec) (s : EngineState) → Sound s → Sound (commit specs s).1
unfolding commit
commit-Sound specs s h =
    with_events-Sound _ _ (length-last_n-le 500 _)
      (stamp_events-Sound specs _ _ (next_id-Sound _ _ (Sound-frame s _ refl refl refl refl h)))

with_notifications-Sound :
    (s : EngineState) (notifications : List NotificationItem)
    → length notifications ≤ 200
    → Sound s
    → Sound (record s { notifications = notifications })
with_notifications-Sound s notifications k h = record {
  reconciled = h.reconciled;
  events_kept = h.events_kept;
  notifications_kept = k;
  movements_kept = h.movements_kept;
}

pub clear_failure-Sound :
    (test : Failure → Bool) (s : EngineState) → Sound s → Sound (clear_failure test s)
unfolding clear_failure
clear_failure-Sound test s = Sound-frame s _ refl refl refl refl

pub add_notification-Sound :
    (actor : Ident) (title : Text) (content : List Value) (event : Option Ident) (s : EngineState)
    → Sound s
    → Sound (add_notification actor title content event s)
unfolding add_notification
add_notification-Sound actor title content event s h =
    elim (Bool-cases (any is_notification_failure s.pending_failures)) [
      | inl t ↦ rw t (clear_failure-Sound is_notification_failure s h)
      | inr t ↦ rw t (
          with_notifications-Sound _ _ (length-take-le 200 _)
            (next_id-Sound (text "notification") s h))
    ]

pub record_inventory_movement-Sound :
    (item : MercariItem) (movement : InventoryMovementType) (quantity : ℕ) (reason : Text)
    (reference : Option Ident) (s : EngineState)
    → Sound s
    → Sound (record_inventory_movement item movement quantity reason reference s)
unfolding record_inventory_movement next_id
record_inventory_movement-Sound item movement quantity reason reference s h = record {
  reconciled = h.reconciled;
  events_kept = h.events_kept;
  notifications_kept = h.notifications_kept;
  movements_kept = omega (
    arith,
    length-append (last_n 1999 s.inventory_movements) (_ ∷ []),
    length-last_n-le 1999 s.inventory_movements,
  );
}

pub update_item-Sound :
    (k : Ident) (update : MercariItem → MercariItem) (s : EngineState)
    → Sound s
    → Sound (update_item k update s)
unfolding update_item
update_item-Sound k update s h = elim (Option-cases (find_item s k)) [
  | inl e ↦ rw (e, update_item) h
  | inr (i, e) ↦ rw (e, update_item) (Sound-frame s _ refl refl refl refl h)
]

pub set_intent-Sound :
    (k : Ident) (f : PurchaseIntent → PurchaseIntent) (s : EngineState)
    → Sound s
    → Sound (set_intent k f s)
unfolding set_intent
set_intent-Sound k f s = Sound-frame s _ refl refl refl refl

pub set_transaction-Sound :
    (k : Ident) (f : TransactionRecord → TransactionRecord) (s : EngineState)
    → Sound s
    → Sound (set_transaction k f s)
unfolding set_transaction
set_transaction-Sound k f s = Sound-frame s _ refl refl refl refl

pub set_payment-Sound :
    (k : Ident) (f : PaymentRecord → PaymentRecord) (s : EngineState)
    → Sound s
    → Sound (set_payment k f s)
unfolding set_payment
set_payment-Sound k f s = Sound-frame s _ refl refl refl refl

pub set_shipment-Sound :
    (k : Ident) (f : ShipmentRecord → ShipmentRecord) (s : EngineState)
    → Sound s
    → Sound (set_shipment k f s)
unfolding set_shipment
set_shipment-Sound k f s = Sound-frame s _ refl refl refl refl

pub set_return-Sound :
    (k : Ident) (f : ReturnCase → ReturnCase) (s : EngineState) → Sound s → Sound (set_return k f s)
unfolding set_return
set_return-Sound k f s = Sound-frame s _ refl refl refl refl

-- Points are outside the ledger.
IsReconciled-points :
    (w : WalletSnapshot) (points : ℕ) → IsReconciled w → IsReconciled (record w { points = points })
IsReconciled-points w points r = record { available = r.available; held = r.held }

All-update_points :
    (test : WalletSnapshot → Bool) (f : WalletSnapshot → ℕ) (ws : List WalletSnapshot)
    → All IsReconciled ws
    → All IsReconciled (update_first test (λ w. record w { points = f w }) ws)
All-update_points test f [] h = tt
All-update_points test f (w ∷ ws) h = elim (Bool-cases (test w)) [
  | inl t ↦ rw t (IsReconciled-points w (f w) h.0, h.1)
  | inr t ↦ rw t (h.0, All-update_points test f ws h.1)
]

pub set_points-Sound :
    (k : Ident) (f : WalletSnapshot → ℕ) (s : EngineState)
    → Sound s
    → Sound (set_wallet k (λ w. record w { points = f w }) s)
unfolding set_wallet
set_points-Sound k f s h = record {
  reconciled = All-update_points _ f s.wallets h.reconciled;
  events_kept = h.events_kept;
  notifications_kept = h.notifications_kept;
  movements_kept = h.movements_kept;
}

pub add_ledger-Sound :
    (actor : Ident) (kind : WalletLedgerType) (amount : ℕ) (reference : Ident) (s : EngineState)
    → Sound s
    → Sound (add_ledger actor kind amount reference s).1
unfolding add_ledger set_wallet next_id
add_ledger-Sound actor kind amount reference s h = record {
  reconciled = add_ledger-Reconciled actor kind amount reference s h.reconciled;
  events_kept = ground (arith, h.events_kept);
  notifications_kept = ground (arith, h.notifications_kept);
  movements_kept = ground (arith, h.movements_kept);
}

pub release_wallet_hold-Sound :
    (actor : Ident) (amount : ℕ) (reference : Ident) (s : EngineState)
    → Sound s
    → Sound (release_wallet_hold actor amount reference s).1
release_wallet_hold-Sound actor amount reference s h =
    release_cases Sound actor amount reference s h
      (λ n. add_ledger-Sound actor WalletLedgerType.refund n reference s h)

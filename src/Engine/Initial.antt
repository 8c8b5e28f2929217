-- ===== src/Engine/Initial.antt =====
-- The state that the constructor makes: normalizeCatalogItem, createState and
-- createInitialInventoryMovements of app/domain/sandboxEngine.ts.
pub mod Valid
use furima_sandbox.Prelude.{
  ℕ, zero, suc, ◌+◌, ◌-◌, ◌*◌, max, Bool, true, false, Option, none, some, List, [], ◌∷◌, ◌++◌, map,
  keep, length, if◌then◌else◌, ◌==◌,
}
use furima_sandbox.Text.{Text, text}
use furima_sandbox.Engine.Ident.{Ident, literal, seed_in, seed_out}
use furima_sandbox.Engine.Records.{
  ActorRole, guest, buyer, seller, admin, platform, ListingStatus, InventoryMovementType,
  InventoryMovement, Failure, SandboxActor, MercariItem,
}
use furima_sandbox.Engine.State.{EngineState, WalletSnapshot, NotificationItem}

pub data ScenarioId : Type 0 where
  catalog_default purchase_happy_path already_sold multi_inventory auction_outbid : ScenarioId
  listing_policy_blocked zero_search_results payment_timeout delivery_delay : ScenarioId

-- An item of the catalog, with the fields that may be absent. Quantities are natural numbers.
pub record CatalogItem : Type 0 where
  pub id : Ident
  pub sku : Option Text
  pub title : Text
  pub price : ℕ
  pub shipping_included : Bool
  pub shipping_method : Text
  pub seller_id : Option Ident
  pub is_auction : Bool
  pub is_sold : Bool
  pub is_demo : Bool
  pub is_coupon_eligible : Bool
  pub current_bid : Option ℕ
  pub bids_count : ℕ
  pub inventory_initial_quantity : Option ℕ
  pub inventory_quantity : Option ℕ
  pub listing_status : Option ListingStatus
  pub auction_ends_at : Option ℕ
  pub sold_at : Option ℕ
  pub created_at : Option ℕ
  pub updated_at : Option ℕ

-- a ?? b
abbrev pub or : {A : Type 0} → Option A → A → A
or none b = b
or (some a) b = a

pub normal_quantity : CatalogItem → ℕ
normal_quantity item =
    if item.is_sold then 0 else or item.inventory_quantity (or item.inventory_initial_quantity 1)

-- normalizeCatalogItem, for items whose quantities are natural numbers, which Math.max(0, Math.floor(…))
-- leaves as they are.
unfoldable pub normalize_catalog_item : CatalogItem → ℕ → ℕ → ℕ → MercariItem
normalize_catalog_item item index total now =
    let quantity = normal_quantity item in
    let sold = quantity == 0 in
    record {
      id = item.id;
      sku = item.sku;
      title = item.title;
      price = item.price;
      shipping_included = item.shipping_included;
      shipping_method = item.shipping_method;
      seller_id = or item.seller_id (literal (text "seller_01"));
      is_auction = item.is_auction;
      is_sold = sold;
      is_coupon_eligible = item.is_coupon_eligible;
      current_bid = item.current_bid;
      bids_count = item.bids_count;
      inventory_initial_quantity = or item.inventory_initial_quantity (max quantity 1);
      inventory_quantity = quantity;
      reserved_quantity = 0;
      listing_status =
          if sold then ListingStatus.sold else or item.listing_status ListingStatus.active;
      auction_ends_at =
          if item.is_auction then some (or item.auction_ends_at (now + 86400000)) else none;
      sold_at = item.sold_at;
      updated_at = or item.updated_at (or item.created_at (now - (total - index) * 3600000));
    }

normalize_from : List CatalogItem → ℕ → ℕ → ℕ → List MercariItem
normalize_from [] index total now = []
normalize_from (item ∷ items) index total now =
    normalize_catalog_item item index total now ∷ normalize_from items (suc index) total now

actor : Text → ActorRole → Text → Bool → SandboxActor
actor k role name authenticated = record {
  id = literal k;
  role = role;
  name = name;
  authenticated = authenticated;
}

unfoldable pub initial_actors : List SandboxActor
unfolding actor
initial_actors =
    actor (text "guest") guest (text "Guest") false
    ∷ actor (text "buyer_01") buyer (text "Sandbox Buyer A") true
    ∷ actor (text "buyer_02") buyer (text "Sandbox Buyer B") true
    ∷ actor (text "seller_01") seller (text "Sandbox Seller") true
    ∷ actor (text "admin_01") admin (text "Sandbox Moderator") true
    ∷ actor (text "platform") platform (text "Sandbox Platform") true
    ∷ []

opening_for : ActorRole → ℕ → ℕ
opening_for buyer amount = amount
opening_for _ amount = 0

initial_wallet : SandboxActor → WalletSnapshot
unfolding opening_for
initial_wallet a = record {
  actor_id = a.id;
  opening_balance = opening_for a.role 200000;
  available_balance = opening_for a.role 200000;
  held_balance = 0;
  points = opening_for a.role 1000;
  ledger = [];
}

unfoldable pub initial_wallets : List WalletSnapshot
unfolding initial_wallet initial_actors
initial_wallets = map initial_wallet (keep (λ (a : SandboxActor). a.authenticated) initial_actors)

initial_movement : InventoryMovementType → Ident → Text → MercariItem → ℕ → InventoryMovement
initial_movement movement k reason item at = record {
  id = k;
  item_id = item.id;
  sku = item.sku;
  movement = movement;
  quantity = max 1 item.inventory_initial_quantity;
  reason = reason;
  reference_id = none;
  at = at;
}

in_reason : Bool → Text
in_reason true = text "デモカタログ初期インポート"
in_reason false = text "初期在庫"

-- createInitialInventoryMovements, for the catalog items beside their normal forms.
initial_movements : List CatalogItem → List MercariItem → ℕ → List InventoryMovement
unfolding initial_movement in_reason
initial_movements (c ∷ cs) (item ∷ items) at =
    let rest = initial_movements cs items at in
    initial_movement InventoryMovementType.in_ (seed_in item.id) (in_reason c.is_demo) item at
    ∷ (if item.is_sold
        then initial_movement InventoryMovementType.out (seed_out item.id) (text "初期SOLD状態") item at
          ∷ rest
        else rest)
initial_movements _ _ at = []

scenario_failures : ScenarioId → List Failure
scenario_failures payment_timeout = Failure.payment ∷ []
scenario_failures delivery_delay = Failure.delivery ∷ []
scenario_failures _ = []

-- createState
unfoldable pub create_state :
    List CatalogItem → ScenarioId → Text → ℕ → List NotificationItem → EngineState
unfolding normalize_from scenario_failures initial_movements
create_state items scenario seed now notifications =
    let normalized = normalize_from items 0 (length items) now in
    record {
      seed = seed;
      now = now;
      state_version = 0;
      id_counter = 0;
      current_actor_id = literal (text "buyer_01");
      actors = initial_actors;
      items = normalized;
      purchase_intents = [];
      transactions = [];
      payments = [];
      shipments = [];
      bids = [];
      reviews = [];
      returns = [];
      inventory_movements = initial_movements items normalized now;
      events = [];
      notifications = notifications;
      wallets = initial_wallets;
      pending_failures = scenario_failures scenario;
      follows = [];
    }

-- ===== src/Engine/Records.antt =====
-- The records and enumerations of app/types/mercari.ts that the engine's state holds. An instant
-- is its number of milliseconds, as Date.parse gives it; an optional field is an Option. The
-- catalog items of the state have gone through normalizeCatalogItem, which fills the fields that
-- are optional in the type (quantities, sellerId, listingStatus).
use furima_sandbox.Prelude.{ℕ, Bool, Option, List}
use furima_sandbox.Text.{Text}
use furima_sandbox.Engine.Ident.{Ident}

pub data ActorRole : Type 0 where
  guest buyer seller admin platform : ActorRole

pub data TransactionStatus : Type 0 where
  created payment_pending paid awaiting_shipment shipped delivered : TransactionStatus
  buyer_reviewed seller_reviewed completed cancel_requested canceled refunded : TransactionStatus

pub data PaymentStatus : Type 0 where
  initiated authorized captured failed refunded partially_refunded : PaymentStatus

pub data ShipmentStatus : Type 0 where
  pending label_ready handed_over in_transit delivered exception returning returned : ShipmentStatus

pub data ReservationStatus : Type 0 where
  active committed released expired : ReservationStatus

pub data ReturnStatus : Type 0 where
  requested approved declined in_transit received refund_completed : ReturnStatus

pub data ListingStatus : Type 0 where
  draft active held reserved sold archived : ListingStatus

pub data InventoryMovementType : Type 0 where
  in_ out adjustment reserve release : InventoryMovementType

pub data WalletLedgerType : Type 0 where
  deposit withdrawal hold capture refund post_capture_refund : WalletLedgerType
  sale sale_reversal fee fee_reversal : WalletLedgerType

pub data AggregateType : Type 0 where
  listing inventory transaction payment shipment auction moderation notification system :
      AggregateType

-- The commands can inject these failures (loadScenario, injectFailure).
pub data Failure : Type 0 where
  payment delivery notification : Failure

-- The values that the engine puts into event payloads and notification texts.
pub data Value : Type 0 where
  number : ℕ → Value
  instant : ℕ → Value
  flag : Bool → Value
  id : Ident → Value
  string : Text → Value
  status : TransactionStatus → Value
  ids : List Ident → Value
  absent : Value

pub record SandboxActor : Type 0 where
  pub id : Ident
  pub role : ActorRole
  pub name : Text
  pub authenticated : Bool

pub record MercariItem : Type 0 where
  pub id : Ident
  pub sku : Option Text
  pub title : Text
  pub price : ℕ
  pub shipping_included : Bool  -- shippingFee.includes('送料込み')
  pub shipping_method : Text
  pub seller_id : Ident
  pub is_auction : Bool
  pub is_sold : Bool
  pub is_coupon_eligible : Bool
  pub current_bid : Option ℕ
  pub bids_count : ℕ
  pub inventory_initial_quantity : ℕ
  pub inventory_quantity : ℕ
  pub reserved_quantity : ℕ
  pub listing_status : ListingStatus
  pub auction_ends_at : Option ℕ
  pub sold_at : Option ℕ
  pub updated_at : ℕ

pub record PurchaseIntent : Type 0 where
  pub id : Ident
  pub transaction_id : Ident
  pub item_id : Ident
  pub buyer_id : Ident
  pub quantity : ℕ
  pub quote : ℕ
  pub created_at : ℕ
  pub expires_at : ℕ
  pub expected_state_version : ℕ
  pub status : ReservationStatus
  pub coupon_discount : Option ℕ
  pub points_discount : Option ℕ

pub record TransactionRecord : Type 0 where
  pub id : Ident
  pub order_id : Ident
  pub item_id : Ident
  pub buyer_id : Ident
  pub seller_id : Ident
  pub title_snapshot : Text
  pub price_snapshot : ℕ
  pub shipping_cost : ℕ
  pub total : ℕ
  pub coupon_discount : Option ℕ
  pub points_used : Option ℕ
  pub status : TransactionStatus
  pub payment_id : Ident
  pub shipment_id : Ident
  pub reservation_id : Ident
  pub created_at : ℕ
  pub updated_at : ℕ
  pub paid_at : Option ℕ
  pub shipped_at : Option ℕ
  pub delivered_at : Option ℕ
  pub completed_at : Option ℕ
  pub buyer_reviewed_at : Option ℕ
  pub seller_reviewed_at : Option ℕ
  pub canceled_at : Option ℕ
  pub cancel_reason : Option Text
  pub cancel_previous_status : Option TransactionStatus

pub record PaymentRecord : Type 0 where
  pub id : Ident
  pub transaction_id : Ident
  pub method : Text
  pub amount : ℕ
  pub status : PaymentStatus
  pub created_at : ℕ
  pub updated_at : ℕ

pub record ShipmentRecord : Type 0 where
  pub id : Ident
  pub transaction_id : Ident
  pub method : Text
  pub tracking_number : Option Ident
  pub status : ShipmentStatus
  pub created_at : ℕ
  pub updated_at : ℕ

pub record AuctionBidRecord : Type 0 where
  pub id : Ident
  pub item_id : Ident
  pub bidder_id : Ident
  pub amount : ℕ
  pub created_at : ℕ

pub record ReviewRecord : Type 0 where
  pub id : Ident
  pub transaction_id : Ident
  pub reviewer_id : Ident
  pub reviewee_id : Ident
  pub rating : ℕ
  pub comment : Option Text
  pub created_at : ℕ

pub record ReturnCase : Type 0 where
  pub id : Ident
  pub transaction_id : Ident
  pub requester_id : Ident
  pub reason : Text
  pub status : ReturnStatus
  pub requested_at : ℕ
  pub decided_at : Option ℕ
  pub received_at : Option ℕ
  pub refunded_at : Option ℕ

pub record InventoryMovement : Type 0 where
  pub id : Ident
  pub item_id : Ident
  pub sku : Option Text
  pub movement : InventoryMovementType
  pub quantity : ℕ
  pub reason : Text
  pub reference_id : Option Ident
  pub at : ℕ

pub record FollowRelation : Type 0 where
  pub id : Ident
  pub follower_id : Ident
  pub followee_id : Ident
  pub created_at : ℕ

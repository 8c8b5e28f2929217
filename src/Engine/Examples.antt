-- ===== src/Engine/Examples.antt =====
-- The engine's theorems at a small sandbox, and tests of its commands.
mod Bids
mod Follows
use furima_sandbox.Prelude.{
  Bool, ℕ, ◌≤◌, All, IsRank, sort_by, insert_by, ℕ_discrete, ◌≡◌, refl, ◌⊎◌, inl, any, true, false,
  none, some, List, [], ◌∷◌, arith,
}
use furima_sandbox.Text.{Text, text, Text-discrete}
use furima_sandbox.Engine.Ident.{Ident, literal, minted, Ident-discrete}
use furima_sandbox.Engine.Records.{
  AuctionBidRecord, MercariItem, ActorRole, WalletLedgerType, SandboxActor,
}
use furima_sandbox.Engine.State.{EngineState, WalletSnapshot, find_wallet, find_actor}
use furima_sandbox.Prelude.Int.{pos, ◌+ℤ◌}
use furima_sandbox.Engine.Action.{ok, state_conflict}
use furima_sandbox.Engine.Wallet.{
  held_amount_for_reference, Amount, deposit_wallet, validate_wallet_amount,
}
use furima_sandbox.Engine.Wallet.Deposits.{deposit_wallet-IsServed}
use furima_sandbox.Engine.Access.{
  signed_in, AgentActionOptions, ExecutionPrincipal, Scope, stale_version, other_than, is_control,
  role_eq, validate_options, actor_for,
}
use furima_sandbox.Engine.Access.Principals.{validate_options-principal}
use furima_sandbox.Engine.Wallet.{
  post, held_step, held_for_reference, add_ledger, overdraws, release_amount, release_wallet_hold,
}
use furima_sandbox.Engine.Wallet.Holds.{IsReleased, release_wallet_hold-IsReleased}
use furima_sandbox.Engine.Wallet.Entries.{add_ledger-held}
use furima_sandbox.Engine.Refusals.{perform-IsTurnedAway}
use furima_sandbox.Engine.Commands.{
  perform, Command, starts_purchase, purchases, ships, marks_delivered, reviews, run,
}
use furima_sandbox.Engine.Initial.{
  normalize_catalog_item, CatalogItem, ScenarioId, create_state, initial_actors,
}
use furima_sandbox.Engine.Initial.Valid.{create_state-Sound}
use furima_sandbox.Engine.Soundness.{Sound}
use furima_sandbox.Engine.Soundness.Runs.{run-Sound}

abbrev camera_id : Ident
camera_id = literal (text "camera")

abbrev camera : CatalogItem
camera = record {
  id = camera_id;
  sku = none;
  title = text "camera";
  price = 1000;
  shipping_included = true;
  shipping_method = text "post";
  seller_id = none;
  is_auction = false;
  is_sold = false;
  is_demo = true;
  is_coupon_eligible = true;
  current_bid = none;
  bids_count = 0;
  inventory_initial_quantity = none;
  inventory_quantity = none;
  listing_status = none;
  auction_ends_at = none;
  sold_at = none;
  created_at = some 0;
  updated_at = none;
}

abbrev shop : EngineState
shop = create_state (camera ∷ []) ScenarioId.catalog_default (text "s") 1000000 []

abbrev acting_as : Text → ActorRole → AgentActionOptions
acting_as name role = record {
  expected_state_version = none;
  actor_id = none;
  target_actor_id = none;
  principal = some (record {
    actor_id = literal name;
    roles = role ∷ [];
    scopes = Scope.user ∷ [];
    trusted = true;
  });
}

abbrev as_buyer : AgentActionOptions
as_buyer = acting_as (text "buyer_01") ActorRole.buyer

abbrev as_seller : AgentActionOptions
as_seller = acting_as (text "seller_01") ActorRole.seller

-- The second id that a purchase takes.
abbrev first_transaction : Ident
first_transaction = minted (text "txn") (text "s") 2

abbrev whole_order : List (Command × AgentActionOptions)
whole_order =
    (starts_purchase camera_id, as_buyer)
    ∷ (purchases camera_id none, as_buyer)
    ∷ (ships first_transaction, as_seller)
    ∷ (marks_delivered first_transaction, as_buyer)
    ∷ (reviews first_transaction 5 (text "good"), as_buyer)
    ∷ (reviews first_transaction 5 [], as_seller)
    ∷ []

run-Sound_example : Sound (run shop whole_order)
run-Sound_example = run-Sound shop whole_order (
    create_state-Sound (camera ∷ []) ScenarioId.catalog_default (text "s") 1000000 [] (omega arith)
      (omega arith))

create_state-Sound_example : Sound shop
create_state-Sound_example =
    create_state-Sound (camera ∷ []) ScenarioId.catalog_default (text "s") 1000000 [] (omega arith)
      (omega arith)

abbrev buyer_id : Ident
buyer_id = literal (text "buyer_01")

-- A caller whose expected version is not the state's.
abbrev too_late : AgentActionOptions
too_late = record as_buyer { expected_state_version = some 99 }

perform-IsTurnedAway_example : perform (starts_purchase camera_id) too_late shop ≡ shop
unfolding validate_options create_state
perform-IsTurnedAway_example =
    perform-IsTurnedAway (starts_purchase camera_id) too_late shop (inl (state_conflict, refl))

abbrev buyer_principal : ExecutionPrincipal
buyer_principal = record {
  actor_id = literal (text "buyer_01");
  roles = ActorRole.buyer ∷ [];
  scopes = Scope.user ∷ [];
  trusted = true;
}

validate_options-principal_example :
    (stale_version none shop.state_version ≡ false)
    × (true ≡ true)
    × ((a : SandboxActor) × (actor_for as_buyer shop ≡ some a)
        × (find_actor shop buyer_id ≡ some a)
        × (any (role_eq a.role) (ActorRole.buyer ∷ []) ≡ true))
    × ((other_than none buyer_id ≡ false) ⊎ (any is_control (Scope.user ∷ []) ≡ true))
unfolding validate_options create_state initial_actors find_actor Ident-discrete Text-discrete
validate_options-principal_example =
    validate_options-principal as_buyer buyer_principal shop refl refl

abbrev order : Ident
order = literal (text "order")

-- A wallet with 500 on hold for the order.
abbrev wallet : WalletSnapshot
wallet = record {
  actor_id = buyer_id;
  opening_balance = 1000;
  available_balance = 500;
  held_balance = 500;
  points = 0;
  ledger =
      record {
        id = literal (text "ledger");
        kind = WalletLedgerType.hold;
        amount = 500;
        reference_id = order;
        at = 0;
      }
      ∷ [];
}

abbrev one_wallet : EngineState
one_wallet = record shop { wallets = wallet ∷ [] }

release_wallet_hold-IsReleased_example :
    ((release_wallet_hold buyer_id 900 order one_wallet).0 ≡ 500)
    × ((after : WalletSnapshot) × (find_wallet
            (release_wallet_hold buyer_id 900 order one_wallet).1
            buyer_id
          ≡ some after)
        × IsReleased 500 order wallet after)
unfolding find_wallet held_for_reference Ident-discrete Text-discrete
release_wallet_hold-IsReleased_example =
    release_wallet_hold-IsReleased buyer_id 900 order one_wallet wallet refl

release_amount_test : release_amount 900 order wallet ≡ 500
unfolding release_amount held_for_reference Ident-discrete Text-discrete
release_amount_test = refl

-- 200 of the hold goes back to the buyer.
abbrev given_back : Bool × EngineState
given_back = add_ledger buyer_id WalletLedgerType.refund 200 order one_wallet

add_ledger-held_example :
    (after : WalletSnapshot) × (find_wallet given_back.1 buyer_id ≡ some after)
    × (held_for_reference order after.ledger +ℤ pos wallet.held_balance
        ≡ held_for_reference order wallet.ledger +ℤ pos after.held_balance)
    × (held_for_reference camera_id after.ledger ≡ held_for_reference camera_id wallet.ledger)
unfolding add_ledger overdraws find_wallet Ident-discrete Text-discrete
add_ledger-held_example =
    add_ledger-held buyer_id WalletLedgerType.refund 200 order camera_id one_wallet wallet refl refl
      refl

abbrev buyer : SandboxActor
buyer = record {
  id = buyer_id;
  role = ActorRole.buyer;
  name = text "Sandbox Buyer A";
  authenticated = true;
}

deposit_wallet-IsServed_example :
    (t : EngineState) × (after : WalletSnapshot) × (deposit_wallet
        (Amount.whole (pos 300))
        as_buyer
        one_wallet
      ≡ (ok after, t))
    × (find_wallet t buyer_id ≡ some after)
    × (after.available_balance ≡ 800)
    × (after.held_balance ≡ 500)
unfolding signed_in validate_options actor_for create_state initial_actors find_actor find_wallet
    validate_wallet_amount Ident-discrete Text-discrete
deposit_wallet-IsServed_example =
    deposit_wallet-IsServed as_buyer (Amount.whole (pos 300)) one_wallet buyer wallet 300
      (record { valid = refl; signed = refl; found = refl; accepted = refl })

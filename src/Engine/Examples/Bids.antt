-- ===== src/Engine/Examples/Bids.antt =====
-- The theorems on bids at an item with two bids.
use furima_sandbox.Prelude.{
  ℕ, ◌≤◌, ◌⊎◌, true, All, IsRank, sort_by, insert_by, ℕ_discrete, ◌≡◌, refl, false, [], ◌∷◌,
}
use furima_sandbox.Text.{Text, text, Text-discrete}
use furima_sandbox.Engine.Ident.{same, literal, Ident-discrete}
use furima_sandbox.Engine.Records.{AuctionBidRecord, MercariItem}
use furima_sandbox.Engine.State.{EngineState}
use furima_sandbox.Engine.Initial.{normalize_catalog_item, create_state}
use furima_sandbox.Engine.Auctions.{highest_bid}
use furima_sandbox.Engine.Settlement.{Collation, ranked_bids}
use furima_sandbox.Engine.Ranking.{IsAmong, highest_bid-greatest, IsNoBetter, ranked_bids-best}
use furima_sandbox.Engine.Examples.{camera_id, camera, shop}

-- Two bids, the second the higher.
abbrev bid_of : Text → Text → ℕ → AuctionBidRecord
bid_of name bidder amount = record {
  id = literal name;
  item_id = camera_id;
  bidder_id = literal bidder;
  amount = amount;
  created_at = 1000000;
}

abbrev best_bid : AuctionBidRecord
best_bid = bid_of (text "b2") (text "buyer_01") 1500

abbrev two_bids : EngineState
two_bids = record shop {
  bids = bid_of (text "b1") (text "buyer_02") 1100 ∷ bid_of (text "b2") (text "buyer_01") 1500 ∷ [];
}

highest_bid-greatest_example :
    (same camera_id camera_id ≡ true)
    × IsAmong best_bid two_bids.bids
    × All (λ other. (same other.item_id camera_id ≡ false) ⊎ (other.amount ≤ 1500)) two_bids.bids
unfolding highest_bid sort_by insert_by create_state Ident-discrete Text-discrete ℕ_discrete
highest_bid-greatest_example = highest_bid-greatest camera_id two_bids best_bid refl

abbrev camera_item : MercariItem
camera_item = normalize_catalog_item camera 0 1 1000000

-- An order of the ids that tells none apart.
abbrev level : Collation
level a b = false

level-IsRank : IsRank level
level-IsRank = record { asym = λ x y h. refl; weak = λ x y z h k. refl }

ranked_bids-best_example :
    (same camera_id camera_id ≡ true)
    × IsAmong best_bid two_bids.bids
    × All
        (λ other. (same other.item_id camera_id ≡ false) ⊎ IsNoBetter best_bid other)
        two_bids.bids
unfolding ranked_bids sort_by insert_by create_state Ident-discrete Text-discrete ℕ_discrete
ranked_bids-best_example = ranked_bids-best level camera_id two_bids best_bid level-IsRank refl

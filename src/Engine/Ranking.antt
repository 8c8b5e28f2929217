-- ===== src/Engine/Ranking.antt =====
-- The order of bids in placeBid and settleExpiredAuction of app/domain/sandboxEngine.ts.
use furima_sandbox.Prelude.{
  ◌≤◌, ◌<◌, ◌⊎◌, ◌≡◌, refl, subst, Bool, true, false, Option, none, some, List, [], ◌∷◌, ltb, any,
  All, keep, head, sort_by, All-sort_by, head-All, inl, inr, Bool-cases, IsRank, All-map,
  head-sort_by, arith,
}
use furima_sandbox.Engine.Ident.{Ident, same}
use furima_sandbox.Engine.Records.{MercariItem, AuctionBidRecord}
use furima_sandbox.Engine.State.{EngineState, is_payment_failure}
use furima_sandbox.Engine.Action.{ActionResult, ok, error}
use furima_sandbox.Engine.Auctions.{bids_for, highest_bid}
use furima_sandbox.Engine.Settlement.{
  Collation, Candidate, drop_candidate, outranks, ranked_bids, candidate_for, can_pay,
  clear_injected,
}

abbrev above : AuctionBidRecord → AuctionBidRecord → Bool
above a b = ltb b.amount a.amount

above-IsRank : IsRank above
above-IsRank = record { asym = λ x y h. ground arith; weak = λ x y z h k. ground arith }

not_above : (x y : AuctionBidRecord) → above y x ≡ false → y.amount ≤ x.amount
not_above x y h = ground arith

-- Membership of a bid.
abbrev pub IsAmong : AuctionBidRecord → List AuctionBidRecord → Type 0
IsAmong bid [] = ⊥
IsAmong bid (b ∷ bs) = (b ≡ bid) ⊎ IsAmong bid bs

IsAmong-keep :
    (test : AuctionBidRecord → Bool) (bid : AuctionBidRecord) (bs : List AuctionBidRecord)
    → IsAmong bid (keep test bs)
    → (test bid ≡ true) × IsAmong bid bs
IsAmong-keep test bid [] m = absurd m
IsAmong-keep test bid (b ∷ bs) m = elim (Bool-cases (test b)) [
  | inl t ↦ elim (rw t at m) [
    | inl e ↦ (subst (λ z. test z ≡ true) e t, inl e)
    | inr n ↦ let (passes, among) = IsAmong-keep test bid bs n in (passes, inr among)
  ]
  | inr t ↦ let (passes, among) = IsAmong-keep test bid bs (rw t at m) in (passes, inr among)
]

-- What holds of the entries that pass holds of all, or they do not pass.
All-kept :
    (test : AuctionBidRecord → Bool) (P : AuctionBidRecord → Type 0) (bs : List AuctionBidRecord)
    → All P (keep test bs)
    → All (λ b. (test b ≡ false) ⊎ P b) bs
All-kept test P [] h = tt
All-kept test P (b ∷ bs) h = elim (Bool-cases (test b)) [
  | inl t ↦
      let (own, rest) : P b × All P (keep test bs) = (rw t at h) in
      (inr own, All-kept test P bs rest)
  | inr t ↦ (inl t, All-kept test P bs (rw t at h))
]

All-IsAmong : (bs : List AuctionBidRecord) → All (λ b. IsAmong b bs) bs
All-IsAmong [] = tt
All-IsAmong (b ∷ bs) = (
  inl refl,
  All-map (λ x. IsAmong x bs) (λ x. IsAmong x (b ∷ bs)) (λ x m. inr m) bs (All-IsAmong bs),
)

-- The first of sorted bids is one of them.
head-IsAmong :
    (before : AuctionBidRecord → AuctionBidRecord → Bool) (bid : AuctionBidRecord)
    (bs : List AuctionBidRecord)
    → head (sort_by before bs) ≡ some bid
    → IsAmong bid bs
head-IsAmong before bid bs found =
    head-All (λ b. IsAmong b bs) bid (sort_by before bs) found
      (All-sort_by before (λ b. IsAmong b bs) bs (All-IsAmong bs))

-- The bid that placeBid compares with is one of the sandbox's bids and is for the item, and no bid of
-- the sandbox for the item is higher.
pub highest_bid-greatest :
    (item_id : Ident) (s : EngineState) (bid : AuctionBidRecord)
    → highest_bid item_id s ≡ some bid
    → (same bid.item_id item_id ≡ true)
      × IsAmong bid s.bids
      × All (λ other. (same other.item_id item_id ≡ false) ⊎ (other.amount ≤ bid.amount)) s.bids
unfolding highest_bid
highest_bid-greatest item_id s bid found =
    let mine = λ (b : AuctionBidRecord). same b.item_id item_id in
    let (for_item, among) =
      IsAmong-keep mine bid s.bids (head-IsAmong above bid (bids_for item_id s) found) in
    (
      for_item,
      among,
      All-kept mine (λ other. other.amount ≤ bid.amount) s.bids
          (All-map (λ other. above other bid ≡ false) (λ other. other.amount ≤ bid.amount)
            (λ other e. not_above bid other e) (bids_for item_id s)
            (head-sort_by above above-IsRank bid (bids_for item_id s) found)),
    )

outranks-asym :
    (collates : Collation) (rank : IsRank collates) (x y : AuctionBidRecord)
    → outranks collates x y ≡ true
    → outranks collates y x ≡ false
outranks-asym collates rank x y h = let ids = rank.asym x.id y.id in ground arith

outranks-weak :
    (collates : Collation) (rank : IsRank collates) (x y z : AuctionBidRecord)
    → outranks collates y x ≡ false
    → outranks collates z y ≡ false
    → outranks collates z x ≡ false
outranks-weak collates rank x y z h k = let ids = rank.weak x.id y.id z.id in ground arith

outranks-IsRank : (collates : Collation) → IsRank collates → IsRank (outranks collates)
outranks-IsRank collates rank = record {
  asym = outranks-asym collates rank;
  weak = outranks-weak collates rank;
}

-- The other bid is lower, or as high and not earlier.
abbrev pub IsNoBetter : AuctionBidRecord → AuctionBidRecord → Type 0
IsNoBetter best other =
    (other.amount < best.amount)
    ⊎ ((other.amount ≡ best.amount) × (best.created_at ≤ other.created_at))

IsNoBetter-outranks :
    (collates : Collation) (x y : AuctionBidRecord) → outranks collates y x ≡ false → IsNoBetter x y
IsNoBetter-outranks collates x y h = ground arith

-- Where the order of the ids is one of rank, the bid that settleExpiredAuction ranks first is one of
-- the sandbox's bids and is for the item, and each other bid of the sandbox for the item is lower, or
-- as high and not earlier.
pub ranked_bids-best :
    (collates : Collation) (item_id : Ident) (s : EngineState) (bid : AuctionBidRecord)
    → IsRank collates
    → head (ranked_bids collates item_id s) ≡ some bid
    → (same bid.item_id item_id ≡ true)
      × IsAmong bid s.bids
      × All (λ other. (same other.item_id item_id ≡ false) ⊎ IsNoBetter bid other) s.bids
unfolding ranked_bids
ranked_bids-best collates item_id s bid rank first =
    let mine = λ (b : AuctionBidRecord). same b.item_id item_id in
    let (for_item, among) =
      IsAmong-keep mine bid s.bids
        (head-IsAmong (outranks collates) bid (bids_for item_id s) first) in
    (
      for_item,
      among,
      All-kept mine (IsNoBetter bid) s.bids (
          All-map (λ other. outranks collates other bid ≡ false) (IsNoBetter bid)
            (λ other e. IsNoBetter-outranks collates bid other e) (bids_for item_id s)
            (head-sort_by (outranks collates) (outranks-IsRank collates rank) bid
              (bids_for item_id s) first)),
    )

-- What the loop of settleExpiredAuction ends with: the state, and the candidate if there is one.
abbrev pub IsFit : MercariItem → List AuctionBidRecord → Candidate → EngineState → Type 0
IsFit item bids c t =
    (c ≡ candidate_for item c.bid t)
    × IsAmong c.bid bids
    × (can_pay c ≡ true)
    × (any is_payment_failure t.pending_failures ≡ false)

-- The state after a bid whose bidder is not taken.
abbrev after_drop : MercariItem → AuctionBidRecord → EngineState → EngineState
after_drop item bid s =
    drop_candidate item (candidate_for item bid s)
      (clear_injected (any is_payment_failure s.pending_failures) s)

-- The candidate of a result, or another.
abbrev chosen_or : Candidate → ActionResult (Option Candidate) → Candidate
chosen_or c (ok (some d)) = d
chosen_or c (ok none) = c
chosen_or c (error _) = c

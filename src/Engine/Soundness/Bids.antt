-- ===== src/Engine/Soundness/Bids.antt =====
-- The invariant along placeBid and the choice of the bidder of settleExpiredAuction
-- (app/domain/sandboxEngine.ts).
use furima_sandbox.Prelude.{
  ℕ, Bool, true, false, leb, ◌&&◌, not, refl, Option, none, some, List, [], ◌∷◌, Bool-cases,
  Option-cases, inl, inr,
}
use furima_sandbox.Prelude.Int.{ℤ, pos_part}
use furima_sandbox.Engine.Ident.{Ident, same}
use furima_sandbox.Engine.Records.{MercariItem, AuctionBidRecord, SandboxActor}
use furima_sandbox.Engine.State.{EngineState, next_id}
use furima_sandbox.Engine.Action.Preserves.{
  Preserves, Preserves-if, Preserves-pure, Preserves-bind, Preserves-modify, Preserves-gets,
  preserves_rules,
}
use furima_sandbox.Engine.Access.{AgentActionOptions}
use furima_sandbox.Engine.Wallet.{Amount}
use furima_sandbox.Engine.Auctions.{
  release_own, release_outbid, push_bid, notify_outbid, write_bid, place_bid,
}
use furima_sandbox.Engine.Settlement.{
  Candidate, release_candidate, drop_candidate, clear_injected, select_bidder, can_pay,
}
use furima_sandbox.Engine.Soundness.{
  Sound, Sound-frame, commit-Sound, add_notification-Sound, clear_failure-Sound, update_item-Sound,
  add_ledger-Sound, release_wallet_hold-Sound,
}
use furima_sandbox.Engine.Soundness.Reservations.{authenticate-Sound}

pub release_own-Sound :
    (actor : Ident) (existing : ℤ) (reference : Ident) (s : EngineState)
    → Sound s
    → Sound (release_own actor existing reference s)
unfolding release_own
release_own-Sound actor existing reference s h = elim (Bool-cases (leb (pos_part existing) 0)) [
  | inl t ↦ rw t h
  | inr t ↦ rw t (release_wallet_hold-Sound _ _ _ s h)
]

pub release_outbid-Sound :
    (item : MercariItem) (actor : Ident) (bid : Option AuctionBidRecord) (s : EngineState)
    → Sound s
    → Sound (release_outbid item actor bid s)
unfolding release_outbid
release_outbid-Sound item actor none s h = h
release_outbid-Sound item actor (some bid) s h = elim (Bool-cases (same bid.bidder_id actor)) [
  | inl t ↦ rw t h
  | inr t ↦ rw t (release_wallet_hold-Sound _ _ _ s h)
]

pub push_bid-Sound :
    (k bidder : Ident) (amount : ℕ) (s : EngineState) → Sound s → Sound (push_bid k bidder amount s)
unfolding push_bid next_id
push_bid-Sound k bidder amount s = Sound-frame s _ refl refl refl refl

pub notify_outbid-Sound :
    (item : MercariItem) (actor : Ident) (bid : Option AuctionBidRecord) (event : Option Ident)
    (s : EngineState)
    → Sound s
    → Sound (notify_outbid item actor bid event s)
unfolding notify_outbid
notify_outbid-Sound item actor none event s h = h
notify_outbid-Sound item actor (some bid) event s h = elim (Bool-cases (same bid.bidder_id actor)) [
  | inl t ↦ rw t h
  | inr t ↦ rw t (add_notification-Sound _ _ _ _ s h)
]

pub write_bid-Sound :
    (item : MercariItem) (actor : SandboxActor) (amount : ℕ) (existing : ℤ)
    (bid : Option AuctionBidRecord)
    → Preserves Sound (write_bid item actor amount existing bid)
unfolding write_bid
write_bid-Sound item actor amount existing bid =
    search
      (
        preserves_rules, release_own-Sound, release_outbid-Sound, push_bid-Sound, add_ledger-Sound,
        update_item-Sound, commit-Sound, notify_outbid-Sound,
      )
      depth 40

pub place_bid-Sound :
    (k : Ident) (amount : Amount) (o : AgentActionOptions) → Preserves Sound (place_bid k amount o)
unfolding place_bid
place_bid-Sound k amount o = search (preserves_rules, authenticate-Sound, write_bid-Sound) depth 60

pub release_candidate-Sound :
    (item : MercariItem) (c : Candidate) (s : EngineState)
    → Sound s
    → Sound (release_candidate item c s)
unfolding release_candidate
release_candidate-Sound item c s h = elim (Option-cases c.winner) [
  | inl e ↦ rw (e, release_candidate) h
  | inr (a, e) ↦ elim (Bool-cases (leb (pos_part c.held) 0)) [
    | inl t ↦ rw (e, release_candidate, t) h
    | inr t ↦ rw (e, release_candidate, t) (release_wallet_hold-Sound _ _ _ s h)
  ]
]

pub drop_candidate-Sound :
    (item : MercariItem) (c : Candidate) (s : EngineState)
    → Sound s
    → Sound (drop_candidate item c s)
unfolding drop_candidate
drop_candidate-Sound item c s h =
    add_notification-Sound _ _ _ _ _ (release_candidate-Sound item c s h)

pub clear_injected-Sound : (b : Bool) (s : EngineState) → Sound s → Sound (clear_injected b s)
unfolding clear_injected
clear_injected-Sound true s h = clear_failure-Sound _ s h
clear_injected-Sound false s h = h

pub select_bidder-Sound :
    (item : MercariItem) (bids : List AuctionBidRecord) → Preserves Sound (select_bidder item bids)
unfolding select_bidder
select_bidder-Sound item [] = Preserves-pure _
select_bidder-Sound item (bid ∷ bids) = Preserves-bind _ _ (Preserves-gets _) λ c.
    Preserves-bind _ _ (Preserves-gets _) λ injected.
      Preserves-bind _ _ (Preserves-modify _ (clear_injected-Sound injected)) λ _.
        Preserves-if (can_pay c && not injected) _ _ (Preserves-pure _) (
          Preserves-bind _ _ (Preserves-modify _ (drop_candidate-Sound item c))
            λ _. select_bidder-Sound item bids)

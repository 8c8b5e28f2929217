-- ===== src/Engine/Soundness/Auctions.antt =====
-- The invariant along settleExpiredAuction, closeAuction and advanceClock
-- (app/domain/sandboxEngine.ts).
use furima_sandbox.Prelude.{
  ℕ, Bool, true, false, leb, ltb, ◌+◌, not, refl, Option, none, some, List, [], ◌∷◌, Option-cases,
  inl, inr,
}
use furima_sandbox.Prelude.Int.{pos_part}
use furima_sandbox.Text.{Text}
use furima_sandbox.Engine.Ident.{Ident}
use furima_sandbox.Engine.Records.{MercariItem, AuctionBidRecord, SandboxActor}
use furima_sandbox.Engine.State.{EngineState, EventSpec, WalletSnapshot, find_intent, next_id}
use furima_sandbox.Engine.Action.{Action}
use furima_sandbox.Engine.Action.Preserves.{
  Preserves, Preserves-if, Preserves-pure, Preserves-bind, Preserves-modify, Preserves-save,
  Preserves-gets, Preserves-run_helper, preserves_rules,
}
use furima_sandbox.Engine.Access.{AgentActionOptions}
use furima_sandbox.Engine.Wallet.{Amount}
use furima_sandbox.Engine.Settlement.{
  Collation, Candidate, archive_with, archive_without_bids, archive_unpaid, SettlementIds, take_ids,
  available_of,
}
use furima_sandbox.Engine.Checkout.{seller_fee}
use furima_sandbox.Engine.Sale.{
  push_sale, after_write, write_ledger, sell_item, finish_sale, release_winner, fail_settlement,
  settle_ledger, archive_unsettled, settle_seller,
}
use furima_sandbox.Engine.Closing.{
  settle_with, settle_selected, settle_ranked, settle_found, settle_item, settle_expired_auction,
  close_auction,
}
use furima_sandbox.Engine.Clock.{settle_all, notify_buyers, advance_now, advance_clock}
use furima_sandbox.Engine.Soundness.{
  Sound, Sound-frame, commit-Sound, add_notification-Sound, record_inventory_movement-Sound,
  update_item-Sound, add_ledger-Sound, release_wallet_hold-Sound,
}
use furima_sandbox.Engine.Soundness.Reservations.{authenticate-Sound, release_expired-Sound}
use furima_sandbox.Engine.Soundness.Bids.{select_bidder-Sound}

archive_with-Sound : (k : Ident) (spec : EventSpec) → Preserves Sound (archive_with k spec)
unfolding archive_with
archive_with-Sound k spec = search (preserves_rules, update_item-Sound, commit-Sound) depth 20

archive_unpaid-Sound :
    (item : MercariItem) (bid : AuctionBidRecord) (ranked : List AuctionBidRecord)
    → Preserves Sound (archive_unpaid item bid ranked)
unfolding archive_unpaid
archive_unpaid-Sound item bid ranked = search (preserves_rules, archive_with-Sound) depth 20

archive_unsettled-Sound :
    (item : MercariItem) (c : Candidate) (winner : SandboxActor)
    → Preserves Sound (archive_unsettled item c winner)
unfolding archive_unsettled
archive_unsettled-Sound item c winner = archive_with-Sound _ _

take_ids-Sound : (s : EngineState) → Sound s → Sound (take_ids s).1
unfolding take_ids next_id
take_ids-Sound s = Sound-frame s _ refl refl refl refl

push_sale-Sound :
    (item : MercariItem) (c : Candidate) (winner : SandboxActor) (ids : SettlementIds)
    (s : EngineState)
    → Sound s
    → Sound (push_sale item c winner ids s)
unfolding push_sale
push_sale-Sound item c winner ids s = Sound-frame s _ refl refl refl refl

sell_item-Sound : (item : MercariItem) (s : EngineState) → Sound s → Sound (sell_item item s)
unfolding sell_item
sell_item-Sound item s = update_item-Sound _ _ s

after_write-Sound :
    (done : Bool) (next : Action Bool)
    → Preserves Sound next
    → Preserves Sound (after_write done next)
unfolding after_write
after_write-Sound true next h = h
after_write-Sound false next h = Preserves-pure false

write_ledger-Sound :
    (c : Candidate) (winner : SandboxActor) (seller : WalletSnapshot) (k : Ident)
    → Preserves Sound (write_ledger c winner seller k)
unfolding write_ledger
write_ledger-Sound c winner seller k = Preserves-bind _ _ (Preserves-gets _) λ wallet.
    Preserves-if (ltb (available_of wallet) c.total) _ _ (Preserves-pure _) (
      Preserves-bind _ _ (Preserves-run_helper _ (add_ledger-Sound _ _ _ _)) λ held.
        after_write-Sound held _ (
          Preserves-bind _ _ (Preserves-run_helper _ (add_ledger-Sound _ _ _ _)) λ captured.
            after_write-Sound captured _ (
              Preserves-bind _ _ (Preserves-run_helper _ (add_ledger-Sound _ _ _ _)) λ sold.
                after_write-Sound sold _ (
                  Preserves-if (leb (seller_fee c.bid.amount) 0) _ _ (Preserves-pure _)
                    (Preserves-run_helper _ (add_ledger-Sound _ _ _ _))))))

finish_sale-Sound :
    (item : MercariItem) (c : Candidate) (winner : SandboxActor) (ids : SettlementIds)
    → Preserves Sound (finish_sale item c winner ids)
unfolding finish_sale
finish_sale-Sound item c winner ids =
    search
      (
        preserves_rules, push_sale-Sound, sell_item-Sound, record_inventory_movement-Sound,
        commit-Sound, add_notification-Sound,
      )
      depth 40

release_winner-Sound :
    (item : MercariItem) (c : Candidate) (winner : SandboxActor)
    → Preserves Sound (release_winner item c winner)
unfolding release_winner
release_winner-Sound item c winner =
    Preserves-if (leb (pos_part c.held) 0) _ _ (Preserves-pure _)
      (search (preserves_rules, release_wallet_hold-Sound) depth 10)

fail_settlement-Sound :
    (saved : EngineState) (item : MercariItem) (winner : Ident) (total : ℕ) (available : Option ℕ)
    (reason : Text)
    → Sound saved
    → Preserves Sound (fail_settlement saved item winner total available reason)
unfolding fail_settlement
fail_settlement-Sound saved item winner total available reason h =
    Preserves-bind _ _ (Preserves-modify _ (λ _ _. h)) λ _. Preserves-run_helper _ (commit-Sound _)

settle_ledger-Sound :
    (saved : EngineState) (item : MercariItem) (c : Candidate) (winner : SandboxActor)
    (seller : WalletSnapshot) (ids : SettlementIds)
    → Sound saved
    → Preserves Sound (settle_ledger saved item c winner seller ids)
unfolding settle_ledger
settle_ledger-Sound saved item c winner seller ids h =
    Preserves-bind _ _ (release_winner-Sound item c winner) λ released.
      Preserves-if (not released) _ _ (fail_settlement-Sound saved item _ _ _ _ h) (
        Preserves-bind _ _ (write_ledger-Sound c winner seller _) λ written.
          Preserves-bind _ _ (Preserves-gets _) λ wallet.
            Preserves-if written _ _ (finish_sale-Sound item c winner ids)
              (fail_settlement-Sound saved item _ _ _ _ h))

settle_seller-Sound :
    (item : MercariItem) (c : Candidate) (winner : SandboxActor) (seller : Option WalletSnapshot)
    → Preserves Sound (settle_seller item c winner seller)
unfolding settle_seller
settle_seller-Sound item c winner none = archive_unsettled-Sound item c winner
settle_seller-Sound item c winner (some seller) =
    Preserves-if (ltb (seller.available_balance + c.bid.amount) (seller_fee c.bid.amount)) _ _
      (archive_unsettled-Sound item c winner)
      (Preserves-bind _ _ (Preserves-run_helper _ take_ids-Sound)
        λ ids. Preserves-save _ λ saved h. settle_ledger-Sound saved item c winner seller ids h)

settle_with-Sound :
    (item : MercariItem) (c : Candidate) (winner : Option SandboxActor)
    → Preserves Sound (settle_with item c winner)
unfolding settle_with
settle_with-Sound item c none = Preserves-pure _
settle_with-Sound item c (some winner) =
    Preserves-bind _ _ (Preserves-gets _) (settle_seller-Sound item c winner)

settle_selected-Sound :
    (item : MercariItem) (bid : AuctionBidRecord) (ranked : List AuctionBidRecord)
    (selected : Option Candidate)
    → Preserves Sound (settle_selected item bid ranked selected)
unfolding settle_selected
settle_selected-Sound item bid ranked none = archive_unpaid-Sound item bid ranked
settle_selected-Sound item bid ranked (some c) = settle_with-Sound item c c.winner

settle_ranked-Sound :
    (item : MercariItem) (bids : List AuctionBidRecord) → Preserves Sound (settle_ranked item bids)
unfolding settle_ranked archive_without_bids
settle_ranked-Sound item [] = archive_with-Sound _ _
settle_ranked-Sound item (bid ∷ bids) =
    Preserves-bind _ _ (select_bidder-Sound item (bid ∷ bids))
      (settle_selected-Sound item bid (bid ∷ bids))

settle_found-Sound :
    (collates : Collation) (item : Option MercariItem)
    → Preserves Sound (settle_found collates item)
unfolding settle_found settle_item
settle_found-Sound collates none = Preserves-pure _
settle_found-Sound collates (some item) = Preserves-bind _ _ (Preserves-gets _) λ open_.
    Preserves-bind _ _ (Preserves-gets _)
      λ ranked. Preserves-if open_ _ _ (settle_ranked-Sound item ranked) (Preserves-pure _)

settle_expired_auction-Sound :
    (collates : Collation) (k : Ident) → Preserves Sound (settle_expired_auction collates k)
unfolding settle_expired_auction
settle_expired_auction-Sound collates k =
    Preserves-bind _ _ (Preserves-gets _) (settle_found-Sound collates)

pub close_auction-Sound :
    (collates : Collation) (k : Ident) (o : AgentActionOptions)
    → Preserves Sound (close_auction collates k o)
unfolding close_auction
close_auction-Sound collates k o =
    search (preserves_rules, authenticate-Sound, settle_expired_auction-Sound) depth 60

settle_all-Sound :
    (collates : Collation) (ks : List Ident) → Preserves Sound (settle_all collates ks)
unfolding settle_all
settle_all-Sound collates [] = Preserves-pure _
settle_all-Sound collates (k ∷ ks) =
    Preserves-bind _ _ (settle_expired_auction-Sound collates k)
      λ events. Preserves-bind _ _ (settle_all-Sound collates ks) λ later. Preserves-pure _

notify_buyers-Sound :
    (ks : List Ident) (event : Option Ident) (s : EngineState)
    → Sound s
    → Sound (notify_buyers ks event s)
unfolding notify_buyers
notify_buyers-Sound [] event s h = h
notify_buyers-Sound (k ∷ ks) event s h = elim (Option-cases (find_intent s k)) [
  | inl e ↦ rw (e, notify_buyers) (notify_buyers-Sound ks event s h)
  | inr (intent, e) ↦
      rw (e, notify_buyers) (notify_buyers-Sound ks event _ (add_notification-Sound _ _ _ _ s h))
]

advance_now-Sound : (n : ℕ) (s : EngineState) → Sound s → Sound (advance_now n s)
unfolding advance_now
advance_now-Sound n s = Sound-frame s _ refl refl refl refl

pub advance_clock-Sound :
    (collates : Collation) (amount : Amount) (o : AgentActionOptions)
    → Preserves Sound (advance_clock collates amount o)
unfolding advance_clock
advance_clock-Sound collates amount o =
    search
      (
        preserves_rules, advance_now-Sound, release_expired-Sound, settle_all-Sound, commit-Sound,
        notify_buyers-Sound,
      )
      depth 60

-- ===== src/Engine/Clock.antt =====
-- The simulated clock: advanceClock of app/domain/sandboxEngine.ts.
use furima_sandbox.Prelude.{
  ℕ, ◌+◌, ◌&&◌, Option, none, some, List, [], ◌∷◌, ◌++◌, ltb, keep, map, if◌then◌else◌,
}
use furima_sandbox.Prelude.Int.{pos, negsuc}
use furima_sandbox.Text.{text}
use furima_sandbox.Engine.Ident.{Ident, literal}
use furima_sandbox.Engine.Records.{SandboxActor, AggregateType, Value, MercariItem}
use furima_sandbox.Engine.State.{
  EngineState, EventSpec, DomainEvent, commit, add_notification, find_intent,
}
use furima_sandbox.Engine.Action.{
  Action, ◌>>=◌, ◌>>◌, pure, gets, modify, run_helper, require, reject_with, invalid_input,
}
use furima_sandbox.Engine.Access.{AgentActionOptions, validate_control_options, actor_for}
use furima_sandbox.Engine.Wallet.{Amount, whole, fractional}
use furima_sandbox.Engine.Reservation.{release_expired_purchase_intents}
use furima_sandbox.Engine.Purchase.{last_id}
use furima_sandbox.Engine.Auctions.{has_ended}
use furima_sandbox.Engine.Settlement.{Collation, platform_id}
use furima_sandbox.Engine.Closing.{settle_expired_auction}

pub record ClockResult : Type 0 where
  pub now : ℕ
  pub expired_purchase_intent_ids : List Ident

-- 365 * 24 * 60 * 60 * 1000
abbrev pub max_advance : ℕ
max_advance = 31536000000

-- isInteger(milliseconds) && 0 <= milliseconds <= a year: the number, if it is acceptable.
unfoldable pub validate_milliseconds : Amount → Option ℕ
validate_milliseconds fractional = none
validate_milliseconds (whole (negsuc n)) = none
validate_milliseconds (whole (pos n)) = if ltb max_advance n then none else some n

-- this.actorFor(options)?.id ?? 'platform'
abbrev pub control_actor : Option SandboxActor → Ident
control_actor none = platform_id
control_actor (some a) = a.id

clock_event : ℕ → Ident → EngineState → EventSpec
clock_event milliseconds actor s = record {
  kind = text "CLOCK_ADVANCED";
  aggregate_type = AggregateType.system;
  aggregate_id = literal (text "sandbox-clock");
  actor_id = actor;
  payload =
      (text "milliseconds", Value.number milliseconds) ∷ (text "now", Value.instant s.now) ∷ [];
}

-- The ids of the auctions that have ended, before any of them is settled.
unfoldable pub ended_auctions : EngineState → List Ident
ended_auctions s =
    map (λ i. i.id) (keep (λ (i : MercariItem). i.is_auction && has_ended i s.now) s.items)

unfoldable pub settle_all : Collation → List Ident → Action (List DomainEvent)
settle_all collates [] = pure []
settle_all collates (k ∷ ks) = do
  events ← settle_expired_auction collates k
  later ← settle_all collates ks
  pure (events ++ later)

-- The forEach at the end of advanceClock.
unfoldable pub notify_buyers : List Ident → Option Ident → EngineState → EngineState
notify_buyers [] event s = s
notify_buyers (k ∷ ks) event s = notify_buyers ks event (elim (find_intent s k) [
  | none ↦ s
  | some intent ↦
      add_notification intent.buyer_id (text "購入予約の期限が切れました")
        (Value.string (text "在庫予約を解放しました。もう一度購入手続きを開始してください。") ∷ []) event s
])

unfoldable pub advance_now : ℕ → EngineState → EngineState
advance_now milliseconds s = record s { now = s.now + milliseconds }

-- advanceClock
unfoldable pub advance_clock : Collation → Amount → AgentActionOptions → Action ClockResult
unfolding clock_event
advance_clock collates amount o = do
  invalid ← gets (validate_control_options o)
  reject_with invalid
  milliseconds ← require (validate_milliseconds amount) invalid_input
  modify (advance_now milliseconds)
  caller ← gets (actor_for o)
  let actor = control_actor caller
  spec ← gets (clock_event milliseconds actor)
  (ids, specs) ← run_helper (release_expired_purchase_intents actor)
  auctions ← gets ended_auctions
  auction_events ← settle_all collates auctions
  events ← run_helper (commit (spec ∷ specs))
  modify (notify_buyers ids (last_id (auction_events ++ events)))
  now ← gets (λ s. s.now)
  pure (record { now = now; expired_purchase_intent_ids = ids })

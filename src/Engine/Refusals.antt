-- ===== src/Engine/Refusals.antt =====
-- Callers that the engine turns away (validateOptions and the check for a signed-in actor at the head
-- of every command of app/domain/sandboxEngine.ts).
use furima_sandbox.Prelude.{◌≡◌, inl, inr, refl, ap, Option-cases}
use furima_sandbox.Engine.Ident.{Ident}
use furima_sandbox.Engine.Records.{SandboxActor, TransactionRecord}
use furima_sandbox.Engine.State.{EngineState, WalletSnapshot, find_transaction}
use furima_sandbox.Engine.Action.{
  AgentErrorCode, error, Action, ◌>>=◌, pure, gets, reject_with, require, auth_required,
  transaction_not_found, forbidden, fail,
}
use furima_sandbox.Engine.Access.{AgentActionOptions, validate_options, authenticate}
use furima_sandbox.Engine.Access.Principals.{IsTurnedAway, validate_control_options-invalid}
use furima_sandbox.Engine.Auctions.{place_bid}
use furima_sandbox.Engine.Settlement.{Collation}
use furima_sandbox.Engine.Closing.{close_auction}
use furima_sandbox.Engine.Follows.{follow_actor, follow_user, unfollow_user}
use furima_sandbox.Engine.Clock.{advance_clock}
use furima_sandbox.Engine.Wallet.{
  Amount, wallet_for_authenticated_actor, deposit_wallet, withdraw_wallet,
}
use furima_sandbox.Engine.Purchase.{start_purchase}
use furima_sandbox.Engine.Checkout.{confirm_purchase, purchase_item_with_pricing}
use furima_sandbox.Engine.Orders.{open_order, ship_order, mark_delivered}
use furima_sandbox.Engine.Review.{review_order}
use furima_sandbox.Engine.Cancellation.{cancel_order}
use furima_sandbox.Engine.Resolution.{resolve_cancellation}
use furima_sandbox.Engine.Returns.{request_return, confirm_return_received}
use furima_sandbox.Engine.Commands.{
  Command, deposits, withdraws, starts_purchase, confirms_purchase, purchases, ships,
  marks_delivered, reviews, cancels, resolves, requests_return, receives_return, bids,
  closes_auction, advances_clock, follows, unfollows, perform,
}

-- An action that fails at once and leaves the state as it was.
pub record Refuses {A : Type 0} (act : Action A) (s : EngineState) : Type 0 where
  pub code : AgentErrorCode
  pub result : act s ≡ (error code, s)

Refuses-bind :
    {A B : Type 0} (act : Action A) (rest : A → Action B) (s : EngineState)
    → Refuses act s
    → Refuses (act >>= rest) s
unfolding ◌>>=◌
Refuses-bind act rest s r = record { code = r.code; result = rw r.result refl }

authenticate-Refuses :
    (o : AgentActionOptions) (s : EngineState) → IsTurnedAway o s → Refuses (authenticate o) s
unfolding authenticate ◌>>=◌ gets reject_with require pure fail
authenticate-Refuses o s (inl (e, invalid)) = record { code = e; result = rw invalid refl }
authenticate-Refuses o s (inr absent) = elim (Option-cases (validate_options o s)) [
  | inl valid ↦ record { code = auth_required; result = rw (valid, absent) refl }
  | inr (e, invalid) ↦ record { code = e; result = rw invalid refl }
]

open_order-Refuses :
    (k : Ident) (o : AgentActionOptions) (s : EngineState)
    → IsTurnedAway o s
    → Refuses (open_order k o) s
unfolding open_order ◌>>=◌ gets reject_with require pure fail
open_order-Refuses k o s (inl (e, invalid)) = record { code = e; result = rw invalid refl }
open_order-Refuses k o s (inr absent) = elim (Option-cases (validate_options o s)) [
  | inl valid ↦ elim (Option-cases (find_transaction s k)) [
    | inl missing ↦ record { code = transaction_not_found; result = rw (valid, missing) refl }
    | inr (t, found) ↦ record { code = auth_required; result = rw (valid, found, absent) refl }
  ]
  | inr (e, invalid) ↦ record { code = e; result = rw invalid refl }
]

confirm_return_received-Refuses :
    (k : Ident) (o : AgentActionOptions) (s : EngineState)
    → IsTurnedAway o s
    → Refuses (confirm_return_received k o) s
unfolding confirm_return_received ◌>>=◌ gets reject_with require pure fail
confirm_return_received-Refuses k o s (inl (e, invalid)) = record {
  code = e;
  result = rw invalid refl;
}
confirm_return_received-Refuses k o s (inr absent) = elim (Option-cases (validate_options o s)) [
  | inl valid ↦ record { code = forbidden; result = rw (valid, absent) refl }
  | inr (e, invalid) ↦ record { code = e; result = rw invalid refl }
]

advance_clock-Refuses :
    (collates : Collation) (amount : Amount) (o : AgentActionOptions) (s : EngineState)
    → IsTurnedAway o s
    → Refuses (advance_clock collates amount o) s
unfolding advance_clock ◌>>=◌ gets reject_with fail
advance_clock-Refuses collates amount o s h =
    let (e, invalid) = validate_control_options-invalid o s h in
    record { code = e; result = rw invalid refl }

by_authenticate :
    {A : Type 0} (o : AgentActionOptions) (rest : SandboxActor → Action A) (s : EngineState)
    → IsTurnedAway o s
    → (((authenticate o >>= rest) s).1 ≡ s)
by_authenticate o rest s h =
    ap (λ x. x.1) (Refuses-bind (authenticate o) rest s (authenticate-Refuses o s h)).result

by_open_order :
    {A : Type 0} (k : Ident) (o : AgentActionOptions)
    (rest : SandboxActor × TransactionRecord → Action A) (s : EngineState)
    → IsTurnedAway o s
    → (((open_order k o >>= rest) s).1 ≡ s)
by_open_order k o rest s h =
    ap (λ x. x.1) (Refuses-bind (open_order k o) rest s (open_order-Refuses k o s h)).result

by_wallet :
    {A : Type 0} (o : AgentActionOptions) (rest : SandboxActor × WalletSnapshot → Action A)
    (s : EngineState)
    → IsTurnedAway o s
    → (((wallet_for_authenticated_actor o >>= rest) s).1 ≡ s)
unfolding wallet_for_authenticated_actor
by_wallet o rest s h =
    ap (λ x. x.1)
      (Refuses-bind (wallet_for_authenticated_actor o) rest s
        (Refuses-bind (authenticate o) _ s (authenticate-Refuses o s h))).result

by_follow_actor :
    {A : Type 0} (o : AgentActionOptions) (rest : SandboxActor → Action A) (s : EngineState)
    → IsTurnedAway o s
    → (((follow_actor o >>= rest) s).1 ≡ s)
unfolding follow_actor
by_follow_actor o rest s h =
    ap (λ x. x.1)
      (Refuses-bind (follow_actor o) rest s
        (Refuses-bind (authenticate o) _ s (authenticate-Refuses o s h))).result

-- A caller that does not pass the checks changes nothing, whatever the command: this covers every
-- stale expected version.
pub perform-IsTurnedAway :
    (c : Command) (o : AgentActionOptions) (s : EngineState) → IsTurnedAway o s → perform c o s ≡ s
unfolding perform deposit_wallet withdraw_wallet start_purchase confirm_purchase
    purchase_item_with_pricing ship_order mark_delivered review_order cancel_order
    resolve_cancellation request_return place_bid close_auction follow_user unfollow_user
perform-IsTurnedAway (deposits amount) o s h = by_wallet o _ s h
perform-IsTurnedAway (withdraws amount) o s h = by_wallet o _ s h
perform-IsTurnedAway (starts_purchase k) o s h = by_authenticate o _ s h
perform-IsTurnedAway (confirms_purchase k) o s h = by_authenticate o _ s h
perform-IsTurnedAway (purchases k pricing) o s h = by_authenticate o _ s h
perform-IsTurnedAway (ships k) o s h = by_open_order k o _ s h
perform-IsTurnedAway (marks_delivered k) o s h = by_open_order k o _ s h
perform-IsTurnedAway (reviews k rating comment) o s h = by_open_order k o _ s h
perform-IsTurnedAway (cancels k reason) o s h = by_open_order k o _ s h
perform-IsTurnedAway (resolves k approve) o s h = by_authenticate o _ s h
perform-IsTurnedAway (requests_return k reason) o s h = by_open_order k o _ s h
perform-IsTurnedAway (receives_return k) o s h =
    ap (λ x. x.1) (confirm_return_received-Refuses k o s h).result
perform-IsTurnedAway (bids k amount) o s h = by_authenticate o _ s h
perform-IsTurnedAway (closes_auction collates k) o s h = by_authenticate o _ s h
perform-IsTurnedAway (advances_clock collates amount) o s h =
    ap (λ x. x.1) (advance_clock-Refuses collates amount o s h).result
perform-IsTurnedAway (follows k) o s h = by_follow_actor o _ s h
perform-IsTurnedAway (unfollows k) o s h = by_follow_actor o _ s h

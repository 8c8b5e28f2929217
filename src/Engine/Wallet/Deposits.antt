-- ===== src/Engine/Wallet/Deposits.antt =====
-- What depositWallet (app/domain/sandboxEngine.ts) does for a caller that passes its checks.
use furima_sandbox.Prelude.{
  find, ℕ, ◌+◌, false, ◌≡◌, refl, ap, ◌∙◌, List, [], ◌∷◌, none, some, arith, ◌==◌,
}
use furima_sandbox.Text.{text}
use furima_sandbox.Engine.Ident.{Ident, same}
use furima_sandbox.Engine.Records.{deposit, SandboxActor}
use furima_sandbox.Engine.State.{
  WalletSnapshot, EngineState, EventSpec, next_id, stamp_events, commit, find_wallet, set_wallet,
}
use furima_sandbox.Engine.Action.{ok, ◌>>=◌, gets, require, reject_with, pure, fail, run_helper}
use furima_sandbox.Engine.Access.{
  AgentActionOptions, validate_options, actor_for, signed_in, authenticate,
}
use furima_sandbox.Engine.Wallet.{
  Amount, overdraws, post, apply_entry, add_ledger, validate_wallet_amount,
  wallet_for_authenticated_actor, deposit_wallet, current_wallet, wallet_event,
}
use furima_sandbox.Engine.Wallet.Holds.{add_ledger-posted, find-update_first, find-holds}

stamp_events-wallets :
    (specs : List EventSpec) (correlation : Ident) (s : EngineState)
    → (stamp_events specs correlation s).1.wallets ≡ s.wallets
unfolding stamp_events next_id
stamp_events-wallets [] correlation s = refl
stamp_events-wallets (spec ∷ specs) correlation s =
    stamp_events-wallets specs correlation (next_id (text "event") s).1

commit-wallets : (specs : List EventSpec) (s : EngineState) → (commit specs s).1.wallets ≡ s.wallets
unfolding commit next_id
commit-wallets specs s = stamp_events-wallets specs _ _

-- A caller that passes the checks, has a wallet and gives an acceptable amount.
pub record IsServed (o : AgentActionOptions) (amount : Amount) (s : EngineState)
    (actor : SandboxActor) (wallet : WalletSnapshot) (value : ℕ) : Type 0 where
  pub valid : validate_options o s ≡ none
  pub signed : signed_in (actor_for o s) ≡ some actor
  pub found : find_wallet s actor.id ≡ some wallet
  pub accepted : validate_wallet_amount amount ≡ some value

-- The state after the ledger entry and the event of a deposit.
deposited : SandboxActor → ℕ → EngineState → EngineState
deposited actor value s =
    let (key, s₁) = next_id (text "wallet-deposit") s in
    (commit (wallet_event (text "WALLET_DEPOSITED") actor value ∷ [])
      (add_ledger actor.id deposit value key s₁).1).1

deposit_wallet-result :
    (o : AgentActionOptions) (amount : Amount) (s : EngineState) (actor : SandboxActor)
    (wallet : WalletSnapshot) (value : ℕ)
    → IsServed o amount s actor wallet value
    → deposit_wallet amount o s
      ≡ (ok (current_wallet actor wallet (deposited actor value s)), deposited actor value s)
unfolding deposit_wallet wallet_for_authenticated_actor authenticate deposited ◌>>=◌ gets require
    reject_with pure fail run_helper
deposit_wallet-result o amount s actor wallet value h =
    rw (h.valid, h.signed, h.found, h.accepted) refl

acceptable :
    (amount : Amount) (value : ℕ) (w : WalletSnapshot)
    → validate_wallet_amount amount ≡ some value
    → ((value == 0) ≡ false) × (overdraws deposit value w ≡ false)
unfolding validate_wallet_amount overdraws
acceptable amount value w e = ground arith

deposited-find_wallet :
    (actor : SandboxActor) (value : ℕ) (s : EngineState) (w : WalletSnapshot)
    → find_wallet s actor.id ≡ some w
    → (value == 0) ≡ false
    → overdraws deposit value w ≡ false
    → (after : WalletSnapshot) × (find_wallet (deposited actor value s) actor.id ≡ some after)
      × (after.available_balance ≡ w.available_balance + value)
      × (after.held_balance ≡ w.held_balance)
unfolding deposited find_wallet next_id set_wallet post apply_entry
deposited-find_wallet actor value s w e nonzero covered =
    let key = (next_id (text "wallet-deposit") s).0 in
    let s₁ = (next_id (text "wallet-deposit") s).1 in
    let posted = add_ledger-posted actor.id deposit value key s₁ w e nonzero covered in
    let same_wallets =
      commit-wallets (wallet_event (text "WALLET_DEPOSITED") actor value ∷ [])
        (add_ledger actor.id deposit value key s₁).1 in
    (
      _,
      ap (find (λ v. same v.actor_id actor.id)) (same_wallets ∙ ap (λ x. x.1.wallets) posted)
          ∙ find-update_first (λ v. same v.actor_id actor.id) _ s.wallets w e
              (find-holds (λ v. same v.actor_id actor.id) s.wallets w e),
      refl,
      refl,
    )

-- A caller that is served by depositWallet gets back its wallet, which is the one that the state then
-- holds, with exactly the amount more available and as much on hold as before.
pub deposit_wallet-IsServed :
    (o : AgentActionOptions) (amount : Amount) (s : EngineState) (actor : SandboxActor)
    (wallet : WalletSnapshot) (value : ℕ)
    → IsServed o amount s actor wallet value
    → (t : EngineState) × (after : WalletSnapshot) × (deposit_wallet amount o s ≡ (ok after, t))
      × (find_wallet t actor.id ≡ some after)
      × (after.available_balance ≡ wallet.available_balance + value)
      × (after.held_balance ≡ wallet.held_balance)
unfolding current_wallet
deposit_wallet-IsServed o amount s actor wallet value h =
    let (nonzero, covered) = acceptable amount value wallet h.accepted in
    let (after, found, available, held) =
      deposited-find_wallet actor value s wallet h.found nonzero covered in
    (
      deposited actor value s,
      after,
      deposit_wallet-result o amount s actor wallet value h ∙ rw (found, current_wallet) refl,
      found,
      available,
      held,
    )

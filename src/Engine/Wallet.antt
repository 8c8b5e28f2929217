-- ===== src/Engine/Wallet.antt =====
-- Wallets and their ledger: addLedger, releaseWalletHold, heldAmountForReference, and the commands
-- getWallet, depositWallet and withdrawWallet of app/domain/sandboxEngine.ts.
--
-- Balances are natural numbers: addLedger refuses whatever would take one below zero, so the two
-- comparisons with zero are written without the subtraction.
pub mod Reconciled
pub mod Holds
pub mod Entries
pub mod Deposits
use furima_sandbox.Prelude.{
  ℕ, ◌+◌, ◌-◌, min, Bool, true, false, ◌||◌, Option, none, some, List, [], ◌∷◌, ◌++◌, ltb, ◌==◌,
  keep, if◌then◌else◌,
}
use furima_sandbox.Prelude.Int.{ℤ, pos, negsuc, pos_part, ◌+ℤ◌, ◌-ℤ◌}
use furima_sandbox.Text.{Text, text}
use furima_sandbox.Engine.Ident.{Ident, wallet_of, same}
use furima_sandbox.Engine.Records.{
  WalletLedgerType, deposit, withdrawal, hold, capture, refund, post_capture_refund, sale,
  sale_reversal, fee, fee_reversal, SandboxActor, Value, AggregateType,
}
use furima_sandbox.Engine.State.{
  LedgerEntry, WalletSnapshot, EngineState, EventSpec, next_id, commit, find_wallet, set_wallet,
}
use furima_sandbox.Engine.Action.{
  Action, ◌>>=◌, ◌>>◌, pure, gets, run_helper, reject_if, require, wallet_not_found, invalid_amount,
  insufficient_funds,
}
use furima_sandbox.Engine.Access.{AgentActionOptions, authenticate}

-- A number that a caller hands in: an integer, or anything else.
pub data Amount : Type 0 where
  whole : ℤ → Amount
  fractional : Amount

-- The types that add to the available balance in `nextAvailable`. A refund also adds to it, and is
-- not listed there.
abbrev pub adds_available : WalletLedgerType → Bool
adds_available deposit = true
adds_available sale = true
adds_available fee_reversal = true
adds_available post_capture_refund = true
adds_available _ = false

abbrev pub takes_available : WalletLedgerType → Bool
takes_available withdrawal = true
takes_available hold = true
takes_available fee = true
takes_available sale_reversal = true
takes_available _ = false

abbrev pub takes_held : WalletLedgerType → Bool
takes_held capture = true
takes_held refund = true
takes_held _ = false

abbrev pub amount_if : Bool → ℕ → ℕ
amount_if b amount = if b then amount else 0

-- nextAvailable < 0 || nextHeld < 0
unfoldable pub overdraws : WalletLedgerType → ℕ → WalletSnapshot → Bool
overdraws kind amount w =
    ltb (w.available_balance + amount_if (adds_available kind) amount)
      (amount_if (takes_available kind) amount)
    || ltb (w.held_balance + amount_if (is_hold kind) amount) (amount_if (takes_held kind) amount)
  where
    is_hold : WalletLedgerType → Bool
    is_hold hold = true
    is_hold _ = false

-- The if chain at the end of addLedger.
unfoldable pub apply_entry : WalletLedgerType → ℕ → WalletSnapshot → WalletSnapshot
apply_entry deposit amount w = record w { available_balance = w.available_balance + amount }
apply_entry withdrawal amount w = record w { available_balance = w.available_balance - amount }
apply_entry hold amount w = record w {
  available_balance = w.available_balance - amount;
  held_balance = w.held_balance + amount;
}
apply_entry capture amount w = record w { held_balance = w.held_balance - amount }
apply_entry refund amount w = record w {
  held_balance = w.held_balance - amount;
  available_balance = w.available_balance + amount;
}
apply_entry post_capture_refund amount w = record w {
  available_balance = w.available_balance + amount;
}
apply_entry sale amount w = record w { available_balance = w.available_balance + amount }
apply_entry sale_reversal amount w = record w { available_balance = w.available_balance - amount }
apply_entry fee amount w = record w { available_balance = w.available_balance - amount }
apply_entry fee_reversal amount w = record w { available_balance = w.available_balance + amount }

-- wallet.ledger = [...wallet.ledger, entry], then the balances.
unfoldable pub post : WalletLedgerType → ℕ → Ident → Ident → ℕ → WalletSnapshot → WalletSnapshot
post kind amount reference entry_id at w = apply_entry kind amount (record w {
  ledger =
      w.ledger
      ++ record { id = entry_id; kind = kind; amount = amount; reference_id = reference; at = at }
        ∷ [];
})

-- addLedger
unfoldable pub add_ledger : Ident → WalletLedgerType → ℕ → Ident → EngineState → Bool × EngineState
add_ledger actor kind amount reference s =
    let (entry_id, s₁) = next_id (text "ledger") s in
    elim (find_wallet s actor) [
      | none ↦ (false, s)
      | some w ↦
          if amount == 0 || overdraws kind amount w
          then (false, s)
          else (true, set_wallet actor (post kind amount reference entry_id s.now) s₁)
    ]

-- One step of the `reduce` over the ledger entries of a reference.
abbrev pub held_step : WalletLedgerType → ℕ → ℤ → ℤ
held_step hold amount balance = balance +ℤ pos amount
held_step capture amount balance = balance -ℤ pos amount
held_step refund amount balance = balance -ℤ pos amount
held_step _ amount balance = balance

unfoldable pub held_from : ℤ → List LedgerEntry → ℤ
held_from balance [] = balance
held_from balance (e ∷ es) = held_from (held_step e.kind e.amount balance) es

-- The entries with the reference, summed up: a hold counts up, a capture or refund down.
unfoldable pub held_for_reference : Ident → List LedgerEntry → ℤ
unfolding held_from ◌+ℤ◌ ◌-ℤ◌
held_for_reference reference entries =
    held_from (pos 0) (keep (λ e. same e.reference_id reference) entries)

-- heldAmountForReference
unfoldable pub held_amount_for_reference : Ident → Ident → EngineState → ℤ
held_amount_for_reference actor reference s = elim (find_wallet s actor) [
  | none ↦ pos 0
  | some w ↦ held_for_reference reference w.ledger
]

unfoldable pub release_amount : ℕ → Ident → WalletSnapshot → ℕ
release_amount amount reference w =
    min (min amount (pos_part (held_for_reference reference w.ledger))) w.held_balance

-- releaseWalletHold
unfoldable pub release_wallet_hold : Ident → ℕ → Ident → EngineState → ℕ × EngineState
release_wallet_hold actor amount reference s = elim (find_wallet s actor) [
  | none ↦ (0, s)
  | some w ↦
      let released = release_amount amount reference w in
      let (posted, s₁) = add_ledger actor refund released reference s in
      if amount == 0 || released == 0 then (0, s) else if posted then (released, s₁) else (0, s)
]

abbrev pub min_wallet_amount : ℕ
min_wallet_amount = 1

abbrev pub max_wallet_amount : ℕ
max_wallet_amount = 1000000

-- validateWalletAmount: the amount, if it is acceptable.
unfoldable pub validate_wallet_amount : Amount → Option ℕ
validate_wallet_amount fractional = none
validate_wallet_amount (whole (negsuc n)) = none
validate_wallet_amount (whole (pos n)) =
    if ltb n min_wallet_amount || ltb max_wallet_amount n then none else some n

-- walletForAuthenticatedActor
unfoldable pub wallet_for_authenticated_actor :
    AgentActionOptions → Action (SandboxActor × WalletSnapshot)
wallet_for_authenticated_actor o = do
  actor ← authenticate o
  found ← gets (λ s. find_wallet s actor.id)
  wallet ← require found wallet_not_found
  pure (actor, wallet)

-- getWallet
unfoldable pub get_wallet : AgentActionOptions → Action WalletSnapshot
get_wallet o = do (actor, wallet) ← wallet_for_authenticated_actor o; pure wallet

wallet_event : Text → SandboxActor → ℕ → EventSpec
wallet_event kind actor amount = record {
  kind = kind;
  aggregate_type = AggregateType.system;
  aggregate_id = wallet_of actor.id;
  actor_id = actor.id;
  payload = (text "amount", Value.number amount) ∷ [];
}

-- The wallet object after the command's writes.
current_wallet : SandboxActor → WalletSnapshot → EngineState → WalletSnapshot
current_wallet actor before s = elim (find_wallet s actor.id) [ none ↦ before | some w ↦ w ]

-- depositWallet
unfoldable pub deposit_wallet : Amount → AgentActionOptions → Action WalletSnapshot
unfolding wallet_event current_wallet
deposit_wallet amount o = do
  (actor, wallet) ← wallet_for_authenticated_actor o
  value ← require (validate_wallet_amount amount) invalid_amount
  reference ← run_helper (next_id (text "wallet-deposit"))
  run_helper (add_ledger actor.id deposit value reference)
  run_helper (commit (wallet_event (text "WALLET_DEPOSITED") actor value ∷ []))
  gets (current_wallet actor wallet)

-- withdrawWallet
unfoldable pub withdraw_wallet : Amount → AgentActionOptions → Action WalletSnapshot
unfolding wallet_event current_wallet
withdraw_wallet amount o = do
  (actor, wallet) ← wallet_for_authenticated_actor o
  value ← require (validate_wallet_amount amount) invalid_amount
  reject_if (ltb wallet.available_balance value) insufficient_funds
  reference ← run_helper (next_id (text "wallet-withdrawal"))
  run_helper (add_ledger actor.id withdrawal value reference)
  run_helper (commit (wallet_event (text "WALLET_WITHDRAWN") actor value ∷ []))
  gets (current_wallet actor wallet)

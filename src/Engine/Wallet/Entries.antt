-- ===== src/Engine/Wallet/Entries.antt =====
-- The entries of addLedger and the amounts on hold (app/domain/sandboxEngine.ts): the held balance
-- that addLedger keeps up to date, and the sum over the ledger that heldAmountForReference takes.
use furima_sandbox.Prelude.{ℕ, ◌≡◌, refl, ap, ◌∙◌, true, false, some, ◌==◌, arith, if◌then◌else◌}
use furima_sandbox.Prelude.Int.{ℤ, pos, ◌+ℤ◌, ◌-ℤ◌}
use furima_sandbox.Text.{text}
use furima_sandbox.Engine.Ident.{Ident, same, same_refl}
use furima_sandbox.Engine.Records.{WalletLedgerType}
use furima_sandbox.Engine.State.{WalletSnapshot, EngineState, find_wallet, set_wallet, next_id}
use furima_sandbox.Engine.Wallet.{
  post, apply_entry, overdraws, add_ledger, held_step, held_for_reference,
}
use furima_sandbox.Engine.Wallet.Holds.{
  held_for_reference-post, find-update_first, find-holds, add_ledger-posted,
}

-- What an entry does to the held balance, it does to what is held for its reference.
held_step-balance :
    (kind : WalletLedgerType) (amount : ℕ) (reference k : Ident) (at : ℕ) (w : WalletSnapshot)
    (held : ℤ)
    → overdraws kind amount w ≡ false
    → held_step kind amount held +ℤ pos w.held_balance
      ≡ held +ℤ pos (post kind amount reference k at w).held_balance
unfolding post apply_entry overdraws ◌+ℤ◌ ◌-ℤ◌
held_step-balance WalletLedgerType.deposit amount reference k at w held covered = refl
held_step-balance WalletLedgerType.withdrawal amount reference k at w held covered = refl
held_step-balance WalletLedgerType.hold amount reference k at w held covered = ground arith
held_step-balance WalletLedgerType.capture amount reference k at w held covered = ground arith
held_step-balance WalletLedgerType.refund amount reference k at w held covered = ground arith
held_step-balance WalletLedgerType.post_capture_refund amount reference k at w held covered = refl
held_step-balance WalletLedgerType.sale amount reference k at w held covered = refl
held_step-balance WalletLedgerType.sale_reversal amount reference k at w held covered = refl
held_step-balance WalletLedgerType.fee amount reference k at w held covered = refl
held_step-balance WalletLedgerType.fee_reversal amount reference k at w held covered = refl

post-actor :
    (kind : WalletLedgerType) (amount : ℕ) (reference k : Ident) (at : ℕ) (w : WalletSnapshot)
    → (post kind amount reference k at w).actor_id ≡ w.actor_id
unfolding post apply_entry
post-actor kind amount reference k at w = ground arith

-- An accepted entry has an amount and overdraws nothing.
add_ledger-accepts :
    (actor : Ident) (kind : WalletLedgerType) (amount : ℕ) (reference : Ident) (s : EngineState)
    (w : WalletSnapshot)
    → find_wallet s actor ≡ some w
    → (add_ledger actor kind amount reference s).0 ≡ true
    → ((amount == 0) ≡ false) × (overdraws kind amount w ≡ false)
unfolding add_ledger
add_ledger-accepts actor kind amount reference s w found accepted = ground arith

-- When addLedger accepts an entry for a wallet, what is held for the entry's reference changes by
-- exactly as much as the wallet's held balance, and what is held for another reference stays.
pub add_ledger-held :
    (actor : Ident) (kind : WalletLedgerType) (amount : ℕ) (reference other : Ident)
    (s : EngineState) (w : WalletSnapshot)
    → find_wallet s actor ≡ some w
    → (add_ledger actor kind amount reference s).0 ≡ true
    → same reference other ≡ false
    → (after : WalletSnapshot) × (find_wallet (add_ledger actor kind amount reference s).1 actor
        ≡ some after)
      × (held_for_reference reference after.ledger +ℤ pos w.held_balance
          ≡ held_for_reference reference w.ledger +ℤ pos after.held_balance)
      × (held_for_reference other after.ledger ≡ held_for_reference other w.ledger)
unfolding next_id set_wallet find_wallet
add_ledger-held actor kind amount reference other s w found accepted apart =
    let (nonzero, covered) = add_ledger-accepts actor kind amount reference s w found accepted in
    let k = (next_id (text "ledger") s).0 in
    let mine = find-holds (λ v. same v.actor_id actor) s.wallets w found in
    rw (add_ledger-posted actor kind amount reference s w found nonzero covered) (
      post kind amount reference k s.now w,
      find-update_first (λ v. same v.actor_id actor) _ s.wallets w found
          (ap (λ a. same a actor) (post-actor kind amount reference k s.now w) ∙ mine),
      ap (λ h. h +ℤ pos w.held_balance)
            (held_for_reference-post kind amount reference k s.now w reference ∙ own_step)
          ∙ held_step-balance kind amount reference k s.now w
              (held_for_reference reference w.ledger) covered,
      held_for_reference-post kind amount reference k s.now w other ∙ other_step,
    )
  where
    own_step :
        (if same reference reference
          then held_step kind amount (held_for_reference reference w.ledger)
          else held_for_reference reference w.ledger)
        ≡ held_step kind amount (held_for_reference reference w.ledger)
    own_step = rw (same_refl reference) refl

    other_step :
        (if same reference other
          then held_step kind amount (held_for_reference other w.ledger)
          else held_for_reference other w.ledger)
        ≡ held_for_reference other w.ledger
    other_step = rw apart refl

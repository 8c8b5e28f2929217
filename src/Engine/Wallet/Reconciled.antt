-- ===== src/Engine/Wallet/Reconciled.antt =====
-- The replay of a wallet's ledger, as assertInvariants (app/domain/sandboxEngine.ts) checks it of
-- every wallet, and addLedger.
use furima_sandbox.Prelude.{
  ℕ, ◌+◌, Bool, false, ◌||◌, ◌≡◌, inl, inr, sym, subst, List, [], ◌∷◌, ◌++◌, some, arith, ◌==◌, All,
  find, update_first, Bool-cases, Option-cases,
}
use furima_sandbox.Engine.Ident.{Ident, same}
use furima_sandbox.Engine.Records.{WalletLedgerType, hold, refund}
use furima_sandbox.Engine.State.{
  LedgerEntry, WalletSnapshot, EngineState, next_id, find_wallet, set_wallet,
}
use furima_sandbox.Engine.Wallet.{
  adds_available, takes_available, takes_held, amount_if, overdraws, apply_entry, post, add_ledger,
  release_amount, release_wallet_hold,
}

-- What an entry adds to and takes from the available balance, in the replay of assertInvariants.
abbrev pub credit : WalletLedgerType → ℕ → ℕ
credit refund amount = amount
credit kind amount = amount_if (adds_available kind) amount

abbrev pub debit : WalletLedgerType → ℕ → ℕ
debit kind amount = amount_if (takes_available kind) amount

abbrev pub placed : WalletLedgerType → ℕ → ℕ
placed hold amount = amount
placed _ amount = 0

abbrev pub ended : WalletLedgerType → ℕ → ℕ
ended kind amount = amount_if (takes_held kind) amount

unfoldable pub total_of : (WalletLedgerType → ℕ → ℕ) → List LedgerEntry → ℕ
total_of f [] = 0
total_of f (e ∷ es) = f e.kind e.amount + total_of f es

pub total_of-append :
    (f : WalletLedgerType → ℕ → ℕ) (xs : List LedgerEntry) (e : LedgerEntry)
    → total_of f (xs ++ e ∷ []) ≡ total_of f xs + f e.kind e.amount
unfolding total_of
total_of-append f [] e = omega arith
total_of-append f (x ∷ xs) e = omega (arith, total_of-append f xs e)

pub record IsReconciled (w : WalletSnapshot) : Type 0 where
  pub available :
      w.available_balance + total_of debit w.ledger ≡ w.opening_balance + total_of credit w.ledger
  pub held : w.held_balance + total_of ended w.ledger ≡ total_of placed w.ledger

abbrev pub Reconciled : EngineState → Type 0
Reconciled s = All IsReconciled s.wallets

post-IsReconciled :
    (kind : WalletLedgerType) (amount : ℕ) (reference entry_id : Ident) (at : ℕ)
    (w : WalletSnapshot)
    → IsReconciled w
    → overdraws kind amount w ≡ false
    → IsReconciled (post kind amount reference entry_id at w)
unfolding overdraws post apply_entry
post-IsReconciled kind amount reference entry_id at w r h =
    let entry : LedgerEntry = record {
      id = entry_id;
      kind = kind;
      amount = amount;
      reference_id = reference;
      at = at;
    } in
    ground (
      arith,
      total_of-append debit w.ledger entry,
      total_of-append credit w.ledger entry,
      total_of-append ended w.ledger entry,
      total_of-append placed w.ledger entry,
    )

-- The update of the entry that `find` returns.
pub All-update_first {ℓ κ} :
    {A : Type ℓ} (P : A → Type κ) (test : A → Bool) (f : A → A) (xs : List A) (x : A)
    → find test xs ≡ some x
    → (P x → P (f x))
    → All P xs
    → All P (update_first test f xs)
All-update_first P test f [] x e k h = tt
All-update_first P test f (y ∷ ys) x e k h = elim (Bool-cases (test y)) [
  | inl t ↦
      let hit : y ≡ x = ground arith in
      rw t (subst (λ z. P (f z)) (sym hit) (k (subst P hit h.0)), h.1)
  | inr t ↦ rw t (h.0, All-update_first P test f ys x (rw t at e) k h.1)
]

pub add_ledger-Reconciled :
    (actor : Ident) (kind : WalletLedgerType) (amount : ℕ) (reference : Ident) (s : EngineState)
    → Reconciled s
    → Reconciled (add_ledger actor kind amount reference s).1
unfolding add_ledger next_id set_wallet
add_ledger-Reconciled actor kind amount reference s h = elim (Option-cases (find_wallet s actor)) [
  | inl e ↦ rw (e, add_ledger) h
  | inr (w, e) ↦ elim (Bool-cases (amount == 0 || overdraws kind amount w)) [
    | inl t ↦ rw (e, add_ledger, t) h
    | inr t ↦
        rw (e, add_ledger, t)
          (All-update_first IsReconciled (λ v. same v.actor_id actor) _ s.wallets w
            (unfold find_wallet in e)
            (λ r. post-IsReconciled kind amount reference _ s.now w r (ground arith)) h)
  ]
]

-- releaseWalletHold posts one refund, or changes nothing.
pub release_cases :
    (P : EngineState → Type 0) (actor : Ident) (amount : ℕ) (reference : Ident) (s : EngineState)
    → P s
    → ((released : ℕ) → P (add_ledger actor refund released reference s).1)
    → P (release_wallet_hold actor amount reference s).1
unfolding release_wallet_hold
release_cases P actor amount reference s h k = elim (Option-cases (find_wallet s actor)) [
  | inl e ↦ rw (e, release_wallet_hold) h
  | inr (w, e) ↦
      let refunded : P (add_ledger actor refund (release_amount amount reference w) reference s).1 =
        k _ in
      rw (e, release_wallet_hold) (ground (arith, refunded))
]

-- ===== src/Engine/Wallet/Holds.antt =====
-- The holds of a wallet, reference by reference: what an entry does to the amount held for a reference
-- (heldAmountForReference), and what releaseWalletHold gives back (app/domain/sandboxEngine.ts).
use mathlib.Core.List.{append-nil}
use furima_sandbox.Prelude.{
  ℕ, ◌+◌, ◌≤◌, min, Bool, true, false, ◌≡◌, inl, inr, refl, sym, ap, ◌∙◌, subst, List, [], ◌∷◌,
  ◌++◌, some, arith, ◌==◌, find, keep, update_first, Bool-cases, if◌then◌else◌,
}
use furima_sandbox.Prelude.Int.{ℤ, pos, pos_part, ◌-ℤ◌}
use furima_sandbox.Text.{text}
use furima_sandbox.Engine.Ident.{Ident, same, same_refl}
use furima_sandbox.Engine.Records.{
  WalletLedgerType, deposit, withdrawal, hold, capture, refund, post_capture_refund, sale,
  sale_reversal, fee, fee_reversal,
}
use furima_sandbox.Engine.State.{
  LedgerEntry, WalletSnapshot, EngineState, next_id, find_wallet, set_wallet,
}
use furima_sandbox.Engine.Wallet.{
  overdraws, post, apply_entry, add_ledger, held_step, held_from, held_for_reference,
  release_amount, release_wallet_hold,
}

held_from-append :
    (balance : ℤ) (es : List LedgerEntry) (e : LedgerEntry)
    → held_from balance (es ++ e ∷ []) ≡ held_step e.kind e.amount (held_from balance es)
unfolding held_from
held_from-append balance [] e = refl
held_from-append balance (x ∷ es) e = held_from-append (held_step x.kind x.amount balance) es e

keep-append {ℓ} :
    {A : Type ℓ} (test : A → Bool) (xs : List A) (x : A)
    → keep test (xs ++ x ∷ []) ≡ keep test xs ++ (if test x then x ∷ [] else [])
keep-append test [] x = refl
keep-append test (y ∷ xs) x = elim (Bool-cases (test y)) [
  | inl t ↦ rw (t, keep-append test xs x) refl
  | inr t ↦ rw (t, keep-append test xs x) refl
]

-- The entry that a post writes.
abbrev pub entry_of : WalletLedgerType → ℕ → Ident → Ident → ℕ → LedgerEntry
entry_of kind amount reference entry_id at = record {
  id = entry_id;
  kind = kind;
  amount = amount;
  reference_id = reference;
  at = at;
}

post-ledger :
    (kind : WalletLedgerType) (amount : ℕ) (reference entry_id : Ident) (at : ℕ)
    (w : WalletSnapshot)
    → (post kind amount reference entry_id at w).ledger
      ≡ w.ledger ++ entry_of kind amount reference entry_id at ∷ []
unfolding post apply_entry
post-ledger deposit amount reference entry_id at w = refl
post-ledger withdrawal amount reference entry_id at w = refl
post-ledger hold amount reference entry_id at w = refl
post-ledger capture amount reference entry_id at w = refl
post-ledger refund amount reference entry_id at w = refl
post-ledger post_capture_refund amount reference entry_id at w = refl
post-ledger sale amount reference entry_id at w = refl
post-ledger sale_reversal amount reference entry_id at w = refl
post-ledger fee amount reference entry_id at w = refl
post-ledger fee_reversal amount reference entry_id at w = refl

-- An entry changes what is held for its own reference by its step, and for no other reference.
pub held_for_reference-post :
    (kind : WalletLedgerType) (amount : ℕ) (reference entry_id : Ident) (at : ℕ)
    (w : WalletSnapshot) (k : Ident)
    → held_for_reference k (post kind amount reference entry_id at w).ledger ≡ (
        if same reference k
        then held_step kind amount (held_for_reference k w.ledger)
        else held_for_reference k w.ledger)
unfolding held_for_reference
held_for_reference-post kind amount reference entry_id at w k =
    let entry = entry_of kind amount reference entry_id at in
    let kept = keep-append (λ e. same e.reference_id k) w.ledger entry in
    rw (post-ledger kind amount reference entry_id at w) (elim (Bool-cases (same reference k)) [
      | inl t ↦
          rw (kept, t) (held_from-append (pos 0) (keep (λ e. same e.reference_id k) w.ledger) entry)
      | inr t ↦
          rw (kept, t)
            (ap (held_from (pos 0)) (append-nil (keep (λ e. same e.reference_id k) w.ledger)))
    ])

-- The entry that `find` returns, after its update.
pub find-update_first {ℓ} :
    {A : Type ℓ} (test : A → Bool) (f : A → A) (xs : List A) (x : A)
    → find test xs ≡ some x
    → test (f x) ≡ true
    → find test (update_first test f xs) ≡ some (f x)
find-update_first test f [] x e k = absurd (ground arith)
find-update_first test f (y ∷ ys) x e k = elim (Bool-cases (test y)) [
  | inl t ↦
      let hit : y ≡ x = ground arith in
      let kept : test (f y) ≡ true = subst (λ z. test (f z) ≡ true) (sym hit) k in
      rw (t, kept) (ap (λ z. some (f z)) hit)
  | inr t ↦ rw (t, t) (find-update_first test f ys x (rw t at e) k)
]

pub find-holds {ℓ} :
    {A : Type ℓ} (test : A → Bool) (xs : List A) (x : A) → find test xs ≡ some x → test x ≡ true
find-holds test [] x e = absurd (ground arith)
find-holds test (y ∷ ys) x e = elim (Bool-cases (test y)) [
  | inl t ↦ let hit : y ≡ x = ground arith in subst (λ z. test z ≡ true) hit t
  | inr t ↦ find-holds test ys x (rw t at e)
]

refund-fits :
    (amount : ℕ) (w : WalletSnapshot) → amount ≤ w.held_balance → overdraws refund amount w ≡ false
unfolding overdraws
refund-fits amount w fits = ground arith

-- What a wallet is after `amount` has come back from its hold for the reference.
pub record IsReleased (amount : ℕ) (reference : Ident) (before after : WalletSnapshot)
    : Type 0 where
  pub available : after.available_balance ≡ before.available_balance + amount
  pub held : after.held_balance + amount ≡ before.held_balance
  pub for_reference :
      held_for_reference reference after.ledger
      ≡ held_for_reference reference before.ledger -ℤ pos amount

post-IsReleased :
    (amount : ℕ) (reference entry_id : Ident) (at : ℕ) (w : WalletSnapshot)
    → amount ≤ w.held_balance
    → IsReleased amount reference w (post refund amount reference entry_id at w)
unfolding post apply_entry
post-IsReleased amount reference entry_id at w fits = record {
  available = balances.0;
  held = balances.1;
  for_reference =
      held_for_reference-post refund amount reference entry_id at w reference
      ∙ rw (same_refl reference) refl;
}
  where
    balances :
        ((post refund amount reference entry_id at w).available_balance
          ≡ w.available_balance + amount)
        × ((post refund amount reference entry_id at w).held_balance + amount ≡ w.held_balance)
    balances = ground arith

pub add_ledger-posted :
    (actor : Ident) (kind : WalletLedgerType) (amount : ℕ) (reference : Ident) (s : EngineState)
    (w : WalletSnapshot)
    → find_wallet s actor ≡ some w
    → (amount == 0) ≡ false
    → overdraws kind amount w ≡ false
    → add_ledger actor kind amount reference s ≡ (
      true,
      set_wallet actor
          (post kind amount reference (next_id (text "ledger") s).0 s.now)
          (next_id (text "ledger") s).1,
    )
unfolding add_ledger
add_ledger-posted actor kind amount reference s w e nonzero covered =
    rw (e, add_ledger, nonzero, covered) refl

-- The wallet that a release leaves behind.
released_wallet :
    (actor : Ident) (amount : ℕ) (reference : Ident) (s : EngineState) (w : WalletSnapshot)
    → find_wallet s actor ≡ some w
    → (amount == 0) ≡ false
    → amount ≤ w.held_balance
    → ((add_ledger actor refund amount reference s).0 ≡ true)
      × (find_wallet (add_ledger actor refund amount reference s).1 actor
          ≡ some (post refund amount reference (next_id (text "ledger") s).0 s.now w))
unfolding next_id set_wallet find_wallet post apply_entry
released_wallet actor amount reference s w e nonzero fits =
    rw (add_ledger-posted actor refund amount reference s w e nonzero (refund-fits amount w fits)) (
      refl,
      find-update_first (λ v. same v.actor_id actor) _ s.wallets w e
          (find-holds (λ v. same v.actor_id actor) s.wallets w e),
    )

release_amount-le :
    (amount : ℕ) (reference : Ident) (w : WalletSnapshot)
    → (release_amount amount reference w ≤ w.held_balance)
      × (release_amount amount reference w ≤ amount)
unfolding release_amount
release_amount-le amount reference w = omega arith

nothing-IsReleased :
    (amount : ℕ) (reference : Ident) (w : WalletSnapshot)
    → amount ≡ 0
    → IsReleased amount reference w w
unfolding ◌-ℤ◌
nothing-IsReleased amount reference w z = rw z (record {
  available = omega arith;
  held = omega arith;
  for_reference = sym (-ℤ-zero (held_for_reference reference w.ledger));
})
  where
    -ℤ-zero : (a : ℤ) → a -ℤ pos 0 ≡ a
    -ℤ-zero a = ground arith

release_wallet_hold-idle :
    (actor : Ident) (amount : ℕ) (reference : Ident) (s : EngineState) (w : WalletSnapshot)
    → find_wallet s actor ≡ some w
    → (release_amount amount reference w == 0) ≡ true
    → release_wallet_hold actor amount reference s ≡ (0, s)
unfolding release_wallet_hold
release_wallet_hold-idle actor amount reference s w e z = elim (Bool-cases (amount == 0)) [
  | inl t ↦ rw (e, release_wallet_hold, t) refl
  | inr f ↦ rw (e, release_wallet_hold, f, z) refl
]

release_wallet_hold-posted :
    (actor : Ident) (amount : ℕ) (reference : Ident) (s : EngineState) (w : WalletSnapshot)
    → find_wallet s actor ≡ some w
    → (amount == 0) ≡ false
    → (release_amount amount reference w == 0) ≡ false
    → (add_ledger actor refund (release_amount amount reference w) reference s).0 ≡ true
    → release_wallet_hold actor amount reference s ≡ (
      release_amount amount reference w,
      (add_ledger actor refund (release_amount amount reference w) reference s).1,
    )
unfolding release_wallet_hold
release_wallet_hold-posted actor amount reference s w e a n posted =
    rw (e, release_wallet_hold, a, n, posted) refl

-- For a wallet that exists, releasing a hold returns the least of the amount asked for, what is still
-- held for the reference and the held balance, and moves exactly that from held to available and off
-- the reference.
pub release_wallet_hold-IsReleased :
    (actor : Ident) (amount : ℕ) (reference : Ident) (s : EngineState) (w : WalletSnapshot)
    → find_wallet s actor ≡ some w
    → let least =
        min (min amount (pos_part (held_for_reference reference w.ledger))) w.held_balance in
      ((release_wallet_hold actor amount reference s).0 ≡ least)
      × ((after : WalletSnapshot) × (find_wallet
              (release_wallet_hold actor amount reference s).1
              actor
            ≡ some after)
          × IsReleased least reference w after)
unfolding release_amount
release_wallet_hold-IsReleased actor amount reference s w e =
    let r = release_amount amount reference w in
    let (in_hold, asked) = release_amount-le amount reference w in
    elim (Bool-cases (r == 0)) [
      | inl z ↦
          let zero : r ≡ 0 = ground arith in
          rw (release_wallet_hold-idle actor amount reference s w e z)
            (sym zero, (w, e, nothing-IsReleased r reference w zero))
      | inr nonzero ↦
          let some_asked : (amount == 0) ≡ false = ground arith in
          let (posted, found) = released_wallet actor r reference s w e nonzero in_hold in
          rw (release_wallet_hold-posted actor amount reference s w e some_asked nonzero posted)
            (refl, (_, found, post-IsReleased r reference _ _ w in_hold))
    ]

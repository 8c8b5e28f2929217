-- ===== src/Engine/Review.antt =====
-- The reviews that complete an order: reviewOrder of app/domain/sandboxEngine.ts.
use furima_sandbox.Prelude.{
  ℕ, ◌+◌, Bool, true, false, not, ◌&&◌, ◌||◌, Option, none, some, List, [], ◌∷◌, ◌++◌, length, ltb,
  ◌==◌, if◌then◌else◌,
}
use furima_sandbox.Prelude.Int.{pos, ltb_ℤ}
use furima_sandbox.Text.{Text, text, trim, is_empty, unsafe_contact_text}
use furima_sandbox.Engine.Ident.{Ident, same}
use furima_sandbox.Engine.Records.{
  TransactionStatus, Value, WalletLedgerType, SandboxActor, TransactionRecord,
}
use furima_sandbox.Engine.State.{
  EngineState, EventSpec, next_id, commit, add_notification, find_wallet, set_transaction,
}
use furima_sandbox.Engine.Action.{
  Action, ◌>>=◌, ◌>>◌, pure, gets, modify, run_helper, reject_if, forbidden, invalid_transition,
  invalid_input, invalid_state, invalid_amount, policy_blocked,
}
use furima_sandbox.Engine.Access.{AgentActionOptions}
use furima_sandbox.Engine.Wallet.{add_ledger, held_amount_for_reference}
use furima_sandbox.Engine.Purchase.{first_id}
use furima_sandbox.Engine.Checkout.{seller_fee}
use furima_sandbox.Engine.Orders.{
  OrderResult, open_order, transaction_event, is_delivered, is_buyer_reviewed,
}

abbrev pub is_set : {A : Type 0} → Option A → Bool
is_set none = false
is_set (some a) = true

-- A wallet is missing, the hold is smaller than the total, or the fee cannot be paid.
unfoldable pub cannot_settle : TransactionRecord → EngineState → Bool
cannot_settle t s = elim (find_wallet s t.buyer_id) [
  | none ↦ true
  | some _ ↦ elim (find_wallet s t.seller_id) [
    | none ↦ true
    | some seller ↦
        ltb_ℤ (held_amount_for_reference t.buyer_id t.id s) (pos t.total)
        || ltb (seller.available_balance + t.price_snapshot) (seller_fee t.price_snapshot)
  ]
]

-- The review and the status of the review of one side.
unfoldable pub push_review :
    TransactionRecord → SandboxActor → Bool → ℕ → Text → EngineState → EngineState
push_review t actor by_buyer rating comment s =
    let (review_id, s₁) = next_id (text "review") s in
    set_transaction t.id
      (λ u.
        if by_buyer
        then record u { buyer_reviewed_at = some s.now; status = TransactionStatus.buyer_reviewed }
        else record u {
          seller_reviewed_at = some s.now;
          status = TransactionStatus.seller_reviewed;
        })
      (record s₁ {
        reviews =
            s.reviews
            ++ record {
              id = review_id;
              transaction_id = t.id;
              reviewer_id = actor.id;
              reviewee_id = if by_buyer then t.seller_id else t.buyer_id;
              rating = rating;
              comment = if is_empty comment then none else some comment;
              created_at = s.now;
            }
              ∷ [];
      })

unfoldable pub mark_completed : TransactionRecord → EngineState → EngineState
mark_completed t s =
    set_transaction t.id
      (λ u. record u { status = TransactionStatus.completed; completed_at = some s.now }) s

-- The settlement when both sides have reviewed: the capture, the sale and the fee.
unfoldable pub settle : TransactionRecord → Action (Unit {0})
settle t = do
  modify (mark_completed t)
  captured ← run_helper (add_ledger t.buyer_id WalletLedgerType.capture t.total t.id)
  reject_if (not captured) invalid_state
  sold ← run_helper (add_ledger t.seller_id WalletLedgerType.sale t.price_snapshot t.id)
  reject_if (not sold) invalid_state
  if seller_fee t.price_snapshot == 0 then pure tt else do
    paid ←
        run_helper (add_ledger t.seller_id WalletLedgerType.fee (seller_fee t.price_snapshot) t.id)
    reject_if (not paid) invalid_state

review_event : Bool → TransactionRecord → SandboxActor → ℕ → EventSpec
review_event by_buyer t actor rating =
    transaction_event (if by_buyer then text "BUYER_REVIEWED" else text "SELLER_REVIEWED") t.id
      actor.id ((text "rating", Value.number rating) ∷ [])

completion_events : Bool → TransactionRecord → SandboxActor → List EventSpec
completion_events completes t actor =
    if completes
    then transaction_event (text "TRANSACTION_COMPLETED") t.id actor.id
        ((text "sellerId", Value.id t.seller_id) ∷ [])
      ∷ []
    else []

abbrev pub status_after_review : Bool → Bool → TransactionStatus
status_after_review true by_buyer = TransactionStatus.completed
status_after_review false true = TransactionStatus.buyer_reviewed
status_after_review false false = TransactionStatus.seller_reviewed

-- reviewOrder from the check of the settlement on. `completes` is willComplete: whether the other
-- side has reviewed.
unfoldable pub write_review :
    TransactionRecord → SandboxActor → Bool → Bool → ℕ → Text → Action OrderResult
unfolding review_event completion_events
write_review t actor by_buyer completes rating comment = do
  short ← gets (cannot_settle t)
  reject_if (completes && short) invalid_state
  modify (push_review t actor by_buyer rating comment)
  if completes then settle t else pure tt
  modify (λ s. set_transaction t.id (λ u. record u { updated_at = s.now }) s)
  events ←
      run_helper
        (commit (review_event by_buyer t actor rating ∷ completion_events completes t actor))
  modify (
      add_notification (if by_buyer then t.seller_id else t.buyer_id) (text "取引評価が届きました")
        (Value.string t.title_snapshot ∷ Value.string (text "の評価が登録されました。") ∷ []) (first_id events))
  pure (record { transaction_id = t.id; status = status_after_review completes by_buyer })

-- reviewOrder, for a rating that is a natural number; any other is refused like zero.
unfoldable pub review_order : Ident → ℕ → Text → AgentActionOptions → Action OrderResult
review_order transaction_id rating comment o = do
  (actor, t) ← open_order transaction_id o
  reject_if (ltb rating 1 || ltb 5 rating) invalid_amount
  let body = trim comment
  reject_if (ltb 500 (length body)) invalid_input
  reject_if (unsafe_contact_text body) policy_blocked
  let by_buyer = same actor.id t.buyer_id
  let by_seller = same actor.id t.seller_id
  reject_if (not by_buyer && not by_seller) forbidden
  reject_if (by_buyer && not (is_delivered t.status)) invalid_transition
  reject_if (by_seller && not (is_buyer_reviewed t.status)) invalid_transition
  reject_if (by_buyer && is_set t.buyer_reviewed_at) invalid_transition
  reject_if (by_seller && is_set t.seller_reviewed_at) invalid_transition
  let completes =
      (by_buyer && is_set t.seller_reviewed_at) || (by_seller && is_set t.buyer_reviewed_at)
  write_review t actor by_buyer completes rating body

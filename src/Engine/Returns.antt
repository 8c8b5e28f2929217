-- ===== src/Engine/Returns.antt =====
-- Returning an item: requestReturn and confirmReturnReceived of app/domain/sandboxEngine.ts.
use furima_sandbox.Prelude.{
  ◌+◌, ◌-◌, Bool, true, false, not, ◌&&◌, ◌||◌, Option, none, some, [], ◌∷◌, ◌++◌, find, any,
  length, ltb, ◌==◌, if◌then◌else◌,
}
use furima_sandbox.Text.{Text, text, trim, is_empty, unsafe_contact_text}
use furima_sandbox.Engine.Ident.{Ident, literal, same}
use furima_sandbox.Engine.Records.{
  ActorRole, TransactionStatus, PaymentStatus, ShipmentStatus, ReturnStatus, WalletLedgerType,
  Value, SandboxActor, TransactionRecord, PaymentRecord, ShipmentRecord, MercariItem, ReturnCase,
}
use furima_sandbox.Engine.State.{
  EngineState, WalletSnapshot, next_id, commit, add_notification, find_item, find_transaction,
  find_payment, find_shipment, find_wallet, set_transaction, set_payment, set_shipment, set_wallet,
  set_return,
}
use furima_sandbox.Engine.Action.{
  Action, ◌>>=◌, ◌>>◌, pure, gets, modify, run_helper, reject_if, reject_with, require, forbidden,
  invalid_transition, invalid_input, invalid_state, transaction_not_found,
}
use furima_sandbox.Engine.Access.{
  AgentActionOptions, validate_options, actor_for, signed_in, is_operator,
}
use furima_sandbox.Engine.Wallet.{add_ledger, release_wallet_hold}
use furima_sandbox.Engine.Purchase.{first_id}
use furima_sandbox.Engine.Review.{is_set}
use furima_sandbox.Engine.Checkout.{points_of, seller_fee}
use furima_sandbox.Engine.Orders.{open_order, transaction_event}
use furima_sandbox.Engine.Resolution.{restore_stock}

pub record ReturnResult : Type 0 where
  pub return_case_id : Ident
  pub status : ReturnStatus

-- ['DELIVERED', 'COMPLETED'].includes(status)
abbrev pub can_be_returned : TransactionStatus → Bool
can_be_returned TransactionStatus.delivered = true
can_be_returned TransactionStatus.completed = true
can_be_returned _ = false

-- A return case that is neither declined nor paid back.
abbrev pub is_open_case : ReturnStatus → Bool
is_open_case ReturnStatus.declined = false
is_open_case ReturnStatus.refund_completed = false
is_open_case _ = true

unfoldable pub has_open_return : Ident → EngineState → Bool
has_open_return transaction_id s =
    any (λ r. same r.transaction_id transaction_id && is_open_case r.status) s.returns

unfoldable pub push_return :
    TransactionRecord → SandboxActor → Text → EngineState → Ident × EngineState
push_return t actor reason s =
    let (case_id, s₁) = next_id (text "return") s in
    (
      case_id,
      set_transaction t.id
          (λ u. record u {
            cancel_previous_status = some t.status;
            status = TransactionStatus.cancel_requested;
            cancel_reason = some reason;
            canceled_at = some s.now;
            updated_at = s.now;
          })
          (record s₁ {
            returns =
                s.returns
                ++ record {
                  id = case_id;
                  transaction_id = t.id;
                  requester_id = actor.id;
                  reason = reason;
                  status = ReturnStatus.requested;
                  requested_at = s.now;
                  decided_at = none;
                  received_at = none;
                  refunded_at = none;
                }
                  ∷ [];
          }),
    )

-- requestReturn
unfoldable pub request_return : Ident → Text → AgentActionOptions → Action ReturnResult
request_return transaction_id reason o = do
  (actor, t) ← open_order transaction_id o
  reject_if (not (same actor.id t.buyer_id)) forbidden
  reject_if (not (can_be_returned t.status)) invalid_transition
  let body = trim reason
  reject_if (is_empty body || ltb 500 (length body) || unsafe_contact_text body) invalid_input
  pending ← gets (has_open_return transaction_id)
  reject_if pending invalid_transition
  case_id ← run_helper (push_return t actor body)
  events ← run_helper (
      commit (
        transaction_event (text "RETURN_REQUESTED") transaction_id actor.id
          ((text "returnCaseId", Value.id case_id) ∷ (text "reason", Value.string body) ∷ [])
        ∷ []))
  modify (
      add_notification t.seller_id (text "返品申請が届きました")
        (Value.string t.title_snapshot ∷ Value.string (text "の返品申請を運営が確認します。") ∷ [])
        (first_id events))
  modify (
      add_notification (literal (text "admin_01")) (text "返品申請を審査してください")
        (Value.string t.title_snapshot ∷ Value.string (text "の返品申請が作成されました。") ∷ [])
        (first_id events))
  pure (record { return_case_id = case_id; status = ReturnStatus.requested })

abbrev pub is_moving : ReturnStatus → Bool
is_moving ReturnStatus.in_transit = true
is_moving _ = false

abbrev pub is_paid_back : ReturnStatus → Bool
is_paid_back ReturnStatus.refund_completed = true
is_paid_back _ = false

unfoldable pub return_with : (ReturnStatus → Bool) → Ident → EngineState → Option ReturnCase
return_with test transaction_id s =
    find (λ r. same r.transaction_id transaction_id && test r.status) s.returns

abbrev pub is_sale : WalletLedgerType → Bool
is_sale WalletLedgerType.sale = true
is_sale _ = false

-- The seller has been paid for the transaction.
unfoldable pub is_settled : TransactionRecord → WalletSnapshot → Bool
is_settled t seller =
    is_set t.completed_at || any (λ e. same e.reference_id t.id && is_sale e.kind) seller.ledger

-- The reversal of a settled sale: the fee first, then the sale, then the buyer's refund.
unfoldable pub reverse_sale : TransactionRecord → WalletSnapshot → Action (Unit {0})
reverse_sale t seller = do
  reject_if (ltb seller.available_balance (t.price_snapshot - seller_fee t.price_snapshot))
      invalid_state
  if seller_fee t.price_snapshot == 0 then pure tt else do
    fee_back ←
        run_helper
          (add_ledger t.seller_id WalletLedgerType.fee_reversal (seller_fee t.price_snapshot) t.id)
    reject_if (not fee_back) invalid_state
  sale_back ←
      run_helper (add_ledger t.seller_id WalletLedgerType.sale_reversal t.price_snapshot t.id)
  reject_if (not sale_back) invalid_state
  paid ← run_helper (add_ledger t.buyer_id WalletLedgerType.post_capture_refund t.total t.id)
  reject_if (not paid) invalid_state

-- The refund of an order that was not settled.
unfoldable pub return_hold : TransactionRecord → Action (Unit {0})
return_hold t = do
  released ← run_helper (release_wallet_hold t.buyer_id t.total t.id)
  reject_if (released == 0) invalid_state

-- The writes after the money has gone back.
unfoldable pub close_return :
    TransactionRecord → PaymentRecord → ReturnCase → EngineState → EngineState
close_return t payment case_ s =
    set_return case_.id
      (λ r. record r {
        status = ReturnStatus.refund_completed;
        received_at = some s.now;
        refunded_at = some s.now;
      })
      (set_transaction t.id
        (λ u. record u { status = TransactionStatus.refunded; updated_at = s.now })
        (set_wallet t.buyer_id (λ w. record w { points = w.points + points_of t })
          (set_payment payment.id
            (λ p. record p { status = PaymentStatus.refunded; updated_at = s.now }) s)))

-- confirmReturnReceived from the settlement on.
unfoldable pub receive_return :
    TransactionRecord
    → ReturnCase
    → PaymentRecord
    → MercariItem
    → ShipmentRecord
    → WalletSnapshot
    → SandboxActor
    → Action ReturnResult
receive_return t case_ payment item shipment seller actor = do
  if is_settled t seller then reverse_sale t seller else return_hold t
  modify (close_return t payment case_)
  modify (restore_stock (text "返品受領による在庫復元") t item)
  modify (λ s.
      set_shipment shipment.id
        (λ p. record p { status = ShipmentStatus.returned; updated_at = s.now }) s)
  events ← run_helper (
      commit (
        transaction_event (text "RETURN_RECEIVED") t.id actor.id (
          (text "returnCaseId", Value.id case_.id) ∷ (text "refundCompleted", Value.flag true) ∷ [])
        ∷ []))
  modify (
      add_notification t.buyer_id (text "返送を受領し返金を完了しました")
        (Value.string t.title_snapshot ∷ Value.string (text "の返品処理が完了しました。") ∷ [])
        (first_id events))
  pure (record { return_case_id = case_.id; status = ReturnStatus.refund_completed })

abbrev is_seller_role : ActorRole → Bool
is_seller_role ActorRole.seller = true
is_seller_role _ = false

-- A return case that is paid back is reported again; otherwise one in transit is received.
unfoldable pub receive_or_report :
    TransactionRecord → Option ReturnCase → Option ReturnCase → SandboxActor → Action ReturnResult
receive_or_report t (some done) moving actor =
    pure (record { return_case_id = done.id; status = done.status })
receive_or_report t none moving actor = do
  case_ ← require moving invalid_transition
  reject_if (is_seller_role actor.role && not (same actor.id t.seller_id)) forbidden
  found_payment ← gets (λ s. find_payment s t.payment_id)
  payment ← require found_payment invalid_state
  found_item ← gets (λ s. find_item s t.item_id)
  item ← require found_item invalid_state
  found_shipment ← gets (λ s. find_shipment s t.shipment_id)
  shipment ← require found_shipment invalid_state
  found_buyer ← gets (λ s. find_wallet s t.buyer_id)
  buyer ← require found_buyer invalid_state
  found_seller ← gets (λ s. find_wallet s t.seller_id)
  seller ← require found_seller invalid_state
  receive_return t case_ payment item shipment seller actor

-- confirmReturnReceived
unfoldable pub confirm_return_received : Ident → AgentActionOptions → Action ReturnResult
confirm_return_received transaction_id o = do
  invalid ← gets (validate_options o)
  reject_with invalid
  found_actor ← gets (actor_for o)
  actor ← require (signed_in found_actor) forbidden
  reject_if (not (is_operator actor.role) && not (is_seller_role actor.role)) forbidden
  found ← gets (λ s. find_transaction s transaction_id)
  t ← require found transaction_not_found
  done ← gets (return_with is_paid_back transaction_id)
  moving ← gets (return_with is_moving transaction_id)
  receive_or_report t done moving actor

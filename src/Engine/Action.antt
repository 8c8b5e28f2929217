-- ===== src/Engine/Action.antt =====
-- Commands of the engine as actions on its state. A command returns data or an AgentErrorCode; what
-- it wrote before an early return stays written, so the state comes back beside the error too. The
-- message, details and nextActions of an ActionResult are left out, and its stateVersion is that of
-- the state that comes back.
pub mod Preserves
use furima_sandbox.Prelude.{Bool, true, false, Option, none, some}
use furima_sandbox.Engine.State.{EngineState}

-- The codes of AgentErrorCode that the modelled commands and the command bus return.
pub data AgentErrorCode : Type 0 where
  item_not_found already_sold bid_too_low not_auction invalid_input : AgentErrorCode
  confirmation_required auth_required policy_review_required policy_blocked : AgentErrorCode
  invalid_actor forbidden state_conflict purchase_intent_expired payment_failed : AgentErrorCode
  transaction_not_found invalid_transition auction_ended invalid_amount : AgentErrorCode
  insufficient_funds wallet_not_found invalid_state : AgentErrorCode
  idempotency_conflict internal_error : AgentErrorCode
  follow_target_not_found cannot_follow_self already_following not_following : AgentErrorCode

pub data ActionResult (A : Type 0) : Type 0 where
  ok : A → ActionResult A
  error : AgentErrorCode → ActionResult A

abbrev pub Action : Type 0 → Type 0
Action A = EngineState → ActionResult A × EngineState

abbrev pub continue_with : {A B : Type 0} → ActionResult A → (A → Action B) → Action B
continue_with (ok a) f s = f a s
continue_with (error e) f s = (error e, s)

infixl 10 ◌>>=◌ ◌>>◌
unfoldable pub ◌>>=◌ : {A B : Type 0} → Action A → (A → Action B) → Action B
◌>>=◌ m f s = let (r, s') = m s in continue_with r f s'

abbrev pub ◌>>◌ : {A B : Type 0} → Action A → Action B → Action B
m >> n = m >>= λ _. n

-- return resultOk(a, …)
unfoldable pub pure : {A : Type 0} → A → Action A
pure a s = (ok a, s)

-- return resultError(e, …)
unfoldable pub fail : {A : Type 0} → AgentErrorCode → Action A
fail e s = (error e, s)

-- Reads of the state.
unfoldable pub gets : {A : Type 0} → (EngineState → A) → Action A
gets f s = (ok (f s), s)

-- Writes to the state.
unfoldable pub modify : (EngineState → EngineState) → Action (Unit {0})
modify f s = (ok tt, f s)

-- A helper that writes to the state and returns a value.
unfoldable pub run_helper : {A : Type 0} → (EngineState → A × EngineState) → Action A
run_helper f s = let (a, s') = f s in (ok a, s')

-- if (b) return resultError(e, …)
unfoldable pub reject_if : Bool → AgentErrorCode → Action (Unit {0})
reject_if true e = fail e
reject_if false e = pure tt

-- if (!o) return resultError(e, …)
unfoldable pub require : {A : Type 0} → Option A → AgentErrorCode → Action A
require none e = fail e
require (some a) e = pure a

-- if (o) return o
unfoldable pub reject_with : Option AgentErrorCode → Action (Unit {0})
reject_with none = pure tt
reject_with (some e) = fail e

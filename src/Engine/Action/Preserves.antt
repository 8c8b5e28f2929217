-- ===== src/Engine/Action/Preserves.antt =====
-- Invariants of the engine's state along actions: one rule for each way to build an action. An
-- action preserves a predicate whether it returns or fails.
use furima_sandbox.Prelude.{Bool, true, false, Option, none, some, if◌then◌else◌}
use furima_sandbox.Engine.State.{EngineState}
use furima_sandbox.Engine.Action.{
  AgentErrorCode, ActionResult, ok, error, Action, continue_with, ◌>>=◌, pure, fail, gets, modify,
  run_helper, reject_if, require, reject_with,
}

pub record Preserves {A : Type 0} (Inv : EngineState → Type 0) (act : Action A) : Type 0 where
  pub after : (before : EngineState) → Inv before → Inv (act before).1

module _ {Inv : EngineState → Type 0} where
  pub Preserves-run_helper :
      {A : Type 0} (helper : EngineState → A × EngineState)
      → ((before : EngineState) → Inv before → Inv (helper before).1)
      → Preserves Inv (run_helper helper)
  unfolding run_helper
  Preserves-run_helper helper each = record { after = each }

  pub Preserves-modify :
      (write : EngineState → EngineState)
      → ((before : EngineState) → Inv before → Inv (write before))
      → Preserves Inv (modify write)
  unfolding modify
  Preserves-modify write each = record { after = each }

  -- The actions that write nothing.
  pub Preserves-gets : {A : Type 0} (read : EngineState → A) → Preserves Inv (gets read)
  unfolding gets
  Preserves-gets read = record { after = λ _ holds. holds }

  pub Preserves-pure : {A : Type 0} (value : A) → Preserves Inv (pure value)
  unfolding pure
  Preserves-pure value = record { after = λ _ holds. holds }

  pub Preserves-fail : {A : Type 0} (code : AgentErrorCode) → Preserves Inv (fail {A = A} code)
  unfolding fail
  Preserves-fail code = record { after = λ _ holds. holds }

  pub Preserves-reject_if :
      (test : Bool) (code : AgentErrorCode) → Preserves Inv (reject_if test code)
  unfolding reject_if
  Preserves-reject_if true code = Preserves-fail code
  Preserves-reject_if false code = Preserves-pure tt

  pub Preserves-require :
      {A : Type 0} (found : Option A) (code : AgentErrorCode) → Preserves Inv (require found code)
  unfolding require
  Preserves-require none code = Preserves-fail code
  Preserves-require (some value) code = Preserves-pure value

  pub Preserves-reject_with : (o : Option AgentErrorCode) → Preserves Inv (reject_with o)
  unfolding reject_with
  Preserves-reject_with none = Preserves-pure tt
  Preserves-reject_with (some code) = Preserves-fail code

  after_result :
      {A B : Type 0} (result : ActionResult A) (rest : A → Action B) (middle : EngineState)
      → Inv middle
      → ((value : A) → Preserves Inv (rest value))
      → Inv (continue_with result rest middle).1
  after_result (error code) rest middle holds each = holds
  after_result (ok value) rest middle holds each = (each value).after middle holds

  pub Preserves-bind :
      {A B : Type 0} (act : Action A) (rest : A → Action B)
      → Preserves Inv act
      → ((value : A) → Preserves Inv (rest value))
      → Preserves Inv (act >>= rest)
  unfolding ◌>>=◌
  Preserves-bind act rest first each = record {
    after = λ before holds. after_result (act before).0 rest _ (first.after before holds) each;
  }

  -- Both branches of a conditional action.
  pub Preserves-if :
      {A : Type 0} (test : Bool) (yes_act no_act : Action A)
      → Preserves Inv yes_act
      → Preserves Inv no_act
      → Preserves Inv (if test then yes_act else no_act)
  Preserves-if true yes_act no_act one other = one
  Preserves-if false yes_act no_act one other = other

  -- The state that a command saves, to put it back later.
  pub Preserves-save :
      {B : Type 0} (rest : EngineState → Action B)
      → ((saved : EngineState) → Inv saved → Preserves Inv (rest saved))
      → Preserves Inv (gets (λ s. s) >>= rest)
  unfolding ◌>>=◌ gets
  Preserves-save rest each = record {
    after = λ before holds. (each before holds).after before holds;
  }

pub ruleset preserves_rules = (
  Preserves-run_helper, Preserves-modify, Preserves-gets, Preserves-pure, Preserves-fail,
  Preserves-reject_if, Preserves-require, Preserves-reject_with, Preserves-bind, Preserves-if,
)

-- ===== src/Bus/Records.antt =====
-- What the command bus of app/domain/commandBus.ts keeps and is given. The type P is that of the
-- payloads, A that of the data that commands return. An instant is a number of milliseconds.
use furima_sandbox.Prelude.{ℕ, Option, List, []}
use furima_sandbox.Text.{Text}
use furima_sandbox.Engine.Ident.{Ident}
use furima_sandbox.Engine.Action.{ActionResult}
use furima_sandbox.Engine.Access.{AgentActionOptions, Scope}

pub data Mode : Type 0 where
  preview commit : Mode

-- CommandBusContext
pub record Context : Type 0 where
  pub sandbox_id : Ident
  pub actor_id : Ident
  pub state_version : ℕ

-- The options of a call: those that the engine reads too, and the others of AgentActionOptions that
-- the bus reads. No options at all are options with no field set.
pub record BusOptions : Type 0 where
  pub idempotency_key : Option Ident
  pub request_id : Option Ident
  pub command_id : Option Ident
  pub operation_id : Option Ident
  pub sandbox_id : Option Ident
  pub mode : Option Mode
  pub scope : Option Scope
  pub agent : AgentActionOptions

pub record Request (P : Type 0) : Type 0 where
  pub command : Text
  pub payload : P
  pub options : BusOptions

-- What a fingerprint is taken of.
pub record Sealed (P : Type 0) : Type 0 where
  pub sandbox_id : Ident
  pub actor_id : Ident
  pub command : Text
  pub mode : Mode
  pub payload : P

-- `${sandboxId}:${command}:${randomUuid}:${sequence}`, or an identifier of the options.
pub data OperationId : Type 0 where
  given : Ident → OperationId
  unique : Ident → Text → Text → ℕ → OperationId

pub record ActionMetadata : Type 0 where
  pub sandbox_id : Ident
  pub actor_id : Ident
  pub state_version : ℕ
  pub operation_id : OperationId
  pub command_id : Option Ident
  pub request_id : Option Ident
  pub idempotency_key : Option Ident
  pub mode : Mode

-- A decorated ActionResult.
pub record Reply (A : Type 0) : Type 0 where
  pub result : ActionResult A
  pub state_version : ℕ
  pub meta : ActionMetadata

-- What a command does when it is called: it throws, or it returns a result with a stateVersion.
pub data Outcome (A : Type 0) : Type 0 where
  throws : Outcome A
  returns : ActionResult A → ℕ → Outcome A

pub record CachedCommandResult (A : Type 0) : Type 0 where
  pub fingerprint : Text
  pub reply : Reply A
  pub expires_at : ℕ

pub record ActionTraceEntry (P A : Type 0) : Type 0 where
  pub action : Text
  pub request_id : Option Ident
  pub idempotency_key : Option Ident
  pub command_id : Option Ident
  pub payload : P
  pub reply : Reply A
  pub at : ℕ

-- The fields of SandboxCommandBus that change. The cache is a Map, in the order of insertion; the
-- trace has its oldest entry first.
pub record Bus (P A : Type 0) : Type 0 where
  pub cache : List (Ident × CachedCommandResult A)
  pub trace : List (ActionTraceEntry P A)
  pub sequence : ℕ

-- The fields that the constructor sets.
pub record BusConfig : Type 0 where
  pub ttl_ms : ℕ
  pub max_cache_entries : ℕ
  pub max_trace_entries : ℕ

abbrev pub default_config : BusConfig
default_config = record { ttl_ms = 600000; max_cache_entries = 500; max_trace_entries = 500 }

abbrev pub new_bus : {P A : Type 0} → Bus P A
new_bus = record { cache = []; trace = []; sequence = 0 }

-- What a call gets from outside: the four readings of the clock and the random UUID.
pub record Surroundings : Type 0 where
  pub pruned_at : ℕ
  pub traced_at : ℕ
  pub cached_at : ℕ
  pub uuid : Text

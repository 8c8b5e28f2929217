-- ===== src/Bus/Execute.antt =====
-- execute, decorate and remember of SandboxCommandBus (app/domain/commandBus.ts).
--
-- The parameters are the constructor's options, the two functions on payloads, and the world that the
-- context is read from and the commands change.
use furima_sandbox.Prelude.{
  or_else, ℕ, suc, ◌+◌, Bool, true, false, not, ◌&&◌, Option, none, some, List, [], ◌∷◌, ◌++◌, any,
  last_n, if◌then◌else◌,
}
use furima_sandbox.Text.{Text, Text-discrete}
use furima_sandbox.Engine.Ident.{Ident, same, is_blank}
use furima_sandbox.Engine.Action.{
  ActionResult, AgentErrorCode, error, invalid_input, forbidden, state_conflict,
  idempotency_conflict, internal_error,
}
use furima_sandbox.Engine.Access.{ExecutionPrincipal, is_control, stale_version, other_than}
use furima_sandbox.Bus.Records.{
  Mode, commit, Context, BusOptions, Request, Sealed, OperationId, given, unique, ActionMetadata,
  Reply, Outcome, throws, returns, CachedCommandResult, Bus, BusConfig, Surroundings,
}
use furima_sandbox.Bus.Cache.{lookup, store, prune}

-- options?.idempotencyKey ?? options?.requestId ?? options?.commandId
abbrev pub key_of : BusOptions → Option Ident
key_of o = or_else o.idempotency_key (or_else o.request_id o.command_id)

-- if (key)
abbrev pub usable_key : BusOptions → Option Ident
usable_key o = elim (key_of o) [ none ↦ none | some key ↦ if is_blank key then none else some key ]

abbrev pub mode_of : BusOptions → Mode
mode_of o = elim o.mode [ none ↦ commit | some m ↦ m ]

-- options?.principal?.actorId ?? options?.actorId ?? context.actorId
abbrev pub actor_of : BusOptions → Context → Ident
actor_of o ctx = elim o.agent.principal [
  | some p ↦ p.actor_id
  | none ↦ elim o.agent.actor_id [ some k ↦ k | none ↦ ctx.actor_id ]
]

-- options?.operationId ?? options?.idempotencyKey ?? …, and whether `this.sequence` was used up.
abbrev pub named_operation : BusOptions → Option Ident
named_operation o = or_else o.operation_id (key_of o)

abbrev pub next_sequence : BusOptions → ℕ → ℕ
next_sequence o sequence = elim (named_operation o) [ some _ ↦ sequence | none ↦ suc sequence ]

abbrev pub operation_id_of : BusOptions → Context → Text → Text → ℕ → OperationId
operation_id_of o ctx command uuid sequence = elim (named_operation o) [
  | some k ↦ given k
  | none ↦ unique ctx.sandbox_id command uuid (suc sequence)
]

-- ...(id ? { id } : {})
abbrev pub unless_blank : Option Ident → Option Ident
unless_blank none = none
unless_blank (some k) = if is_blank k then none else some k

abbrev pub same_text : Text → Text → Bool
same_text a b = elim (Text-discrete a b) [ yes _ ↦ true | no _ ↦ false ]

-- The checks of a principal.
unfoldable pub principal_refused : ExecutionPrincipal → Context → Bool
principal_refused p ctx =
    if not p.trusted
    then true
    else not (same p.actor_id ctx.actor_id) && not (any is_control p.scopes)

-- options.scope !== 'sandbox-control' && options.actorId !== context.actorId, of a given actor.
unfoldable pub actor_refused : BusOptions → Context → Bool
unfolding other_than
actor_refused o ctx =
    not (elim o.scope [ none ↦ false | some scope ↦ is_control scope ])
    && other_than o.agent.actor_id ctx.actor_id

abbrev pub identity_refused : BusOptions → Context → Bool
identity_refused o ctx = elim o.agent.principal [
  | some p ↦ principal_refused p ctx
  | none ↦ actor_refused o ctx
]

abbrev pub sealed_with : {P : Type 0} → (P → P) → Request P → Context → Sealed P
sealed_with f r ctx = record {
  sandbox_id = ctx.sandbox_id;
  actor_id = actor_of r.options ctx;
  command = r.command;
  mode = mode_of r.options;
  payload = f r.payload;
}

unfoldable pub metadata : {P : Type 0} → Request P → Context → Text → ℕ → ActionMetadata
metadata r ctx uuid sequence = record {
  sandbox_id = ctx.sandbox_id;
  actor_id = actor_of r.options ctx;
  state_version = ctx.state_version;
  operation_id = operation_id_of r.options ctx r.command uuid sequence;
  command_id = unless_blank r.options.command_id;
  request_id = unless_blank r.options.request_id;
  idempotency_key = unless_blank r.options.idempotency_key;
  mode = mode_of r.options;
}

-- decorate
unfoldable pub decorate : {A : Type 0} → ActionResult A → ℕ → ActionMetadata → Reply A
decorate result version meta = record {
  result = result;
  state_version = version;
  meta = record meta { state_version = version };
}

abbrev pub outcome_result : {A : Type 0} → Outcome A → ActionResult A
outcome_result throws = error internal_error
outcome_result (returns result _) = result

abbrev pub outcome_version : {A : Type 0} → Outcome A → ℕ → ℕ
outcome_version throws version = version
outcome_version (returns _ version) _ = version

-- A call gives a reply and leaves a bus and a world.
pub record Turn (P A W : Type 0) : Type 0 where
  pub reply : Reply A
  pub bus : Bus P A
  pub world : W

-- The bus once the cache is pruned and an operation id is given.
unfoldable pub opened : {P A : Type 0} → Request P → Surroundings → Bus P A → Bus P A
opened r at bus = record bus {
  cache = prune at.pruned_at bus.cache;
  sequence = next_sequence r.options bus.sequence;
}

-- What the cache says of the key.
unfoldable pub cached_for :
    {P A : Type 0} → Request P → Surroundings → Bus P A → Option (CachedCommandResult A)
cached_for r at bus = elim (usable_key r.options) [
  | none ↦ none
  | some key ↦ lookup key (prune at.pruned_at bus.cache)
]

module _ {P : Type 0} (fingerprint : Sealed P → Option Text) (compact : P → P) where
  -- The early returns before the cache is read.
  unfoldable pub refusal : Request P → Context → Option AgentErrorCode
  unfolding stale_version other_than
  refusal r ctx = elim (fingerprint (sealed_with (λ p. p) r ctx)) [
    | none ↦ some invalid_input
    | some _ ↦ elim (fingerprint (sealed_with compact r ctx)) [
      | none ↦ some invalid_input
      | some _ ↦
          if other_than r.options.sandbox_id ctx.sandbox_id
          then some invalid_input
          else if identity_refused r.options ctx
          then some forbidden
          else if stale_version r.options.agent.expected_state_version ctx.state_version
          then some state_conflict
          else none
    ]
  ]

  -- cached.fingerprint !== payloadFingerprint
  unfoldable pub matches : {A : Type 0} → Request P → Context → CachedCommandResult A → Bool
  matches r ctx cached = elim (fingerprint (sealed_with compact r ctx)) [
    | none ↦ false
    | some print ↦ same_text cached.fingerprint print
  ]

module _ {P A : Type 0} (config : BusConfig) (fingerprint : Sealed P → Option Text)
    (compact : P → P) where
  -- The cache after `remember`.
  unfoldable pub remember_in_cache :
      Request P
      → Surroundings
      → Reply A
      → List (Ident × CachedCommandResult A)
      → List (Ident × CachedCommandResult A)
  remember_in_cache r at reply cache = elim (usable_key r.options) [
    | none ↦ cache
    | some key ↦
        elim (fingerprint (record {
          sandbox_id = reply.meta.sandbox_id;
          actor_id = reply.meta.actor_id;
          command = r.command;
          mode = reply.meta.mode;
          payload = compact r.payload;
        })) [
          | none ↦ cache
          | some print ↦
              store config.max_cache_entries key
                (record {
                  fingerprint = print;
                  reply = reply;
                  expires_at = at.cached_at + config.ttl_ms;
                })
                cache
        ]
  ]

  -- remember
  unfoldable pub remember : Request P → Surroundings → Reply A → Bus P A → Bus P A
  remember r at reply bus = record bus {
    trace = last_n config.max_trace_entries (
        bus.trace
        ++ record {
          action = r.command;
          request_id = r.options.request_id;
          idempotency_key = r.options.idempotency_key;
          command_id = r.options.command_id;
          payload = compact r.payload;
          reply = reply;
          at = at.traced_at;
        }
          ∷ []);
    cache = remember_in_cache r at reply bus.cache;
  }

  -- return this.remember(…, this.decorate(result, metadata))
  unfoldable pub answer :
      {W : Type 0}
      → Request P
      → Surroundings
      → ActionResult A
      → ℕ
      → Context
      → W
      → Bus P A
      → Turn P A W
  answer r at result version ctx world bus =
      let reply = decorate result version (metadata r ctx at.uuid bus.sequence) in
      record { reply = reply; bus = remember r at reply (opened r at bus); world = world }

module _ {P A W : Type 0} (config : BusConfig) (fingerprint : Sealed P → Option Text)
    (compact : P → P) (context_of : W → Context) where
  -- The call of the operation.
  unfoldable pub call : Request P → (W → Outcome A × W) → Surroundings → W → Bus P A → Turn P A W
  call r operation at world bus =
      let ctx = context_of world in
      let (outcome, world') = operation world in
      answer config fingerprint compact r at (outcome_result outcome)
        (outcome_version outcome ctx.state_version) ctx world' bus

  -- execute
  unfoldable pub execute : Request P → (W → Outcome A × W) → Surroundings → W → Bus P A → Turn P A W
  execute r operation at world bus =
      let ctx = context_of world in
      elim (refusal fingerprint compact r ctx) [
        | some e ↦ answer config fingerprint compact r at (error e) ctx.state_version ctx world bus
        | none ↦ elim (cached_for r at bus) [
          | none ↦ call r operation at world bus
          | some cached ↦
              if matches fingerprint compact r ctx cached
              then record { reply = cached.reply; bus = opened r at bus; world = world }
              else answer config fingerprint compact r at (error idempotency_conflict)
                  ctx.state_version ctx world bus
        ]
      ]

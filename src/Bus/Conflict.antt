-- ===== src/Bus/Conflict.antt =====
-- What the command bus of app/domain/commandBus.ts answers to a key that is used for something else,
-- and to a request whose expectedStateVersion has passed.
use furima_sandbox.Prelude.{
  ℕ, ◌+◌, ◌<◌, Bool, true, Option, none, some, ◌≡◌, ◌≢◌, refl, sym, subst, arith, if◌then◌else◌,
}
use furima_sandbox.Text.{Text}
use furima_sandbox.Engine.Ident.{Ident}
use furima_sandbox.Engine.Action.{
  AgentErrorCode, error, invalid_input, forbidden, idempotency_conflict, state_conflict,
}
use furima_sandbox.Engine.Access.{stale_version, other_than}
use furima_sandbox.Bus.Records.{
  Context, Request, Sealed, Outcome, CachedCommandResult, Bus, BusConfig, Surroundings,
}
use furima_sandbox.Bus.Cache.{lookup}
use furima_sandbox.Bus.Execute.{
  Turn, refusal, answer, execute, usable_key, sealed_with, decorate, identity_refused,
  principal_refused, actor_refused,
}
use furima_sandbox.Bus.Replay.{
  entry_of, answer-lookup, cached_for-hit, matches-other, execute-clash,
}

-- The order of the checks of `refusal`, the version's the last.
abbrev checks : Option Text → Option Text → Bool → Bool → Bool → Option AgentErrorCode
checks full compacted elsewhere stranger stale = elim full [
  | none ↦ some invalid_input
  | some _ ↦ elim compacted [
    | none ↦ some invalid_input
    | some _ ↦
        if elsewhere
        then some invalid_input
        else if stranger
        then some forbidden
        else if stale
        then some state_conflict
        else none
  ]
]

checks-last :
    (full compacted : Option Text) (elsewhere stranger stale : Bool)
    → checks full compacted elsewhere stranger stale ≡ none
    → checks full compacted elsewhere stranger true ≡ some state_conflict
checks-last full compacted elsewhere stranger stale passes = ground arith

stale_version-other :
    (expected : Option ℕ) (n version : ℕ)
    → expected ≡ some n
    → n ≢ version
    → stale_version expected version ≡ true
unfolding stale_version
stale_version-other expected n version names other = ground arith

module _ {P : Type 0} (fingerprint : Sealed P → Option Text) (compact : P → P) where
  refusal-stale :
      (r : Request P) (ctx : Context) (expected version : ℕ)
      → refusal fingerprint compact r ctx ≡ none
      → r.options.agent.expected_state_version ≡ some expected
      → expected ≢ version
      → refusal fingerprint compact r (record ctx { state_version = version }) ≡ some state_conflict
  unfolding refusal principal_refused actor_refused
  refusal-stale r ctx expected version passes names other =
      let late =
        stale_version-other r.options.agent.expected_state_version expected version names other in
      subst
        (λ b.
          checks (fingerprint (sealed_with (λ p. p) r ctx))
            (fingerprint (sealed_with compact r ctx))
            (other_than r.options.sandbox_id ctx.sandbox_id) (identity_refused r.options ctx) b
          ≡ some state_conflict)
        (sym late)
        (checks-last (fingerprint (sealed_with (λ p. p) r ctx))
          (fingerprint (sealed_with compact r ctx)) (other_than r.options.sandbox_id ctx.sandbox_id)
          (identity_refused r.options ctx)
          (stale_version r.options.agent.expected_state_version ctx.state_version) passes)

  -- The same, for a context with the same sandbox and actor.
  refusal-moved :
      (r : Request P) (a b : Context) (expected : ℕ)
      → refusal fingerprint compact r a ≡ none
      → r.options.agent.expected_state_version ≡ some expected
      → expected ≢ b.state_version
      → a.sandbox_id ≡ b.sandbox_id
      → a.actor_id ≡ b.actor_id
      → refusal fingerprint compact r b ≡ some state_conflict
  refusal-moved r a b expected passes names other sandbox actor =
      subst (λ k. refusal fingerprint compact r (record b { actor_id = k }) ≡ some state_conflict)
        actor
        (subst
          (λ k.
            refusal fingerprint compact r
              (record { sandbox_id = k; actor_id = a.actor_id; state_version = b.state_version })
            ≡ some state_conflict)
          sandbox (refusal-stale r a expected b.state_version passes names other))

module _ {P A W : Type 0} (config : BusConfig) (fingerprint : Sealed P → Option Text)
    (compact : P → P) (context_of : W → Context) where
  -- The answer to a key that is taken.
  abbrev refuse_key : Request P → Surroundings → W → Bus P A → Turn P A W
  refuse_key r at world bus =
      answer config fingerprint compact r at (error idempotency_conflict)
        (context_of world).state_version (context_of world) world bus

  -- A key under which a result with another fingerprint lies: the request is answered with
  -- IDEMPOTENCY_CONFLICT and its operation does not run.
  pub execute-conflict :
      (r : Request P) (operation : W → Outcome A × W) (at : Surroundings) (world : W)
      (bus : Bus P A) (key : Ident) (print : Text) (cached : CachedCommandResult A)
      → usable_key r.options ≡ some key
      → fingerprint (sealed_with compact r (context_of world)) ≡ some print
      → refusal fingerprint compact r (context_of world) ≡ none
      → lookup key bus.cache ≡ some cached
      → at.pruned_at < cached.expires_at
      → print ≢ cached.fingerprint
      → execute config fingerprint compact context_of r operation at world bus
        ≡ refuse_key r at world bus
  execute-conflict r operation at world bus key print cached keyed printed passes found fresh
        differs =
      execute-clash config fingerprint compact context_of r operation at world bus cached passes
        (cached_for-hit r at bus key cached keyed found fresh)
        (matches-other fingerprint compact r (context_of world) cached print printed differs)

  -- Two requests that pass the checks use the same key with different fingerprints, and the result
  -- of the first lies under the key and has not expired. The second is answered with
  -- IDEMPOTENCY_CONFLICT, and so is the first when it is sent again as the next call, before the
  -- entry of that conflict expires: the conflict has replaced the result. Neither operation runs.
  pub execute-forgets :
      (r other : Request P) (operation again : W → Outcome A × W) (at later : Surroundings)
      (world : W) (bus : Bus P A) (key : Ident) (print : Text) (cached : CachedCommandResult A)
      → usable_key r.options ≡ some key
      → usable_key other.options ≡ some key
      → fingerprint (sealed_with compact r (context_of world)) ≡ some cached.fingerprint
      → fingerprint (sealed_with compact other (context_of world)) ≡ some print
      → refusal fingerprint compact r (context_of world) ≡ none
      → refusal fingerprint compact other (context_of world) ≡ none
      → lookup key bus.cache ≡ some cached
      → at.pruned_at < cached.expires_at
      → later.pruned_at < at.cached_at + config.ttl_ms
      → print ≢ cached.fingerprint
      → let turn = execute config fingerprint compact context_of other operation at world bus in
        let retry =
          execute config fingerprint compact context_of r again later turn.world turn.bus in
        (turn.reply.result ≡ error idempotency_conflict)
        × (retry.reply.result ≡ error idempotency_conflict)
        × (retry.world ≡ world)
  unfolding answer decorate
  execute-forgets r other operation again at later world bus key print cached keyed keyed' printed
        printed' passes passes' found fresh fresh' differs =
      let clash =
        execute-conflict other operation at world bus key print cached keyed' printed' passes' found
          fresh differs in
      let stored =
        answer-lookup config fingerprint compact other at (error idempotency_conflict)
          (context_of world).state_version (context_of world) world bus key print keyed' printed' in
      let retried =
        execute-conflict r again later world (refuse_key other at world bus).bus key
          cached.fingerprint (entry_of config print at (refuse_key other at world bus).reply) keyed
          printed passes stored fresh' (λ e. differs (sym e)) in
      rw (clash, retried) (refl, refl, refl)

  -- A request that names the version it expects, is served, and moves the version on: sent again as
  -- it was, with its key, it is answered with STATE_CONFLICT and not with the result that was kept.
  pub execute-stale_retry :
      (r : Request P) (operation again : W → Outcome A × W) (at later : Surroundings) (world : W)
      (bus : Bus P A) (expected : ℕ) (turn : Turn P A W)
      → refusal fingerprint compact r (context_of world) ≡ none
      → execute config fingerprint compact context_of r operation at world bus ≡ turn
      → (context_of world).sandbox_id ≡ (context_of turn.world).sandbox_id
      → (context_of world).actor_id ≡ (context_of turn.world).actor_id
      → r.options.agent.expected_state_version ≡ some expected
      → expected ≢ (context_of turn.world).state_version
      → let retry =
          execute config fingerprint compact context_of r again later turn.world turn.bus in
        (retry.reply.result ≡ error state_conflict) × (retry.world ≡ turn.world)
  unfolding execute answer decorate
  execute-stale_retry r operation again at later world bus expected turn passes ran sandbox actor
        names other =
      rw
        (
          refusal-moved fingerprint compact r (context_of world) (context_of turn.world) expected
              passes names other sandbox actor,
          execute,
        )
        (refl, refl)

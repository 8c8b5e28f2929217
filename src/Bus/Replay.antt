-- ===== src/Bus/Replay.antt =====
-- What the command bus of app/domain/commandBus.ts does with a key that it has seen.
use furima_sandbox.Prelude.{
  ℕ, ◌+◌, ◌<◌, true, false, Option, none, some, ◌≡◌, ◌≢◌, refl, sym, ap, ◌∙◌, subst, arith,
}
use furima_sandbox.Text.{Text}
use furima_sandbox.Engine.Ident.{Ident}
use furima_sandbox.Engine.Action.{ActionResult, error, idempotency_conflict}
use furima_sandbox.Bus.Records.{
  Context, Request, Sealed, Reply, Outcome, CachedCommandResult, Bus, BusConfig, Surroundings,
}
use furima_sandbox.Bus.Cache.{lookup, lookup-store, lookup-prune}
use furima_sandbox.Bus.Execute.{
  Turn, refusal, cached_for, matches, remember_in_cache, remember, opened, answer, call, execute,
  same_text, usable_key, metadata, decorate, sealed_with,
}

-- The entry that a call stores under its key.
abbrev pub entry_of :
    {A : Type 0} → BusConfig → Text → Surroundings → Reply A → CachedCommandResult A
entry_of config print at reply = record {
  fingerprint = print;
  reply = reply;
  expires_at = at.cached_at + config.ttl_ms;
}

-- The context's version is not in the fingerprint.
pub sealed_with-context :
    {P : Type 0} (compact : P → P) (r : Request P) (a b : Context)
    → a.sandbox_id ≡ b.sandbox_id
    → a.actor_id ≡ b.actor_id
    → sealed_with compact r a ≡ sealed_with compact r b
sealed_with-context compact r a b same_sandbox same_actor =
    ap (λ k. sealed_with compact r (record a { sandbox_id = k })) same_sandbox
    ∙ ap (λ k. sealed_with compact r (record b { actor_id = k })) same_actor

pub cached_for-hit :
    {P A : Type 0} (r : Request P) (at : Surroundings) (bus : Bus P A) (key : Ident)
    (cached : CachedCommandResult A)
    → usable_key r.options ≡ some key
    → lookup key bus.cache ≡ some cached
    → at.pruned_at < cached.expires_at
    → cached_for r at bus ≡ some cached
unfolding cached_for
cached_for-hit r at bus key cached keyed found fresh =
    rw (keyed, cached_for) (lookup-prune key at.pruned_at cached bus.cache found fresh)

same_text_refl : (t : Text) → same_text t t ≡ true
same_text_refl t = ground arith

module _ {P A : Type 0} (fingerprint : Sealed P → Option Text) (compact : P → P) where
  matches-own :
      (r : Request P) (ctx : Context) (cached : CachedCommandResult A)
      → fingerprint (sealed_with compact r ctx) ≡ some cached.fingerprint
      → matches fingerprint compact r ctx cached ≡ true
  unfolding matches
  matches-own r ctx cached printed = rw (printed, matches) (same_text_refl cached.fingerprint)

  pub matches-other :
      (r : Request P) (ctx : Context) (cached : CachedCommandResult A) (print : Text)
      → fingerprint (sealed_with compact r ctx) ≡ some print
      → print ≢ cached.fingerprint
      → matches fingerprint compact r ctx cached ≡ false
  unfolding matches
  matches-other r ctx cached print printed differs = ground arith

module _ {P A W : Type 0} (config : BusConfig) (fingerprint : Sealed P → Option Text)
    (compact : P → P) where
  pub answer-lookup :
      (r : Request P) (at : Surroundings) (result : ActionResult A) (version : ℕ) (ctx : Context)
      (world : W) (bus : Bus P A) (key : Ident) (print : Text)
      → usable_key r.options ≡ some key
      → fingerprint (sealed_with compact r ctx) ≡ some print
      → let turn = answer config fingerprint compact r at result version ctx world bus in
        lookup key turn.bus.cache ≡ some (entry_of config print at turn.reply)
  unfolding answer remember remember_in_cache decorate metadata
  answer-lookup r at result version ctx world bus key print keyed printed =
      rw (keyed, printed, remember_in_cache) (lookup-store config.max_cache_entries key _ _)

module _ {P A W : Type 0} (config : BusConfig) (fingerprint : Sealed P → Option Text)
    (compact : P → P) (context_of : W → Context) where
  -- A call that passes the checks and finds an entry.
  execute-hit :
      (r : Request P) (operation : W → Outcome A × W) (at : Surroundings) (world : W)
      (bus : Bus P A) (cached : CachedCommandResult A)
      → refusal fingerprint compact r (context_of world) ≡ none
      → cached_for r at bus ≡ some cached
      → matches fingerprint compact r (context_of world) cached ≡ true
      → execute config fingerprint compact context_of r operation at world bus
        ≡ record { reply = cached.reply; bus = opened r at bus; world = world }
  unfolding execute
  execute-hit r operation at world bus cached passes found t = rw (passes, found, t, execute) refl

  pub execute-clash :
      (r : Request P) (operation : W → Outcome A × W) (at : Surroundings) (world : W)
      (bus : Bus P A) (cached : CachedCommandResult A)
      → refusal fingerprint compact r (context_of world) ≡ none
      → cached_for r at bus ≡ some cached
      → matches fingerprint compact r (context_of world) cached ≡ false
      → execute config fingerprint compact context_of r operation at world bus
        ≡ answer config fingerprint compact r at
            (error idempotency_conflict)
            (context_of world).state_version
            (context_of world)
            world
            bus
  unfolding execute
  execute-clash r operation at world bus cached passes found t = rw (passes, found, t, execute) refl

  pub execute-call :
      (r : Request P) (operation : W → Outcome A × W) (at : Surroundings) (world : W)
      (bus : Bus P A)
      → refusal fingerprint compact r (context_of world) ≡ none
      → cached_for r at bus ≡ none
      → execute config fingerprint compact context_of r operation at world bus
        ≡ call config fingerprint compact context_of r operation at world bus
  unfolding execute
  execute-call r operation at world bus passes absent = rw (passes, absent, execute) refl

  pub call-lookup :
      (r : Request P) (operation : W → Outcome A × W) (at : Surroundings) (world : W)
      (bus : Bus P A) (key : Ident) (print : Text)
      → usable_key r.options ≡ some key
      → fingerprint (sealed_with compact r (context_of world)) ≡ some print
      → let turn = call config fingerprint compact context_of r operation at world bus in
        lookup key turn.bus.cache ≡ some (entry_of config print at turn.reply)
  unfolding call
  call-lookup r operation at world bus =
      answer-lookup config fingerprint compact r at _ _ (context_of world) _ bus

  -- A call whose request has a key and whose operation ran, and, as the next call of the bus, the
  -- same request again: if it passes the checks again, with the same sandbox and actor, and comes
  -- before the entry of the first call expires, then whatever the operation would do now, the reply
  -- is the one of the first call and the world stays as it is.
  pub execute-replay :
      (r : Request P) (operation again : W → Outcome A × W) (at later : Surroundings) (world : W)
      (bus : Bus P A) (key : Ident) (print : Text) (turn : Turn P A W)
      → usable_key r.options ≡ some key
      → fingerprint (sealed_with compact r (context_of world)) ≡ some print
      → refusal fingerprint compact r (context_of world) ≡ none
      → cached_for r at bus ≡ none
      → execute config fingerprint compact context_of r operation at world bus ≡ turn
      → (context_of world).sandbox_id ≡ (context_of turn.world).sandbox_id
      → (context_of world).actor_id ≡ (context_of turn.world).actor_id
      → refusal fingerprint compact r (context_of turn.world) ≡ none
      → later.pruned_at < at.cached_at + config.ttl_ms
      → execute config fingerprint compact context_of r again later turn.world turn.bus
        ≡ record { reply = turn.reply; bus = opened r later turn.bus; world = turn.world }
  execute-replay r operation again at later world bus key print turn keyed printed passes absent ran
        sandbox actor passes_again fresh =
      let run = sym (execute-call r operation at world bus passes absent) ∙ ran in
      let stored =
        subst (λ t. lookup key t.bus.cache ≡ some (entry_of config print at t.reply)) run
          (call-lookup r operation at world bus key print keyed printed) in
      execute-hit r again later turn.world turn.bus (entry_of config print at turn.reply)
        passes_again (cached_for-hit r later turn.bus key _ keyed stored fresh)
        (matches-own fingerprint compact r (context_of turn.world) _ (
          ap fingerprint (
            sym (
              sealed_with-context compact r (context_of world) (context_of turn.world) sandbox
                actor))
          ∙ printed))

-- ===== src/Bus/Bounds.antt =====
-- The sizes of the cache and of the trace of the command bus (app/domain/commandBus.ts).
use furima_sandbox.Prelude.{
  ℕ, ◌≤◌, max, Option, none, List, ◌≡◌, refl, ◌⊎◌, inl, inr, length, length-last_n-le, Option-cases,
  Bool-cases, arith,
}
use furima_sandbox.Text.{Text}
use furima_sandbox.Engine.Ident.{Ident}
use furima_sandbox.Engine.Action.{ActionResult, error, idempotency_conflict}
use furima_sandbox.Bus.Records.{
  Context, Request, Sealed, Reply, Outcome, CachedCommandResult, Bus, BusConfig, Surroundings,
}
use furima_sandbox.Bus.Cache.{length-prune-le, length-store-le}
use furima_sandbox.Bus.Execute.{
  Turn, refusal, cached_for, matches, remember_in_cache, remember, opened, answer, call, execute,
  usable_key,
}

pub record IsWithin {P A : Type 0} (config : BusConfig) (bus : Bus P A) : Type 0 where
  pub cached : length bus.cache ≤ max 1 config.max_cache_entries
  pub traced : length bus.trace ≤ config.max_trace_entries

module _ {P A : Type 0} (config : BusConfig) (fingerprint : Sealed P → Option Text)
    (compact : P → P) where
  remember_in_cache-bound :
      (r : Request P) (at : Surroundings) (reply : Reply A)
      (cache : List (Ident × CachedCommandResult A))
      → length cache ≤ max 1 config.max_cache_entries
      → length (remember_in_cache config fingerprint compact r at reply cache)
        ≤ max 1 config.max_cache_entries
  unfolding remember_in_cache
  remember_in_cache-bound r at reply cache h = elim (Option-cases (usable_key r.options)) [
    | inl e ↦ rw (e, remember_in_cache) h
    | inr (key, e) ↦
        elim (Option-cases (
          fingerprint (record {
            sandbox_id = reply.meta.sandbox_id;
            actor_id = reply.meta.actor_id;
            command = r.command;
            mode = reply.meta.mode;
            payload = compact r.payload;
          }))) [
            | inl f ↦ rw (e, f, remember_in_cache) h
            | inr (print, f) ↦ rw (e, f, remember_in_cache) (length-store-le _ key _ cache h)
          ]
  ]

  remember-IsWithin :
      (r : Request P) (at : Surroundings) (reply : Reply A) (bus : Bus P A)
      → IsWithin config bus
      → IsWithin config (remember config fingerprint compact r at reply bus)
  unfolding remember
  remember-IsWithin r at reply bus h = record {
    cached = remember_in_cache-bound r at reply bus.cache h.cached;
    traced = length-last_n-le config.max_trace_entries _;
  }

opened-IsWithin :
    {P A : Type 0} (config : BusConfig) (r : Request P) (at : Surroundings) (bus : Bus P A)
    → IsWithin config bus
    → IsWithin config (opened r at bus)
unfolding opened
opened-IsWithin config r at bus h = record {
  cached = omega (arith, length-prune-le at.pruned_at bus.cache, h.cached);
  traced = h.traced;
}

module _ {P A W : Type 0} (config : BusConfig) (fingerprint : Sealed P → Option Text)
    (compact : P → P) (context_of : W → Context) where
  -- How a call can go.
  pub data Course (r : Request P) (operation : W → Outcome A × W) (at : Surroundings) (world : W)
      (bus : Bus P A) : Turn P A W → Type 0 where
    refused :
        (result : ActionResult A) (version : ℕ)
        → Course r operation at world bus
            (answer config fingerprint compact r at result version (context_of world) world bus)
    repeated :
        (cached : CachedCommandResult A)
        → Course r operation at world bus
            (record { reply = cached.reply; bus = opened r at bus; world = world })
    called :
        refusal fingerprint compact r (context_of world) ≡ none
        → cached_for r at bus ≡ none
        → Course r operation at world bus
            (call config fingerprint compact context_of r operation at world bus)

  pub execute-Course :
      (r : Request P) (operation : W → Outcome A × W) (at : Surroundings) (world : W)
      (bus : Bus P A)
      → Course r operation at world bus
          (execute config fingerprint compact context_of r operation at world bus)
  unfolding execute
  execute-Course r operation at world bus =
      elim (Option-cases (refusal fingerprint compact r (context_of world))) [
        | inr (e, refuses) ↦
            rw (refuses, execute) (refused (error e) (context_of world).state_version)
        | inl passes ↦ elim (Option-cases (cached_for r at bus)) [
          | inl absent ↦ rw (passes, absent, execute) (called passes absent)
          | inr (cached, found) ↦
              elim (Bool-cases (matches fingerprint compact r (context_of world) cached)) [
                | inl t ↦ rw (passes, found, t, execute) (repeated cached)
                | inr t ↦
                    rw (passes, found, t, execute)
                      (refused (error idempotency_conflict) (context_of world).state_version)
              ]
        ]
      ]

  answer-IsWithin :
      (r : Request P) (at : Surroundings) (result : ActionResult A) (version : ℕ) (ctx : Context)
      (world : W) (bus : Bus P A)
      → IsWithin config bus
      → IsWithin config (answer config fingerprint compact r at result version ctx world bus).bus
  unfolding answer
  answer-IsWithin r at result version ctx world bus h =
      remember-IsWithin config fingerprint compact r at _ _ (opened-IsWithin config r at bus h)

  Course-IsWithin :
      (r : Request P) (operation : W → Outcome A × W) (at : Surroundings) (world : W)
      (bus : Bus P A) (turn : Turn P A W)
      → Course r operation at world bus turn
      → IsWithin config bus
      → IsWithin config turn.bus
  unfolding call
  Course-IsWithin r operation at world bus _ (refused result version) h =
      answer-IsWithin r at result version (context_of world) world bus h
  Course-IsWithin r operation at world bus _ (repeated cached) h = opened-IsWithin config r at bus h
  Course-IsWithin r operation at world bus _ (called _ _) h = answer-IsWithin r at _ _ _ _ bus h

  -- Whatever a call is given and however it goes, the trace stays within maxTraceEntries and the
  -- cache within maxCacheEntries, or one entry where that is 0.
  pub execute-IsWithin :
      (r : Request P) (operation : W → Outcome A × W) (at : Surroundings) (world : W)
      (bus : Bus P A)
      → IsWithin config bus
      → IsWithin config (execute config fingerprint compact context_of r operation at world bus).bus
  execute-IsWithin r operation at world bus =
      Course-IsWithin r operation at world bus _ (execute-Course r operation at world bus)

  Course-world :
      (r : Request P) (operation : W → Outcome A × W) (at : Surroundings) (world : W)
      (bus : Bus P A) (turn : Turn P A W)
      → Course r operation at world bus turn
      → (turn.world ≡ world)
        ⊎ ((refusal fingerprint compact r (context_of world) ≡ none)
            × (cached_for r at bus ≡ none)
            × (turn.world ≡ (operation world).1))
  unfolding answer call
  Course-world r operation at world bus _ (refused result version) = inl refl
  Course-world r operation at world bus _ (repeated cached) = inl refl
  Course-world r operation at world bus _ (called passes absent) = inr (passes, absent, refl)

  -- A call leaves the world as it was, or it passed every check, found no result under its key, and
  -- leaves the world as the operation left it: the operation ran once.
  pub execute-world :
      (r : Request P) (operation : W → Outcome A × W) (at : Surroundings) (world : W)
      (bus : Bus P A)
      → let turn = execute config fingerprint compact context_of r operation at world bus in
        (turn.world ≡ world)
        ⊎ ((refusal fingerprint compact r (context_of world) ≡ none)
            × (cached_for r at bus ≡ none)
            × (turn.world ≡ (operation world).1))
  execute-world r operation at world bus =
      Course-world r operation at world bus _ (execute-Course r operation at world bus)

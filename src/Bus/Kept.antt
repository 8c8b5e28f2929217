-- ===== src/Bus/Kept.antt =====
-- An entry of the command bus's cache (app/domain/commandBus.ts) that stays while other calls come: the
-- cache has room, and the entry has not expired.
use furima_sandbox.Prelude.{
  ℕ, suc, ◌+◌, ◌≤◌, ◌<◌, Option, some, List, [], ◌∷◌, ◌≡◌, ◌⊎◌, length, inl, inr, Option-cases,
  Bool-cases, arith, false,
}
use furima_sandbox.Text.{Text}
use furima_sandbox.Engine.Ident.{Ident, same}
use furima_sandbox.Engine.Action.{ActionResult}
use furima_sandbox.Bus.Records.{
  Context, Request, Sealed, Reply, Outcome, CachedCommandResult, Bus, BusConfig, Surroundings,
}
use furima_sandbox.Bus.Cache.{
  lookup, set_entry, store, prune, lookup-prune, length-prune-le, length-set_entry,
}
use furima_sandbox.Bus.Execute.{
  Turn, remember_in_cache, remember, opened, answer, call, usable_key, decorate, metadata,
}
use furima_sandbox.Bus.Bounds.{Course, refused, repeated, called}

-- A result lies under the key and is kept past the deadline.
pub record IsKept {A : Type 0} (key : Ident) (deadline : ℕ)
    (cache : List (Ident × CachedCommandResult A)) : Type 0 where
  pub entry : CachedCommandResult A
  pub found : lookup key cache ≡ some entry
  pub fresh : deadline < entry.expires_at

module _ {A : Type 0} where
  lookup-elsewhere :
      (key j : Ident) (old v : CachedCommandResult A) (rest : List (Ident × CachedCommandResult A))
      → same j key ≡ false
      → lookup key ((j, v) ∷ rest) ≡ some old
      → lookup key rest ≡ some old
  unfolding lookup
  lookup-elsewhere key j old v rest elsewhere found = ground arith

  -- What lies under a key after a write, to it or to another key.
  lookup-set_entry-either :
      (key k : Ident) (old entry : CachedCommandResult A)
      (cache : List (Ident × CachedCommandResult A))
      → lookup key cache ≡ some old
      → (lookup key (set_entry k entry cache) ≡ some old)
        ⊎ (lookup key (set_entry k entry cache) ≡ some entry)
  unfolding lookup set_entry
  lookup-set_entry-either key k old entry [] found = absurd (ground arith)
  lookup-set_entry-either key k old entry ((j, v) ∷ rest) found = elim (Bool-cases (same j key)) [
    | inl here ↦ ground arith
    | inr elsewhere ↦
        let later =
          lookup-set_entry-either key k old entry rest
            (lookup-elsewhere key j old v rest elsewhere found) in
        ground arith
  ]

  -- A write to a cache that is not full evicts nothing.
  store-room :
      (limit : ℕ) (key : Ident) (entry : CachedCommandResult A)
      (cache : List (Ident × CachedCommandResult A))
      → length cache < limit
      → store limit key entry cache ≡ set_entry key entry cache
  unfolding store
  store-room limit key entry cache room = ground arith

  length-store-suc :
      (limit : ℕ) (key : Ident) (entry : CachedCommandResult A)
      (cache : List (Ident × CachedCommandResult A))
      → length cache < limit
      → length (store limit key entry cache) ≤ suc (length cache)
  length-store-suc limit key entry cache room =
      rw (store-room limit key entry cache room)
        (let size = length-set_entry key entry cache in ground arith)

  store-IsKept :
      (limit : ℕ) (k : Ident) (entry : CachedCommandResult A)
      (cache : List (Ident × CachedCommandResult A)) {key : Ident} {deadline : ℕ}
      → length cache < limit
      → deadline < entry.expires_at
      → IsKept key deadline cache
      → IsKept key deadline (store limit k entry cache)
  store-IsKept limit k entry cache {key} room late h =
      rw (store-room limit k entry cache room)
        (elim (lookup-set_entry-either key k h.entry entry cache h.found) [
          | inl old ↦ record { entry = h.entry; found = old; fresh = h.fresh }
          | inr new ↦ record { entry = entry; found = new; fresh = late }
        ])

  prune-IsKept :
      (now : ℕ) (cache : List (Ident × CachedCommandResult A)) {key : Ident} {deadline : ℕ}
      → now ≤ deadline
      → IsKept key deadline cache
      → IsKept key deadline (prune now cache)
  prune-IsKept now cache {key} early h = record {
    entry = h.entry;
    found = lookup-prune key now h.entry cache h.found (omega (arith, early, h.fresh));
    fresh = h.fresh;
  }

-- The call comes by the deadline, and what it stores is kept past it.
pub record IsTimely (config : BusConfig) (deadline : ℕ) (at : Surroundings) : Type 0 where
  pub pruned : at.pruned_at ≤ deadline
  pub cached : deadline < at.cached_at + config.ttl_ms

module _ {P A : Type 0} (config : BusConfig) (fingerprint : Sealed P → Option Text)
    (compact : P → P) where
  -- `remember` writes nothing, or one entry that expires after the deadline.
  remember_in_cache-keeps :
      (r : Request P) (at : Surroundings) (reply : Reply A)
      (cache : List (Ident × CachedCommandResult A)) {key : Ident} {deadline : ℕ}
      → length cache < config.max_cache_entries
      → deadline < at.cached_at + config.ttl_ms
      → IsKept key deadline cache
      → IsKept key deadline (remember_in_cache config fingerprint compact r at reply cache)
  unfolding remember_in_cache
  remember_in_cache-keeps r at reply cache room late h =
      elim (Option-cases (usable_key r.options)) [
        | inl e ↦ rw (e, remember_in_cache) h
        | inr (k, e) ↦
            elim (Option-cases (
              fingerprint (record {
                sandbox_id = reply.meta.sandbox_id;
                actor_id = reply.meta.actor_id;
                command = r.command;
                mode = reply.meta.mode;
                payload = compact r.payload;
              }))) [
                | inl f ↦ rw (e, f, remember_in_cache) h
                | inr (print, f) ↦
                    rw (e, f, remember_in_cache) (store-IsKept _ k _ cache room late h)
              ]
      ]

  length-remember_in_cache :
      (r : Request P) (at : Surroundings) (reply : Reply A)
      (cache : List (Ident × CachedCommandResult A))
      → length cache < config.max_cache_entries
      → length (remember_in_cache config fingerprint compact r at reply cache) ≤ suc (length cache)
  unfolding remember_in_cache
  length-remember_in_cache r at reply cache room = elim (Option-cases (usable_key r.options)) [
    | inl e ↦ rw (e, remember_in_cache) (omega arith)
    | inr (k, e) ↦
        elim (Option-cases (
          fingerprint (record {
            sandbox_id = reply.meta.sandbox_id;
            actor_id = reply.meta.actor_id;
            command = r.command;
            mode = reply.meta.mode;
            payload = compact r.payload;
          }))) [
            | inl f ↦ rw (e, f, remember_in_cache) (omega arith)
            | inr (print, f) ↦ rw (e, f, remember_in_cache) (length-store-suc _ k _ cache room)
          ]
  ]

module _ {P A W : Type 0} (config : BusConfig) (fingerprint : Sealed P → Option Text)
    (compact : P → P) (context_of : W → Context) where
  answer-keeps :
      (r : Request P) (at : Surroundings) (result : ActionResult A) (version : ℕ) (ctx : Context)
      (world : W) (bus : Bus P A) {key : Ident} {deadline : ℕ}
      → length bus.cache < config.max_cache_entries
      → IsTimely config deadline at
      → IsKept key deadline bus.cache
      → IsKept key deadline
          (answer config fingerprint compact r at result version ctx world bus).bus.cache
  unfolding answer remember opened
  answer-keeps r at result version ctx world bus room timely h =
      remember_in_cache-keeps config fingerprint compact r at _ (prune at.pruned_at bus.cache)
        (omega (arith, room, length-prune-le at.pruned_at bus.cache)) timely.cached
        (prune-IsKept at.pruned_at bus.cache timely.pruned h)

  pub length-answer :
      (r : Request P) (at : Surroundings) (result : ActionResult A) (version : ℕ) (ctx : Context)
      (world : W) (bus : Bus P A)
      → length bus.cache < config.max_cache_entries
      → length (answer config fingerprint compact r at result version ctx world bus).bus.cache
        ≤ suc (length bus.cache)
  unfolding answer remember opened
  length-answer r at result version ctx world bus room =
      let pruned = length-prune-le at.pruned_at bus.cache in
      let step =
        length-remember_in_cache config fingerprint compact r at
          (decorate result version (metadata r ctx at.uuid bus.sequence))
          (prune at.pruned_at bus.cache) (omega (arith, room, pruned)) in
      omega (arith, step, pruned)

  pub Course-keeps :
      (r : Request P) (operation : W → Outcome A × W) (at : Surroundings) (world : W)
      (bus : Bus P A) (turn : Turn P A W) {key : Ident} {deadline : ℕ}
      → Course config fingerprint compact context_of r operation at world bus turn
      → length bus.cache < config.max_cache_entries
      → IsTimely config deadline at
      → IsKept key deadline bus.cache
      → IsKept key deadline turn.bus.cache × (length turn.bus.cache ≤ suc (length bus.cache))
  unfolding call opened
  Course-keeps r operation at world bus _ (refused result version) room timely h = (
    answer-keeps r at result version (context_of world) world bus room timely h,
    length-answer r at result version (context_of world) world bus room,
  )
  Course-keeps r operation at world bus _ (repeated cached) room timely h = (
    prune-IsKept at.pruned_at bus.cache timely.pruned h,
    omega (arith, length-prune-le at.pruned_at bus.cache),
  )
  Course-keeps r operation at world bus _ (called _ _) room timely h =
      (answer-keeps r at _ _ _ _ bus room timely h, length-answer r at _ _ _ _ bus room)

-- ===== src/Bus/Once.antt =====
-- How often the command bus of app/domain/commandBus.ts lets an operation run under one key.
use furima_sandbox.Prelude.{
  ℕ, suc, ◌+◌, ◌≤◌, ◌<◌, Option, none, some, List, [], ◌∷◌, ◌≡◌, sym, ◌∙◌, length, inl, inr, arith,
}
use furima_sandbox.Text.{Text}
use furima_sandbox.Engine.Ident.{Ident}
use furima_sandbox.Bus.Records.{
  CachedCommandResult, Context, Request, Sealed, Outcome, Bus, BusConfig, Surroundings,
}
use furima_sandbox.Bus.Execute.{refusal, cached_for, call, execute, usable_key, sealed_with}
use furima_sandbox.Bus.Bounds.{execute-Course, execute-world}
use furima_sandbox.Bus.Kept.{IsKept, IsTimely, length-answer, Course-keeps}
use furima_sandbox.Bus.Replay.{call-lookup, execute-call, cached_for-hit}

-- A call of the bus and the moment it comes.
pub record Call (P A W : Type 0) : Type 0 where
  pub request : Request P
  pub operation : W → Outcome A × W
  pub at : Surroundings

abbrev pub AreTimely : {P A W : Type 0} → BusConfig → ℕ → List (Call P A W) → Type 0
AreTimely config deadline [] = Unit
AreTimely config deadline (c ∷ calls) =
    IsTimely config deadline c.at × AreTimely config deadline calls

absent≢found :
    {A : Type 0} {c : CachedCommandResult A}
    → ◌≡◌ {A = Option (CachedCommandResult A)} none (some c)
    → ⊥
absent≢found e = ground arith

module _ {P A W : Type 0} (config : BusConfig) (fingerprint : Sealed P → Option Text)
    (compact : P → P) (context_of : W → Context) where
  -- Calls of the bus, one after the other.
  unfoldable pub execute_all : List (Call P A W) → W × Bus P A → W × Bus P A
  execute_all [] (world, bus) = (world, bus)
  execute_all (c ∷ calls) (world, bus) =
      let turn =
        execute config fingerprint compact context_of c.request c.operation c.at world bus in
      execute_all calls (turn.world, turn.bus)

  execute_all-keeps :
      (calls : List (Call P A W)) (world : W) (bus : Bus P A) {key : Ident} {deadline : ℕ}
      → length bus.cache + length calls ≤ config.max_cache_entries
      → AreTimely config deadline calls
      → IsKept key deadline bus.cache
      → IsKept key deadline (execute_all calls (world, bus)).1.cache
  unfolding execute_all
  execute_all-keeps [] world bus room timely h = h
  execute_all-keeps (c ∷ calls) world bus room (timely, others) h =
      let (kept, grown) =
        Course-keeps config fingerprint compact context_of c.request c.operation c.at world bus _
          (execute-Course config fingerprint compact context_of c.request c.operation c.at world
            bus)
          (omega arith) timely h in
      execute_all-keeps calls _ _ (omega arith) others kept

  -- A request whose key has an entry does not run.
  kept-stays :
      (r : Request P) (operation : W → Outcome A × W) (at : Surroundings) (world : W)
      (bus : Bus P A) {key : Ident} {deadline : ℕ}
      → usable_key r.options ≡ some key
      → at.pruned_at ≤ deadline
      → IsKept key deadline bus.cache
      → (execute config fingerprint compact context_of r operation at world bus).world ≡ world
  kept-stays r operation at world bus {key} keyed early h =
      elim (execute-world config fingerprint compact context_of r operation at world bus) [
        | inl stays ↦ stays
        | inr (_, absent, _) ↦ absurd (
            absent≢found (
              sym absent
              ∙ cached_for-hit r at bus key h.entry keyed h.found (omega (arith, early, h.fresh))))
      ]

  call-IsKept :
      (r : Request P) (operation : W → Outcome A × W) (at : Surroundings) (world : W)
      (bus : Bus P A) (key : Ident) (print : Text) {deadline : ℕ}
      → usable_key r.options ≡ some key
      → fingerprint (sealed_with compact r (context_of world)) ≡ some print
      → deadline < at.cached_at + config.ttl_ms
      → IsKept key deadline
          (call config fingerprint compact context_of r operation at world bus).bus.cache
  call-IsKept r operation at world bus key print keyed printed late = record {
    entry = _;
    found =
        call-lookup config fingerprint compact context_of r operation at world bus key print keyed
          printed;
    fresh = late;
  }

  length-call :
      (r : Request P) (operation : W → Outcome A × W) (at : Surroundings) (world : W)
      (bus : Bus P A)
      → length bus.cache < config.max_cache_entries
      → length (call config fingerprint compact context_of r operation at world bus).bus.cache
        ≤ suc (length bus.cache)
  unfolding call
  length-call r operation at world bus room =
      length-answer config fingerprint compact context_of r at _ _ _ _ bus room

  -- A call whose request has a key passes the checks, finds no result under the key and so runs its
  -- operation. Further calls follow, with any requests, with that key or others, and any operations,
  -- fewer than the cache has free entries, and none after a deadline before which neither the first
  -- call's entry nor theirs expires. Then a request with that key, whatever its payload, that comes by
  -- the deadline does not change the world: its operation does not run.
  pub execute_all-once :
      (first again : Request P) (operation retried : W → Outcome A × W) (at later : Surroundings)
      (world : W) (bus : Bus P A) (key : Ident) (print : Text) (deadline : ℕ)
      (calls : List (Call P A W))
      → usable_key first.options ≡ some key
      → fingerprint (sealed_with compact first (context_of world)) ≡ some print
      → refusal fingerprint compact first (context_of world) ≡ none
      → cached_for first at bus ≡ none
      → length bus.cache + length calls < config.max_cache_entries
      → deadline < at.cached_at + config.ttl_ms
      → AreTimely config deadline calls
      → usable_key again.options ≡ some key
      → later.pruned_at ≤ deadline
      → let turn = execute config fingerprint compact context_of first operation at world bus in
        let reached = execute_all calls (turn.world, turn.bus) in
        (execute config fingerprint compact context_of again retried later reached.0
          reached.1).world
        ≡ reached.0
  execute_all-once first again operation retried at later world bus key print deadline calls keyed
        printed passes absent room late timely keyed' early =
      rw
        (execute-call config fingerprint compact context_of first operation at world bus passes
          absent)
        (kept-stays again retried later _ _ keyed' early (
          execute_all-keeps calls _ _
            (omega (arith, room, length-call first operation at world bus (omega arith))) timely
            (call-IsKept first operation at world bus key print keyed printed late)))

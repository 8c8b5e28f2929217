-- ===== src/Bus/Cache.antt =====
-- The Map of the command bus (app/domain/commandBus.ts) as a list in the order of insertion, and the
-- writes to it.
use furima_sandbox.Prelude.{
  ℕ, suc, ◌-◌, ◌≤◌, ◌<◌, max, Bool, true, false, not, ◌&&◌, Option, none, some, List, [], ◌∷◌, ◌≡◌,
  refl, leb, length, keep, arith, if◌then◌else◌,
}
use furima_sandbox.Engine.Ident.{Ident, same, same_refl}
use furima_sandbox.Bus.Records.{CachedCommandResult}

module _ {A : Type 0} where
  -- cache.get(key)
  unfoldable pub lookup :
      Ident → List (Ident × CachedCommandResult A) → Option (CachedCommandResult A)
  lookup key [] = none
  lookup key ((k, entry) ∷ rest) = if same k key then some entry else lookup key rest

  -- cache.has(key)
  abbrev pub has : Ident → List (Ident × CachedCommandResult A) → Bool
  has key cache = elim (lookup key cache) [ none ↦ false | some _ ↦ true ]

  -- cache.set(key, entry): an entry that is there keeps its place.
  unfoldable pub set_entry :
      Ident
      → CachedCommandResult A
      → List (Ident × CachedCommandResult A)
      → List (Ident × CachedCommandResult A)
  set_entry key entry [] = (key, entry) ∷ []
  set_entry key entry ((k, old) ∷ rest) =
      let others = set_entry key entry rest in
      if same k key then (k, entry) ∷ rest else (k, old) ∷ others

  -- cache.delete(key)
  unfoldable pub delete_key :
      Ident → List (Ident × CachedCommandResult A) → List (Ident × CachedCommandResult A)
  delete_key key cache = keep (λ (k, _). not (same k key)) cache

  -- cache.delete(cache.keys().next().value)
  unfoldable pub delete_oldest :
      List (Ident × CachedCommandResult A) → List (Ident × CachedCommandResult A)
  delete_oldest [] = []
  delete_oldest ((k, entry) ∷ rest) = delete_key k ((k, entry) ∷ rest)

  -- The eviction and the write of `remember`.
  unfoldable pub store :
      ℕ
      → Ident
      → CachedCommandResult A
      → List (Ident × CachedCommandResult A)
      → List (Ident × CachedCommandResult A)
  store limit key entry cache =
      set_entry key entry
        (if leb limit (length cache) && not (has key cache) then delete_oldest cache else cache)

  -- pruneCache
  unfoldable pub prune :
      ℕ → List (Ident × CachedCommandResult A) → List (Ident × CachedCommandResult A)
  prune now cache = keep (λ (_, entry). not (leb entry.expires_at now)) cache

  pub lookup-set_entry :
      (key : Ident) (entry : CachedCommandResult A) (cache : List (Ident × CachedCommandResult A))
      → lookup key (set_entry key entry cache) ≡ some entry
  unfolding lookup set_entry
  lookup-set_entry key entry [] = let own = same_refl key in ground arith
  lookup-set_entry key entry ((k, old) ∷ rest) =
      let rest_lem = lookup-set_entry key entry rest in ground arith

  pub lookup-prune :
      (key : Ident) (now : ℕ) (entry : CachedCommandResult A)
      (cache : List (Ident × CachedCommandResult A))
      → lookup key cache ≡ some entry
      → now < entry.expires_at
      → lookup key (prune now cache) ≡ some entry
  unfolding lookup prune
  lookup-prune key now entry [] found fresh = found
  lookup-prune key now entry ((k, old) ∷ rest) found fresh =
      let rest_lem = lookup-prune key now entry rest in ground arith

  length-keep-le :
      (test : Ident × CachedCommandResult A → Bool) (cache : List (Ident × CachedCommandResult A))
      → length (keep test cache) ≤ length cache
  length-keep-le test [] = omega arith
  length-keep-le test (x ∷ rest) = let rest_lem = length-keep-le test rest in ground arith

  pub length-prune-le :
      (now : ℕ) (cache : List (Ident × CachedCommandResult A))
      → length (prune now cache) ≤ length cache
  unfolding prune
  length-prune-le now cache = length-keep-le _ cache

  pub length-set_entry :
      (key : Ident) (entry : CachedCommandResult A) (cache : List (Ident × CachedCommandResult A))
      → length (set_entry key entry cache)
        ≡ (if has key cache then length cache else suc (length cache))
  unfolding lookup set_entry
  length-set_entry key entry [] = refl
  length-set_entry key entry ((k, old) ∷ rest) =
      let rest_lem = length-set_entry key entry rest in ground arith

  -- A cache of one entry or more loses one or more.
  length-delete_oldest-le :
      (cache : List (Ident × CachedCommandResult A))
      → length (delete_oldest cache) ≤ length cache - 1
  unfolding delete_oldest delete_key
  length-delete_oldest-le [] = omega arith
  length-delete_oldest-le ((k, entry) ∷ rest) =
      let rest_lem = length-keep-le (λ (j, _). not (same j k)) rest in
      let own = same_refl k in ground arith

  -- The eviction leaves room for a new key.
  pub length-store-le :
      (limit : ℕ) (key : Ident) (entry : CachedCommandResult A)
      (cache : List (Ident × CachedCommandResult A))
      → length cache ≤ max 1 limit
      → length (store limit key entry cache) ≤ max 1 limit
  unfolding store
  length-store-le limit key entry cache bound =
      let size = length-set_entry key entry cache in
      let size' = length-set_entry key entry (delete_oldest cache) in
      let fewer = length-delete_oldest-le cache in ground arith

  pub lookup-store :
      (limit : ℕ) (key : Ident) (entry : CachedCommandResult A)
      (cache : List (Ident × CachedCommandResult A))
      → lookup key (store limit key entry cache) ≡ some entry
  unfolding store
  lookup-store limit key entry cache = lookup-set_entry key entry _

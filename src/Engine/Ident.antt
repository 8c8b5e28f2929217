-- ===== src/Engine/Ident.antt =====
-- Identifiers and references of app/domain/sandboxEngine.ts: fixed texts, and the template strings
-- that the engine builds. A template is kept as its parts, since the engine only compares the
-- resulting strings.
use furima_sandbox.Prelude.{ℕ, Bool, true, false, ◌≡◌, ℕ_discrete, arith}
use furima_sandbox.Text.{Text, Text-discrete, is_empty}

pub data Ident : Type 0 where
  literal : Text → Ident
  minted : Text → Text → ℕ → Ident  -- `${prefix}-${seed}-${counter}`
  auction_hold : Ident → Ident → Ident  -- `auction:${itemId}:${bidderId}`
  wallet_of : Ident → Ident  -- `wallet:${actorId}`
  upper : Ident → Ident  -- id.toUpperCase()
  seed_in : Ident → Ident  -- `seed-in-${itemId}`
  seed_out : Ident → Ident  -- `seed-out-${itemId}`
  tracking : Ident → Ident  -- `SBX-${id.slice(-8).toUpperCase()}`

unfoldable pub Ident-discrete : Discrete Ident
unfolding ℕ_discrete Text-discrete
Ident-discrete = hlevel (ℕ_discrete, Text-discrete)

-- a === b
abbrev pub same : Ident → Ident → Bool
same a b = elim (Ident-discrete a b) [ yes _ ↦ true | no _ ↦ false ]

pub same_refl : (k : Ident) → same k k ≡ true
same_refl k = ground arith

-- The empty string is the one string that JavaScript takes for false.
abbrev pub is_blank : Ident → Bool
is_blank (literal t) = is_empty t
is_blank (minted _ _ _) = false
is_blank (auction_hold _ _) = false
is_blank (wallet_of _) = false
is_blank (upper _) = false
is_blank (tracking _) = false
is_blank (seed_in _) = false
is_blank (seed_out _) = false

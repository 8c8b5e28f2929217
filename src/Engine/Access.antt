-- ===== src/Engine/Access.antt =====
-- The checks that every command makes of its options and its actor: validateOptions,
-- validateControlOptions, actorFor and the role tests of app/domain/sandboxEngine.ts. Absent options
-- are options with no field set.
pub mod Principals
use furima_sandbox.Prelude.{
  or_else, ℕ, Bool, true, false, not, ◌&&◌, Option, none, some, List, any, ◌==◌, if◌then◌else◌,
}
use furima_sandbox.Engine.Ident.{Ident, same, is_blank}
use furima_sandbox.Engine.Records.{ActorRole, guest, buyer, seller, admin, platform, SandboxActor}
use furima_sandbox.Engine.State.{EngineState, find_actor}
use furima_sandbox.Engine.Action.{
  AgentErrorCode, state_conflict, invalid_actor, forbidden, auth_required, Action, ◌>>=◌, ◌>>◌,
  gets, reject_with, require,
}

pub data Scope : Type 0 where
  user operator sandbox_control : Scope

-- `trusted` says that the object was registered by createTrustedPrincipal.
pub record ExecutionPrincipal : Type 0 where
  pub actor_id : Ident
  pub roles : List ActorRole
  pub scopes : List Scope
  pub trusted : Bool

pub record AgentActionOptions : Type 0 where
  pub expected_state_version : Option ℕ
  pub actor_id : Option Ident
  pub target_actor_id : Option Ident
  pub principal : Option ExecutionPrincipal

abbrev pub no_options : AgentActionOptions
no_options = record {
  expected_state_version = none;
  actor_id = none;
  target_actor_id = none;
  principal = none;
}

abbrev pub role_eq : ActorRole → ActorRole → Bool
role_eq guest guest = true
role_eq buyer buyer = true
role_eq seller seller = true
role_eq admin admin = true
role_eq platform platform = true
role_eq _ _ = false

abbrev pub is_control : Scope → Bool
is_control sandbox_control = true
is_control user = false
is_control operator = false

abbrev principal_actor : AgentActionOptions → Option Ident
principal_actor o = elim o.principal [ none ↦ none | some p ↦ some p.actor_id ]

-- options?.principal?.actorId ?? options?.targetActorId ?? options?.actorId
abbrev requested_actor : AgentActionOptions → Option Ident
requested_actor o = or_else (principal_actor o) (or_else o.target_actor_id o.actor_id)

-- currentActor
current_actor : EngineState → Option Ident → Option SandboxActor
unfolding find_actor
current_actor s none = find_actor s s.current_actor_id
current_actor s (some k) = find_actor s k

-- actorFor
unfoldable pub actor_for : AgentActionOptions → EngineState → Option SandboxActor
unfolding current_actor
actor_for o s = current_actor s (requested_actor o)

-- A given id that is not the empty string.
abbrev given : Option Ident → Bool
given none = false
given (some k) = not (is_blank k)

is_missing : {A : Type 0} → Option A → Bool
is_missing none = true
is_missing (some _) = false

unfoldable pub stale_version : Option ℕ → ℕ → Bool
stale_version none version = false
stale_version (some expected) version = not (expected == version)

-- Whether a given id differs from another.
unfoldable pub other_than : Option Ident → Ident → Bool
other_than none k = false
other_than (some j) k = not (is_blank j) && not (same j k)

has_role_of : ExecutionPrincipal → Option SandboxActor → Bool
has_role_of p none = false
has_role_of p (some a) = any (role_eq a.role) p.roles

principal_error : AgentActionOptions → ExecutionPrincipal → EngineState → Option AgentErrorCode
unfolding current_actor has_role_of other_than
principal_error o p s =
    if not p.trusted
    then some forbidden
    else if not (has_role_of p (current_actor s (some p.actor_id)))
    then some forbidden
    else if other_than o.actor_id p.actor_id && not (any is_control p.scopes)
    then some forbidden
    else none

anonymous_error : AgentActionOptions → EngineState → Option AgentErrorCode
unfolding other_than
anonymous_error o s =
    if given o.target_actor_id
    then some forbidden
    else if other_than o.actor_id s.current_actor_id
    then some forbidden
    else none

-- validateOptions: the error, if there is one.
unfoldable pub validate_options : AgentActionOptions → EngineState → Option AgentErrorCode
unfolding stale_version is_missing current_actor principal_error anonymous_error
validate_options o s =
    if stale_version o.expected_state_version s.state_version
    then some state_conflict
    else if given (requested_actor o) && is_missing (current_actor s (requested_actor o))
    then some invalid_actor
    else elim o.principal [ none ↦ anonymous_error o s | some p ↦ principal_error o p s ]

abbrev pub is_operator : ActorRole → Bool
is_operator admin = true
is_operator platform = true
is_operator guest = false
is_operator buyer = false
is_operator seller = false

abbrev pub is_buyer : ActorRole → Bool
is_buyer buyer = true
is_buyer guest = false
is_buyer seller = false
is_buyer admin = false
is_buyer platform = false

-- actor?.authenticated
unfoldable pub signed_in : Option SandboxActor → Option SandboxActor
signed_in none = none
signed_in (some a) = if a.authenticated then some a else none

unfoldable pub has_control : AgentActionOptions → Bool
has_control o = elim o.principal [ none ↦ false | some p ↦ any is_control p.scopes ]

operates : Option SandboxActor → Bool
operates none = false
operates (some a) = a.authenticated && is_operator a.role

-- validateControlOptions
unfoldable pub validate_control_options : AgentActionOptions → EngineState → Option AgentErrorCode
unfolding validate_options has_control operates actor_for
validate_control_options o s = elim (validate_options o s) [
  | some e ↦ some e
  | none ↦
      if not (has_control o)
      then some forbidden
      else if not (operates (actor_for o s))
      then some forbidden
      else none
]

-- The two checks at the head of most commands: the options, then a signed-in actor.
unfoldable pub authenticate : AgentActionOptions → Action SandboxActor
unfolding signed_in
authenticate o = do
  invalid ← gets (validate_options o)
  reject_with invalid
  found ← gets (actor_for o)
  require (signed_in found) auth_required

-- ===== src/Engine/Access/Principals.antt =====
-- Who a command acts for, once validateOptions (app/domain/sandboxEngine.ts) has let it pass.
use furima_sandbox.Prelude.{
  Option, Bool-cases, true, false, any, none, some, ◌≡◌, refl, ◌⊎◌, inl, inr, arith, Option-cases,
}
use furima_sandbox.Engine.Records.{SandboxActor}
use furima_sandbox.Engine.State.{EngineState, find_actor}
use furima_sandbox.Engine.Action.{AgentErrorCode, forbidden}
use furima_sandbox.Engine.Access.{
  AgentActionOptions, ExecutionPrincipal, signed_in, has_control, operates,
  validate_control_options, stale_version, is_control, role_eq, actor_for, validate_options,
  principal_error, current_actor, has_role_of, other_than,
}

-- A command that comes with a principal and passes: the principal is trusted, the expected version is
-- the state's or absent, and the command acts for the principal's own actor, who has one of the
-- principal's roles. An actor id that names somebody else passes only with the control scope.
pub validate_options-principal :
    (o : AgentActionOptions) (p : ExecutionPrincipal) (s : EngineState)
    → o.principal ≡ some p
    → validate_options o s ≡ none
    → (stale_version o.expected_state_version s.state_version ≡ false)
      × (p.trusted ≡ true)
      × ((a : SandboxActor) × (actor_for o s ≡ some a)
          × (find_actor s p.actor_id ≡ some a)
          × (any (role_eq a.role) p.roles ≡ true))
      × ((other_than o.actor_id p.actor_id ≡ false) ⊎ (any is_control p.scopes ≡ true))
unfolding validate_options principal_error current_actor has_role_of actor_for
validate_options-principal o p s e valid = elim (Option-cases (find_actor s p.actor_id)) [
  | inl missing ↦ absurd (ground arith)
  | inr (a, found) ↦ ground arith
]

nobody_operates : (a : Option SandboxActor) → signed_in a ≡ none → operates a ≡ false
unfolding signed_in operates
nobody_operates none h = refl
nobody_operates (some a) h = ground arith

-- The caller does not pass the checks: the options are invalid, or nobody is signed in.
abbrev pub IsTurnedAway : AgentActionOptions → EngineState → Type 0
IsTurnedAway o s =
    ((e : AgentErrorCode) × (validate_options o s ≡ some e)) ⊎ (signed_in (actor_for o s) ≡ none)

pub validate_control_options-invalid :
    (o : AgentActionOptions) (s : EngineState)
    → IsTurnedAway o s
    → (e : AgentErrorCode) × (validate_control_options o s ≡ some e)
unfolding validate_control_options
validate_control_options-invalid o s (inl (e, invalid)) =
    (e, rw (invalid, validate_control_options) refl)
validate_control_options-invalid o s (inr absent) = elim (Option-cases (validate_options o s)) [
  | inr (e, invalid) ↦ (e, rw (invalid, validate_control_options) refl)
  | inl valid ↦ elim (Bool-cases (has_control o)) [
    | inr c ↦ (forbidden, rw (valid, validate_control_options, c) refl)
    | inl c ↦ (
      forbidden,
      rw (valid, validate_control_options, c, nobody_operates (actor_for o s) absent) refl,
    )
  ]
]

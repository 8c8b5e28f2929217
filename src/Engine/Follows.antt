-- ===== src/Engine/Follows.antt =====
-- Follow relations: followSummaryFor, followActor, getFollowSummary, followUser and unfollowUser of
-- app/domain/sandboxEngine.ts.
use furima_sandbox.Prelude.{
  ℕ, Bool, true, false, not, ◌&&◌, Option, none, some, [], ◌∷◌, ◌++◌, any, keep, find, length,
  if◌then◌else◌,
}
use furima_sandbox.Text.{text}
use furima_sandbox.Engine.Ident.{Ident, literal, same}
use furima_sandbox.Engine.Records.{SandboxActor, AggregateType, Value, FollowRelation}
use furima_sandbox.Engine.State.{EngineState, EventSpec, next_id, commit, find_actor}
use furima_sandbox.Engine.Action.{
  Action, ◌>>=◌, ◌>>◌, pure, gets, modify, run_helper, reject_if, require, reject_with, forbidden,
  follow_target_not_found, cannot_follow_self, already_following, not_following,
}
use furima_sandbox.Engine.Access.{
  AgentActionOptions, actor_for, authenticate, signed_in, is_operator, validate_options,
  has_control,
}

pub record FollowSummary : Type 0 where
  pub actor_id : Ident
  pub following_count : ℕ
  pub follower_count : ℕ
  pub is_following : Bool

pub record FollowMutationResult : Type 0 where
  pub actor_id : Ident
  pub target_actor_id : Ident
  pub following : Bool
  pub relation : Option FollowRelation
  pub summary : FollowSummary

-- follow.followerId === follower && follow.followeeId === followee
abbrev pub links : Ident → Ident → FollowRelation → Bool
links follower followee f = same f.follower_id follower && same f.followee_id followee

-- followSummaryFor
unfoldable pub follow_summary_for : Ident → Ident → EngineState → FollowSummary
follow_summary_for target viewer s = record {
  actor_id = target;
  following_count = length (keep (λ f. same f.follower_id target) s.follows);
  follower_count = length (keep (λ f. same f.followee_id target) s.follows);
  is_following = any (links viewer target) s.follows;
}

-- getCurrentActor
unfoldable pub get_current_actor : EngineState → Option SandboxActor
get_current_actor s = elim (find_actor s s.current_actor_id) [
  | some a ↦ some a
  | none ↦ elim s.actors [ [] ↦ none | a ∷ _ ↦ some a ]
]

-- Whether an actor may act on the follows: its own, or as an operator.
unfoldable pub is_outsider : AgentActionOptions → SandboxActor → Option SandboxActor → Bool
unfolding has_control
is_outsider o actor none = false
is_outsider o actor (some current) =
    not (same actor.id current.id)
    && not (is_operator current.role)
    && not (elim o.principal [ none ↦ false | some p ↦ p.trusted && has_control o ])

-- followActor
unfoldable pub follow_actor : AgentActionOptions → Action SandboxActor
follow_actor o = do
  actor ← authenticate o
  current ← gets get_current_actor
  reject_if (is_outsider o actor current) forbidden
  pure actor

-- viewer.authenticated ? viewer.id : 'guest'
unfoldable pub viewer_id : Option SandboxActor → Ident
viewer_id none = literal (text "guest")
viewer_id (some a) = if a.authenticated then a.id else literal (text "guest")

-- this.actorFor(options) ?? this.getCurrentActor()
unfoldable pub viewer_of : AgentActionOptions → EngineState → Option SandboxActor
viewer_of o s = elim (actor_for o s) [ some a ↦ some a | none ↦ get_current_actor s ]

-- getFollowSummary
unfoldable pub get_follow_summary : Ident → AgentActionOptions → Action FollowSummary
get_follow_summary actor_id o = do
  invalid ← gets (validate_options o)
  reject_with invalid
  found ← gets (λ s. find_actor s actor_id)
  target ← require (signed_in found) follow_target_not_found
  viewer ← gets (viewer_of o)
  gets (follow_summary_for target.id (viewer_id viewer))

follow_event : Bool → FollowRelation → EventSpec
follow_event created f = record {
  kind = if created then text "FOLLOW_CREATED" else text "FOLLOW_REMOVED";
  aggregate_type = AggregateType.system;
  aggregate_id = f.followee_id;
  actor_id = f.follower_id;
  payload =
      (text "relationId", Value.id f.id)
      ∷ (text "followerId", Value.id f.follower_id)
      ∷ (text "followeeId", Value.id f.followee_id)
      ∷ [];
}

-- The relation that is pushed.
unfoldable pub push_follow : Ident → Ident → EngineState → FollowRelation × EngineState
push_follow follower followee s =
    let (k, s') = next_id (text "follow") s in
    let relation : FollowRelation = record {
      id = k;
      follower_id = follower;
      followee_id = followee;
      created_at = s.now;
    } in
    (relation, record s' { follows = s'.follows ++ relation ∷ [] })

-- followUser from the tests of the two actors on.
unfoldable pub link : Ident → Ident → Action FollowMutationResult
unfolding follow_event
link follower followee = do
  reject_if (same followee follower) cannot_follow_self
  taken ← gets (λ s. any (links follower followee) s.follows)
  reject_if taken already_following
  relation ← run_helper (push_follow follower followee)
  run_helper (commit (follow_event true relation ∷ []))
  summary ← gets (follow_summary_for followee follower)
  pure (record {
    actor_id = follower;
    target_actor_id = followee;
    following = true;
    relation = some relation;
    summary = summary;
  })

-- follows.filter((follow) => follow.id !== relation.id)
unfoldable pub remove_follow : Ident → EngineState → EngineState
remove_follow k s = record s { follows = keep (λ f. not (same f.id k)) s.follows }

-- unfollowUser from the search of the relation on.
unfoldable pub unlink : Ident → Ident → Action FollowMutationResult
unfolding follow_event
unlink follower followee = do
  found ← gets (λ s. find (links follower followee) s.follows)
  relation ← require found not_following
  modify (remove_follow relation.id)
  run_helper (commit (follow_event false relation ∷ []))
  summary ← gets (follow_summary_for followee follower)
  pure (record {
    actor_id = follower;
    target_actor_id = followee;
    following = false;
    relation = none;
    summary = summary;
  })

-- followUser
unfoldable pub follow_user : Ident → AgentActionOptions → Action FollowMutationResult
follow_user target_id o = do
  actor ← follow_actor o
  found ← gets (λ s. find_actor s target_id)
  target ← require (signed_in found) follow_target_not_found
  link actor.id target.id

-- unfollowUser
unfoldable pub unfollow_user : Ident → AgentActionOptions → Action FollowMutationResult
unfollow_user target_id o = do
  actor ← follow_actor o
  found ← gets (λ s. find_actor s target_id)
  target ← require (signed_in found) follow_target_not_found
  unlink actor.id target.id

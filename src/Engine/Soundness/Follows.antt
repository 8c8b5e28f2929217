-- ===== src/Engine/Soundness/Follows.antt =====
-- The engine's invariant along followUser and unfollowUser, and the follow relations themselves
-- (app/domain/sandboxEngine.ts; assertInvariants names these checks follow-self and
-- follow-duplicate-pair).
use furima_sandbox.Prelude.{
  branch, ℕ, ◌≡◌, refl, sym, ap, ◌∙◌, subst, inl, inr, Bool, true, false, not, some, List, [], ◌∷◌,
  ◌++◌, any, keep, find, Bool-cases, arith,
}
use furima_sandbox.Text.{text}
use furima_sandbox.Engine.Ident.{Ident, same, same_refl}
use furima_sandbox.Engine.Records.{FollowRelation}
use furima_sandbox.Engine.State.{EngineState, EventSpec, next_id, stamp_events, commit}
use furima_sandbox.Engine.Action.{◌>>=◌, pure, gets, modify, run_helper, reject_if, require, fail}
use furima_sandbox.Engine.Action.Preserves.{Preserves, preserves_rules}
use furima_sandbox.Engine.Access.{AgentActionOptions, authenticate}
use furima_sandbox.Engine.Follows.{
  links, follow_actor, push_follow, link, remove_follow, unlink, follow_user, unfollow_user,
}
use furima_sandbox.Engine.Soundness.{Sound, Sound-frame, commit-Sound}
use furima_sandbox.Engine.Soundness.Reservations.{authenticate-Sound}

push_follow-Sound : (a b : Ident) (s : EngineState) → Sound s → Sound (push_follow a b s).1
unfolding push_follow next_id
push_follow-Sound a b s = Sound-frame s _ refl refl refl refl

remove_follow-Sound : (k : Ident) (s : EngineState) → Sound s → Sound (remove_follow k s)
unfolding remove_follow
remove_follow-Sound k s = Sound-frame s _ refl refl refl refl

follow_actor-Sound : (o : AgentActionOptions) → Preserves Sound (follow_actor o)
unfolding follow_actor
follow_actor-Sound o = search (preserves_rules, authenticate-Sound) depth 30

link-Sound : (a b : Ident) → Preserves Sound (link a b)
unfolding link
link-Sound a b = search (preserves_rules, push_follow-Sound, commit-Sound) depth 40

unlink-Sound : (a b : Ident) → Preserves Sound (unlink a b)
unfolding unlink
unlink-Sound a b = search (preserves_rules, remove_follow-Sound, commit-Sound) depth 40

pub follow_user-Sound : (k : Ident) (o : AgentActionOptions) → Preserves Sound (follow_user k o)
unfolding follow_user
follow_user-Sound k o = search (preserves_rules, follow_actor-Sound, link-Sound) depth 40

pub unfollow_user-Sound : (k : Ident) (o : AgentActionOptions) → Preserves Sound (unfollow_user k o)
unfolding unfollow_user
unfollow_user-Sound k o = search (preserves_rules, follow_actor-Sound, unlink-Sound) depth 40

-- No relation to oneself, and no two of the same pair.
abbrev pub AreProper : List FollowRelation → Type 0
AreProper [] = Unit
AreProper (f ∷ fs) =
    (same f.followee_id f.follower_id ≡ false)
    × (any (links f.follower_id f.followee_id) fs ≡ false)
    × AreProper fs

abbrev pub HasProperFollows : EngineState → Type 0
HasProperFollows s = AreProper s.follows

any-append :
    (test : FollowRelation → Bool) (fs : List FollowRelation) (r : FollowRelation)
    → any test fs ≡ false
    → test r ≡ false
    → any test (fs ++ r ∷ []) ≡ false
any-append test [] r none_ apart = ground arith
any-append test (f ∷ fs) r none_ apart = let rest = any-append test fs r in ground arith

other_pair :
    (f r : FollowRelation)
    → links r.follower_id r.followee_id f ≡ false
    → links f.follower_id f.followee_id r ≡ false
other_pair f r h = ground arith

-- A new relation at the end.
append-AreProper :
    (fs : List FollowRelation) (r : FollowRelation)
    → same r.followee_id r.follower_id ≡ false
    → any (links r.follower_id r.followee_id) fs ≡ false
    → AreProper fs
    → AreProper (fs ++ r ∷ [])
append-AreProper [] r apart fresh h = (apart, refl, tt)
append-AreProper (f ∷ fs) r apart fresh (own, alone, rest) = (
  own,
  any-append (links f.follower_id f.followee_id) fs r alone (other_pair f r (ground arith)),
  append-AreProper fs r apart (ground arith) rest,
)

any-keep :
    (test drop : FollowRelation → Bool) (fs : List FollowRelation)
    → any test fs ≡ false
    → any test (keep drop fs) ≡ false
any-keep test drop [] h = refl
any-keep test drop (f ∷ fs) h = let rest = any-keep test drop fs in ground arith

keep-AreProper :
    (test : FollowRelation → Bool) (fs : List FollowRelation)
    → AreProper fs
    → AreProper (keep test fs)
keep-AreProper test [] h = tt
keep-AreProper test (f ∷ fs) (own, alone, rest) =
    let kept = keep-AreProper test fs rest in
    let clear = any-keep (links f.follower_id f.followee_id) test fs alone in
    branch AreProper (test f) (own, clear, kept) kept

stamp_events-follows :
    (specs : List EventSpec) (correlation : Ident) (s : EngineState)
    → (stamp_events specs correlation s).1.follows ≡ s.follows
unfolding stamp_events next_id
stamp_events-follows [] correlation s = refl
stamp_events-follows (spec ∷ specs) correlation s = stamp_events-follows specs correlation _

commit-follows : (specs : List EventSpec) (s : EngineState) → (commit specs s).1.follows ≡ s.follows
unfolding commit next_id
commit-follows specs s = stamp_events-follows specs _ _

commit-HasProperFollows :
    (specs : List EventSpec) (s : EngineState)
    → HasProperFollows s
    → HasProperFollows (commit specs s).1
commit-HasProperFollows specs s h = subst AreProper (sym (commit-follows specs s)) h

push_follow-HasProperFollows :
    (a b : Ident) (s : EngineState)
    → same b a ≡ false
    → any (links a b) s.follows ≡ false
    → HasProperFollows s
    → HasProperFollows (push_follow a b s).1
unfolding push_follow next_id
push_follow-HasProperFollows a b s apart fresh h = append-AreProper s.follows _ apart fresh h

link-HasProperFollows : (a b : Ident) → Preserves HasProperFollows (link a b)
unfolding link ◌>>=◌ gets pure run_helper reject_if fail
link-HasProperFollows a b = record {
  after = λ s h. elim (Bool-cases (same b a)) [
    | inl t ↦ rw (t, link) h
    | inr t ↦ elim (Bool-cases (any (links a b) s.follows)) [
      | inl u ↦ rw (t, u, link) h
      | inr u ↦
          rw (t, u, link) (commit-HasProperFollows _ _ (push_follow-HasProperFollows a b s t u h))
    ]
  ];
}

remove_follow-HasProperFollows :
    (k : Ident) (s : EngineState) → HasProperFollows s → HasProperFollows (remove_follow k s)
unfolding remove_follow
remove_follow-HasProperFollows k s h = keep-AreProper (λ f. not (same f.id k)) s.follows h

unlink-HasProperFollows : (a b : Ident) → Preserves HasProperFollows (unlink a b)
unfolding unlink
unlink-HasProperFollows a b =
    search (preserves_rules, remove_follow-HasProperFollows, commit-HasProperFollows) depth 40

follow_actor-HasProperFollows :
    (o : AgentActionOptions) → Preserves HasProperFollows (follow_actor o)
unfolding follow_actor authenticate
follow_actor-HasProperFollows o = search (preserves_rules) depth 40

follow_user-keeps :
    (k : Ident) (o : AgentActionOptions) → Preserves HasProperFollows (follow_user k o)
unfolding follow_user
follow_user-keeps k o =
    search (preserves_rules, follow_actor-HasProperFollows, link-HasProperFollows) depth 40

unfollow_user-keeps :
    (k : Ident) (o : AgentActionOptions) → Preserves HasProperFollows (unfollow_user k o)
unfolding unfollow_user
unfollow_user-keeps k o =
    search (preserves_rules, follow_actor-HasProperFollows, unlink-HasProperFollows) depth 40

-- followUser and unfollowUser, whether they succeed or fail, keep the follow relations free of
-- relations to oneself and of two relations of the same pair.
pub follow_user-HasProperFollows :
    (k : Ident) (o : AgentActionOptions) (s : EngineState)
    → HasProperFollows s
    → HasProperFollows (follow_user k o s).1 × HasProperFollows (unfollow_user k o s).1
follow_user-HasProperFollows k o s h =
    ((follow_user-keeps k o).after s h, (unfollow_user-keeps k o).after s h)

-- The round trip.
find-append :
    (test : FollowRelation → Bool) (fs : List FollowRelation) (r : FollowRelation)
    → any test fs ≡ false
    → test r ≡ true
    → find test (fs ++ r ∷ []) ≡ some r
find-append test [] r none_ hit = ground arith
find-append test (f ∷ fs) r none_ hit = let rest = find-append test fs r in ground arith

keep-append :
    (k : Ident) (fs : List FollowRelation) (r : FollowRelation)
    → any (λ f. same f.id k) fs ≡ false
    → same r.id k ≡ true
    → keep (λ f. not (same f.id k)) (fs ++ r ∷ []) ≡ fs
keep-append k [] r fresh own = ground arith
keep-append k (f ∷ fs) r fresh own = let rest = keep-append k fs r in ground arith

links-own :
    (a b k : Ident) (at : ℕ)
    → links a b (record { id = k; follower_id = a; followee_id = b; created_at = at }) ≡ true
links-own a b k at = let left = same_refl a in let right = same_refl b in ground arith

link-follows :
    (a b : Ident) (s : EngineState)
    → same b a ≡ false
    → any (links a b) s.follows ≡ false
    → (link a b s).1.follows ≡ (push_follow a b s).1.follows
unfolding link ◌>>=◌ gets pure run_helper reject_if fail
link-follows a b s apart fresh = rw (apart, fresh, link) (commit-follows _ _)

unlink-follows :
    (a b : Ident) (s : EngineState) (r : FollowRelation)
    → find (links a b) s.follows ≡ some r
    → (unlink a b s).1.follows ≡ keep (λ f. not (same f.id r.id)) s.follows
unfolding unlink ◌>>=◌ gets pure run_helper require modify remove_follow
unlink-follows a b s r found = rw (found, unlink) (commit-follows _ _)

-- To follow another actor that one does not follow yet, and then to unfollow that actor, leaves the
-- follow relations as they were, provided that none of them has the id that is drawn.
pub unlink-link :
    (a b : Ident) (s : EngineState)
    → same b a ≡ false
    → any (links a b) s.follows ≡ false
    → any (λ f. same f.id (next_id (text "follow") s).0) s.follows ≡ false
    → (unlink a b (link a b s).1).1.follows ≡ s.follows
unfolding push_follow next_id
unlink-link a b s apart fresh new_id =
    let k = (next_id (text "follow") s).0 in
    let r : FollowRelation = record {
      id = k;
      follower_id = a;
      followee_id = b;
      created_at = s.now;
    } in
    let linked : (link a b s).1.follows ≡ s.follows ++ r ∷ [] = link-follows a b s apart fresh in
    let found =
      ap (find (links a b)) linked
      ∙ find-append (links a b) s.follows r fresh (links-own a b k s.now) in
    unlink-follows a b (link a b s).1 r found
    ∙ ap (keep (λ f. not (same f.id k))) linked
    ∙ keep-append k s.follows r new_id (same_refl k)

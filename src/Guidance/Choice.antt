-- ===== src/Guidance/Choice.antt =====
-- What selectPrimaryGuidance of app/features/guided-capture/core/guidanceSelector.ts chooses.
use furima_sandbox.Prelude.{
  ℕ, ◌≤◌, ◌≡◌, refl, sym, ap, ◌∙◌, ◌⊎◌, inl, inr, Bool, true, false, ◌&&◌, ◌||◌, some, List, [],
  ◌∷◌, ltb, ◌==◌, keep, sort_by, head, IsRank, All, head-keep, head-sort_by, head-All, All-sort_by,
  Bool-cases, arith,
}
use furima_sandbox.Guidance.Candidates.{
  Code, GuidanceCandidate, priority, is_device, sequence_number, instant_of, goes_before, is_ready,
  is_blocker, is_fresh_candidate, fresh_among, eligible, select_primary_guidance,
}

-- Four keys, the first the most significant: the tests of `goes_before`.
abbrev lex : ℕ × ℕ × ℕ × ℕ → ℕ × ℕ × ℕ × ℕ → Bool
lex (a, b, c, d) (a', b', c', d') =
    ltb a' a || a == a' && (ltb b' b || b == b' && (ltb c' c || c == c' && ltb d' d))

lex-asym : (k k' : ℕ × ℕ × ℕ × ℕ) → lex k k' ≡ true → lex k' k ≡ false
lex-asym k k' h = ground arith

lex-weak : (x y z : ℕ × ℕ × ℕ × ℕ) → lex y x ≡ false → lex z y ≡ false → lex z x ≡ false
lex-weak x y z h k = ground arith

abbrev keys : GuidanceCandidate → ℕ × ℕ × ℕ × ℕ
keys c = (priority c.code, is_device c.source, sequence_number c.sequence, instant_of c.observed_at)

pub goes_before-IsRank : IsRank goes_before
unfolding goes_before
goes_before-IsRank = record {
  asym = λ x y h. lex-asym (keys x) (keys y) h;
  weak = λ x y z h k. lex-weak (keys x) (keys y) (keys z) h k;
}

-- READY has the lowest priority, alone.
ready-priority : (c : Code) → is_ready c ≡ true → priority c ≡ 0
ready-priority c h = ground arith

blocker-priority : (c : Code) → is_ready c ≡ false → 1 ≤ priority c
blocker-priority c h = ground arith

passes_or : (p q : ℕ) (rest : Bool) → 1 ≤ p → q ≡ 0 → (ltb q p || rest) ≡ true
passes_or p q rest h e = ground arith

blocker_above :
    (x y : GuidanceCandidate) → is_blocker x ≡ true → is_blocker y ≡ false → goes_before x y ≡ true
unfolding goes_before
blocker_above x y h k =
    passes_or (priority x.code) (priority y.code) _ (blocker-priority x.code (ground arith))
      (ready-priority y.code (ground arith))

-- With no blocker among them, all are READY.
keep-ready :
    (cs : List GuidanceCandidate) → keep is_blocker cs ≡ [] → keep (λ c. is_ready c.code) cs ≡ cs
keep-ready [] e = refl
keep-ready (c ∷ cs) e = elim (Bool-cases (is_ready c.code)) [
  | inl t ↦ rw t (ap (λ rest. c ∷ rest) (keep-ready cs (rw t at e)))
  | inr t ↦ ground arith
]

eligible-blockers : (bs rs : List GuidanceCandidate) → (bs ≡ []) ⊎ (eligible bs rs ≡ bs)
eligible-blockers [] rs = inl refl
eligible-blockers (b ∷ bs) rs = inr refl

all_ready :
    (cs : List GuidanceCandidate)
    → keep is_blocker cs ≡ []
    → eligible (keep is_blocker cs) (keep (λ c. is_ready c.code) cs) ≡ cs
all_ready cs e = rw e (keep-ready cs e)

only_ready-head :
    (cs : List GuidanceCandidate)
    → keep is_blocker cs ≡ []
    → head (sort_by goes_before (eligible (keep is_blocker cs) (keep (λ c. is_ready c.code) cs)))
      ≡ head (sort_by goes_before cs)
only_ready-head cs e = ap (λ l. head (sort_by goes_before l)) (all_ready cs e)

head-eligible :
    (cs : List GuidanceCandidate)
    → head (sort_by goes_before (eligible (keep is_blocker cs) (keep (λ c. is_ready c.code) cs)))
      ≡ head (sort_by goes_before cs)
head-eligible cs = elim (head-keep goes_before goes_before-IsRank is_blocker blocker_above cs) [
  | inl e ↦ only_ready-head cs e
  | inr e ↦ elim (eligible-blockers (keep is_blocker cs) (keep (λ c. is_ready c.code) cs)) [
    | inl empty ↦ only_ready-head cs empty
    | inr same ↦ ap (λ l. head (sort_by goes_before l)) same ∙ e
  ]
]

-- Setting the READY candidates aside while there is a blocker changes nothing: the selection is the
-- first of all the fresh candidates in the order of priority, source, sequence and time.
pub select_primary_guidance-sorted :
    (candidates : List GuidanceCandidate) (now : ℕ)
    → select_primary_guidance candidates (some now)
      ≡ head (sort_by goes_before (fresh_among candidates now))
unfolding select_primary_guidance
select_primary_guidance-sorted candidates now = head-eligible (fresh_among candidates now)

All-fresh :
    (candidates : List GuidanceCandidate) (now : ℕ)
    → All (λ c. is_fresh_candidate c now ≡ true) (fresh_among candidates now)
All-fresh [] now = tt
All-fresh (c ∷ cs) now = elim (Bool-cases (is_fresh_candidate c now)) [
  | inl t ↦ rw t (t, All-fresh cs now)
  | inr t ↦ rw t (All-fresh cs now)
]

-- The selection is fresh, and no fresh candidate goes before it.
pub select_primary_guidance-best :
    (candidates : List GuidanceCandidate) (now : ℕ) (selected : GuidanceCandidate)
    → select_primary_guidance candidates (some now) ≡ some selected
    → (is_fresh_candidate selected now ≡ true)
      × All (λ other. goes_before other selected ≡ false) (fresh_among candidates now)
select_primary_guidance-best candidates now selected found =
    let first = sym (select_primary_guidance-sorted candidates now) ∙ found in
    (
      head-All (λ c. is_fresh_candidate c now ≡ true) selected
          (sort_by goes_before (fresh_among candidates now)) first
          (All-sort_by goes_before (λ c. is_fresh_candidate c now ≡ true)
            (fresh_among candidates now) (All-fresh candidates now)),
      head-sort_by goes_before goes_before-IsRank selected (fresh_among candidates now) first,
    )

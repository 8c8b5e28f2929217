-- ===== src/Guidance/Entry.antt =====
-- When an instruction enters, and what the fields of the hysteresis are between updates
-- (app/features/guided-capture/core/guidanceSelector.ts).
use furima_sandbox.Prelude.{
  is_some, ℕ, ◌+◌, ◌≡◌, refl, sym, ◌∙◌, ◌⊎◌, inl, inr, Bool, true, false, not, ◌&&◌, ◌||◌, Option,
  none, some, List, [], ◌∷◌, leb, Bool-cases, arith,
}
use furima_sandbox.Text.{Text}
use furima_sandbox.Capture.Records.{SessionSlot}
use furima_sandbox.Guidance.Candidates.{GuidanceCandidate, is_ready, select_primary_guidance}
use furima_sandbox.Guidance.Stability.{acknowledge-active}
use furima_sandbox.Guidance.Hysteresis.{
  Durations, Hysteresis, reset, same_key, same_candidate, clear_active, update_blocker,
  settle_ready, update_ready, own_ready, update_none, update_by, drop_stale, shot_of, acknowledge,
  is_ready_candidate, update_state,
}

-- A candidate waits exactly while its time is kept, it is no READY one, and nothing else is timed
-- then; only an active instruction is being cleared.
pub record IsCoherent (h : Hysteresis) : Type 0 where
  pub timed : is_some h.pending ≡ is_some h.pending_since
  pub blocker : is_ready_candidate h.pending ≡ false
  pub alone : is_some h.pending && (is_some h.clear_since || is_some h.ready_since) ≡ false
  pub clearing : is_some h.clear_since && not (is_some h.active) ≡ false

module _ (d : Durations) (now : ℕ) where
  clear_active-IsCoherent :
      (h : Hysteresis) → is_some h.active ≡ true → IsCoherent (clear_active d now h).1
  unfolding clear_active
  clear_active-IsCoherent h k = ground arith

  settle_ready-IsCoherent :
      (shown : GuidanceCandidate) (h : Hysteresis)
      → IsCoherent h
      → is_some h.pending ≡ false
      → IsCoherent (settle_ready d now shown h)
  unfolding settle_ready
  settle_ready-IsCoherent shown h k l = ground arith

  update_blocker-IsCoherent :
      (selected : GuidanceCandidate) (h : Hysteresis)
      → is_ready selected.code ≡ false
      → IsCoherent h
      → IsCoherent (update_blocker d now selected h)
  unfolding update_blocker
  update_blocker-IsCoherent selected h k l = ground arith

  update_by-IsCoherent :
      (selected : Option GuidanceCandidate) (h : Hysteresis)
      → IsCoherent h
      → IsCoherent (update_by d now selected h).1
  unfolding update_by update_none update_ready
  update_by-IsCoherent none h k =
      let cleared = clear_active-IsCoherent h in
      let settled =
        settle_ready-IsCoherent (own_ready d now h.last_shot)
          (record h { pending = none; pending_since = none }) in
      ground arith
  update_by-IsCoherent (some selected) h k =
      let cleared = clear_active-IsCoherent h in
      let settled =
        settle_ready-IsCoherent selected
          (record h { clear_since = none; pending = none; pending_since = none }) in
      let blocked = update_blocker-IsCoherent selected h in ground arith

  acknowledge-IsCoherent :
      (said : Option Text) (h : Hysteresis)
      → IsCoherent h
      → IsCoherent (acknowledge now (said, h)).1
  unfolding acknowledge
  acknowledge-IsCoherent said h k = ground arith

  drop_stale-IsCoherent :
      (shot : SessionSlot) (h : Hysteresis)
      → IsCoherent h
      → IsCoherent (drop_stale now (record h { last_shot = shot }))
  unfolding drop_stale
  drop_stale-IsCoherent shot h k = ground arith

  update_state-IsCoherent :
      (candidates : List GuidanceCandidate) (shot : Option SessionSlot) (h : Hysteresis)
      → IsCoherent h
      → IsCoherent (update_state d candidates now shot h).1
  unfolding update_state
  update_state-IsCoherent candidates shot h k =
      let selected = select_primary_guidance candidates (some now) in
      acknowledge-IsCoherent _ _
        (update_by-IsCoherent selected _ (drop_stale-IsCoherent (shot_of shot selected h) h k))

-- Updates of a new object, the first first.
unfoldable pub updates :
    Durations → List (List GuidanceCandidate × ℕ × Option SessionSlot) → Hysteresis → Hysteresis
updates d [] h = h
updates d ((candidates, now, shot) ∷ rest) h =
    updates d rest (update_state d candidates now shot h).1

updates-keep :
    (d : Durations) (inputs : List (List GuidanceCandidate × ℕ × Option SessionSlot))
    (h : Hysteresis)
    → IsCoherent h
    → IsCoherent (updates d inputs h)
unfolding updates
updates-keep d [] h k = k
updates-keep d ((candidates, now, shot) ∷ rest) h k =
    updates-keep d rest _ (update_state-IsCoherent d now candidates shot h k)

-- After any updates of a new object, at any times: a candidate waits exactly while its time is kept,
-- is no READY one, and waits alone; and only an active instruction is being cleared.
pub updates-IsCoherent :
    (d : Durations) (inputs : List (List GuidanceCandidate × ℕ × Option SessionSlot))
    → IsCoherent (updates d inputs reset)
unfolding reset
updates-IsCoherent d inputs =
    updates-keep d inputs reset
      (record { timed = refl; blocker = refl; alone = refl; clearing = refl })

same_key_refl : (c : GuidanceCandidate) → same_key c c ≡ true
unfolding same_key
same_key_refl c = ground arith

-- A candidate has waited for enterMs.
abbrev pub has_waited : Durations → ℕ → Option ℕ → Bool
has_waited d now none = false
has_waited d now (some since) = leb (since + d.enter_ms) now

-- What makes a candidate an instruction: it was one, or it has waited long enough.
abbrev pub IsEntitled : Durations → ℕ → GuidanceCandidate → Hysteresis → Type 0
IsEntitled d now c h =
    (same_candidate h.active (some c) ≡ true)
    ⊎ ((same_candidate h.pending (some c) ≡ true) × (has_waited d now h.pending_since ≡ true))

module _ (d : Durations) (now : ℕ) where
  clear_active-entry :
      (h : Hysteresis) (c : GuidanceCandidate)
      → (clear_active d now h).1.active ≡ some c
      → h.active ≡ some c
  unfolding clear_active
  clear_active-entry h c e = ground arith

  settle_ready-entry :
      (shown : GuidanceCandidate) (h : Hysteresis) (c : GuidanceCandidate)
      → is_ready shown.code ≡ true
      → is_ready c.code ≡ false
      → (settle_ready d now shown h).active ≡ some c
      → h.active ≡ some c
  unfolding settle_ready
  settle_ready-entry shown h c k l e = ground arith

  active-IsEntitled :
      (h : Hysteresis) (c : GuidanceCandidate) → h.active ≡ some c → IsEntitled d now c h
  unfolding same_candidate
  active-IsEntitled h c e = let own = same_key_refl c in ground arith

  update_blocker-entry :
      (selected : GuidanceCandidate) (h : Hysteresis) (c : GuidanceCandidate)
      → (update_blocker d now selected h).active ≡ some c
      → IsEntitled d now c h
  unfolding update_blocker
  update_blocker-entry selected h c e = let kept = active-IsEntitled h c in ground arith

  update_by-entry :
      (selected : Option GuidanceCandidate) (h : Hysteresis) (c : GuidanceCandidate)
      → is_ready c.code ≡ false
      → (update_by d now selected h).1.active ≡ some c
      → IsEntitled d now c h
  unfolding update_by update_none update_ready own_ready
  update_by-entry none h c k e = active-IsEntitled h c (
      let cleared = clear_active-entry h c in
      let settled =
        settle_ready-entry (own_ready d now h.last_shot)
          (record h { pending = none; pending_since = none }) c refl k in
      ground arith)
  update_by-entry (some selected) h c k e = elim (Bool-cases (is_ready selected.code)) [
    | inl t ↦ active-IsEntitled h c (
        let cleared = clear_active-entry h c in
        let settled =
          settle_ready-entry selected
            (record h { clear_since = none; pending = none; pending_since = none }) c t k in
        ground arith)
    | inr t ↦ update_blocker-entry selected h c (ground arith)
  ]

  IsEntitled-stale :
      (shot : SessionSlot) (h : Hysteresis) (c : GuidanceCandidate)
      → IsEntitled d now c (drop_stale now (record h { last_shot = shot }))
      → IsEntitled d now c h
  unfolding drop_stale same_candidate
  IsEntitled-stale shot h c k = ground arith

-- An instruction other than READY is shown after an update only if the one shown before has its
-- source, shot and code, or a candidate with these has waited for enterMs.
pub update_state-entry :
    (d : Durations) (candidates : List GuidanceCandidate) (now : ℕ) (shot : Option SessionSlot)
    (h : Hysteresis) (c : GuidanceCandidate)
    → is_ready c.code ≡ false
    → (update_state d candidates now shot h).1.active ≡ some c
    → IsEntitled d now c h
unfolding update_state
update_state-entry d candidates now shot h c k e =
    let selected = select_primary_guidance candidates (some now) in
    let start = drop_stale now (record h { last_shot = shot_of shot selected h }) in
    IsEntitled-stale d now (shot_of shot selected h) h c (
      update_by-entry d now selected start c k (
        sym (
          acknowledge-active d now (update_by d now selected start).0
            (update_by d now selected start).1)
        ∙ e))

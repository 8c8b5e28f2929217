-- ===== src/Guidance/Stability.antt =====
-- The hysteresis of app/features/guided-capture/core/guidanceSelector.ts over updates.
use furima_sandbox.Prelude.{
  ℕ, ◌≡◌, refl, sym, ap, ◌∙◌, subst, inl, inr, true, false, Option, none, some, List, Option-cases,
  arith,
}
use furima_sandbox.Text.{Text, trim, is_empty}
use furima_sandbox.Capture.Records.{SessionSlot}
use furima_sandbox.Guidance.Candidates.{
  GuidanceCandidate, is_fresh_candidate, is_ready, select_primary_guidance,
}
use furima_sandbox.Guidance.Choice.{select_primary_guidance-best}
use furima_sandbox.Guidance.Hysteresis.{
  Durations, Hysteresis, clear_active, update_blocker, settle_ready, update_ready, own_ready,
  update_none, update_by, drop_stale, shot_of, acknowledge, GuidanceHysteresisResult,
  is_ready_candidate, update_state, update,
}

-- A candidate that is shown is fresh.
abbrev pub IsShownFresh : ℕ → Option GuidanceCandidate → Type 0
IsShownFresh now none = Unit
IsShownFresh now (some c) = is_fresh_candidate c now ≡ true

module _ (d : Durations) (now : ℕ) where
  own_message-shown : (shot : SessionSlot) → is_empty (trim (own_ready d now shot).message) ≡ false
  unfolding own_ready trim
  own_message-shown shot = refl

  own_ready-fresh : (shot : SessionSlot) → is_fresh_candidate (own_ready d now shot) now ≡ true
  unfolding own_ready is_fresh_candidate
  own_ready-fresh shot = let said = own_message-shown shot in ground arith

  selected-fresh :
      (candidates : List GuidanceCandidate)
      → IsShownFresh now (select_primary_guidance candidates (some now))
  selected-fresh candidates = elim (Option-cases (select_primary_guidance candidates (some now))) [
    | inl e ↦ rw e tt
    | inr (c, e) ↦ rw e (select_primary_guidance-best candidates now c e).0
  ]

  drop_stale-fresh : (h : Hysteresis) → IsShownFresh now (drop_stale now h).active
  unfolding drop_stale
  drop_stale-fresh h = ground arith

  clear_active-fresh :
      (h : Hysteresis)
      → IsShownFresh now h.active
      → IsShownFresh now (clear_active d now h).1.active
  unfolding clear_active
  clear_active-fresh h k = ground arith

  settle_ready-fresh :
      (shown : GuidanceCandidate) (h : Hysteresis)
      → is_fresh_candidate shown now ≡ true
      → IsShownFresh now h.active
      → IsShownFresh now (settle_ready d now shown h).active
  unfolding settle_ready
  settle_ready-fresh shown h k l = ground arith

  update_blocker-fresh :
      (selected : GuidanceCandidate) (h : Hysteresis)
      → is_fresh_candidate selected now ≡ true
      → IsShownFresh now h.active
      → IsShownFresh now (update_blocker d now selected h).active
  unfolding update_blocker
  update_blocker-fresh selected h k l = ground arith

  update_by-fresh :
      (selected : Option GuidanceCandidate) (h : Hysteresis)
      → IsShownFresh now selected
      → IsShownFresh now h.active
      → IsShownFresh now (update_by d now selected h).1.active
  unfolding update_by update_none update_ready
  update_by-fresh none h k l =
      let cleared = clear_active-fresh h l in
      let settled =
        settle_ready-fresh (own_ready d now h.last_shot)
          (record h { pending = none; pending_since = none }) (own_ready-fresh h.last_shot) l in
      ground arith
  update_by-fresh (some selected) h k l =
      let cleared = clear_active-fresh h l in
      let settled =
        settle_ready-fresh selected
          (record h { clear_since = none; pending = none; pending_since = none }) k l in
      let blocked = update_blocker-fresh selected h k l in ground arith

  pub acknowledge-active :
      (said : Option Text) (h : Hysteresis) → (acknowledge now (said, h)).1.active ≡ h.active
  unfolding acknowledge
  acknowledge-active said h = ground arith

  update_state-fresh :
      (candidates : List GuidanceCandidate) (shot : Option SessionSlot) (h : Hysteresis)
      → IsShownFresh now (update_state d candidates now shot h).1.active
  unfolding update_state
  update_state-fresh candidates shot h =
      let selected = select_primary_guidance candidates (some now) in
      let start = drop_stale now (record h { last_shot = shot_of shot selected h }) in
      subst (IsShownFresh now)
        (sym (
          acknowledge-active (update_by d now selected start).0 (update_by d now selected start).1))
        (update_by-fresh selected start (selected-fresh candidates)
          (drop_stale-fresh (record h { last_shot = shot_of shot selected h })))

-- The instruction that an update shows is fresh at the time of the update, and `ready` says whether
-- it is the READY one.
pub update-fresh :
    (d : Durations) (candidates : List GuidanceCandidate) (now : ℕ) (shot : Option SessionSlot)
    (h after : Hysteresis) (result : GuidanceHysteresisResult) (shown : GuidanceCandidate)
    → update d candidates (some now) shot h ≡ some (result, after)
    → result.primary ≡ some shown
    → (is_fresh_candidate shown now ≡ true) × (result.ready ≡ is_ready shown.code)
unfolding update
update-fresh d candidates now shot h after result shown done is_shown =
    let fresh = update_state-fresh d now candidates shot h in
    let primary : result.primary ≡ (update_state d candidates now shot h).1.active = ground arith in
    let ready_ : result.ready ≡ is_ready_candidate result.primary = ground arith in
    (
      subst (IsShownFresh now) (sym primary ∙ is_shown) fresh,
      ready_ ∙ ap is_ready_candidate is_shown,
    )

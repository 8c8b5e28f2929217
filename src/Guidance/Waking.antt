-- ===== src/Guidance/Waking.antt =====
-- What nextWakeAt promises (app/features/guided-capture/core/guidanceSelector.ts).
use furima_sandbox.Prelude.{ℕ, ◌+◌, ◌≤◌, ◌≡◌, ◌∙◌, true, false, Option, some, List, arith}
use furima_sandbox.Capture.Records.{SessionSlot}
use furima_sandbox.Guidance.Candidates.{GuidanceCandidate, is_ready, select_primary_guidance}
use furima_sandbox.Guidance.Stability.{acknowledge-active}
use furima_sandbox.Guidance.Entry.{IsCoherent}
use furima_sandbox.Guidance.Hysteresis.{
  Durations, Hysteresis, same_key, same_candidate, update_blocker, update_by, drop_stale, shot_of,
  update_state, next_wake_at,
}

module _ (d : Durations) (now : ℕ) where
  -- The candidate that waits, and its time.
  waiting_since :
      (h : Hysteresis) (p : GuidanceCandidate) (wake : ℕ)
      → IsCoherent h
      → h.pending ≡ some p
      → next_wake_at d h ≡ some wake
      → (since : ℕ) × (h.pending_since ≡ some since) × (wake ≡ since + d.enter_ms)
  unfolding next_wake_at
  waiting_since h p wake k waits wakes = ground arith

  update_blocker-enters :
      (selected : GuidanceCandidate) (h : Hysteresis) (p : GuidanceCandidate) (since : ℕ)
      → h.pending ≡ some p
      → same_key p selected ≡ true
      → h.pending_since ≡ some since
      → since + d.enter_ms ≤ now
      → (update_blocker d now selected h).active ≡ some selected
  unfolding update_blocker same_candidate
  update_blocker-enters selected h p since waits same since_ due = ground arith

  drop_stale-pending :
      (h : Hysteresis)
      → ((drop_stale now h).pending ≡ h.pending)
        × ((drop_stale now h).pending_since ≡ h.pending_since)
  unfolding drop_stale
  drop_stale-pending h = ground arith

-- While a candidate waits, an update at the time that nextWakeAt names or later, which selects a
-- blocking candidate with its source, shot and code, makes that the instruction.
pub next_wake_at-enters :
    (d : Durations) (candidates : List GuidanceCandidate) (now wake : ℕ) (shot : Option SessionSlot)
    (h : Hysteresis) (p selected : GuidanceCandidate)
    → IsCoherent h
    → h.pending ≡ some p
    → next_wake_at d h ≡ some wake
    → wake ≤ now
    → select_primary_guidance candidates (some now) ≡ some selected
    → is_ready selected.code ≡ false
    → same_key p selected ≡ true
    → (update_state d candidates now shot h).1.active ≡ some selected
unfolding update_state update_by
next_wake_at-enters d candidates now wake shot h p selected k waits wakes due selects blocks same =
    let (since, since_, wake_) = waiting_since d now h p wake k waits wakes in
    let start = drop_stale now (record h { last_shot = shot_of shot (some selected) h }) in
    let (kept, kept_since) =
      drop_stale-pending d now (record h { last_shot = shot_of shot (some selected) h }) in
    rw (selects, blocks, update_state, update_by)
      (acknowledge-active d now _ _
        ∙ update_blocker-enters d now selected start p since (kept ∙ waits) same
            (kept_since ∙ since_) (omega arith))

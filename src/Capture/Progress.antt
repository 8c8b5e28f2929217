-- ===== src/Capture/Progress.antt =====
-- How a session gets on: the slot that comes next, and the shots that are taken
-- (app/features/guided-capture/core/captureReducer.ts).
use furima_sandbox.Prelude.{
  ℕ, ◌<◌, ◌≤◌, Bool, true, false, ◌&&◌, none, some, [], ◌∷◌, ◌≡◌, refl, subst, ◌∙◌, arith,
}
use furima_sandbox.Text.{Text}
use furima_sandbox.Capture.Records.{
  ImageSlot, front, back, tag, SessionSlot, image, measurement, ShotAssessment, natural,
}
use furima_sandbox.Capture.State.{
  CapturePhase, AcceptedSlot, CaptureSlots, PendingCapture, CaptureState, Submission,
  capture_submitted, shot_assessed,
}
use furima_sandbox.Capture.Slots.{
  replace_slot, next_pending_slot, is_complete, has_all_images, has_accepted_image,
}
use furima_sandbox.Capture.Checks.{
  same_session, same_text, same_slot, accepts_new_sequence, accepts_response_sequence,
  accepted_assessment, is_non_empty_string,
}
use furima_sandbox.Capture.Shots.{
  is_capturing, step_of, can_shoot, submits, pending_for, submit, answered, accept_shot, assess,
}
use furima_sandbox.Capture.Reducer.{advance, capture_reducer}
use furima_sandbox.Capture.Invariant.{IsConsistent, is_accepted}
use furima_sandbox.Capture.Sessions.{run_capture, run_capture-nil, run_capture-step}

pub same_text_refl : (a : Text) → same_text a a ≡ true
same_text_refl a = ground arith

same_slot_refl : (slot : SessionSlot) → same_slot slot slot ≡ true
same_slot_refl slot = ground arith

-- Whether the slots before one are accepted, in the order front, back, tag, measurement.
abbrev pub accepted_before : CaptureSlots → SessionSlot → Bool
accepted_before slots (image front) = true
accepted_before slots (image back) = has_accepted_image slots front
accepted_before slots (image tag) = has_accepted_image slots front && has_accepted_image slots back
accepted_before slots measurement = has_all_images slots

-- The next pending slot is the first that is not accepted in the order front, back, tag, measurement,
-- and as long as there is one the session may not enter the edit step.
pub next_pending_slot-open :
    (slots : CaptureSlots) (slot : SessionSlot)
    → next_pending_slot slots ≡ some slot
    → (is_accepted slots slot ≡ false)
      × (accepted_before slots slot ≡ true)
      × (is_complete slots ≡ false)
unfolding next_pending_slot is_accepted is_complete has_all_images
next_pending_slot-open slots slot e = ground arith

abbrev pub submission_for : SessionSlot → ℕ → Text → Text → ℕ → Submission
submission_for slot blob object_url request n = record {
  slot = slot;
  blob = blob;
  object_url = object_url;
  request_id = request;
  sequence = natural n;
}

-- The slot that a shot leaves behind.
abbrev pub accepted_shot : ImageSlot → ℕ → Text → ShotAssessment → ℕ → AcceptedSlot
accepted_shot slot blob object_url assessment n = AcceptedSlot.image (record {
  slot = slot;
  blob = blob;
  object_url = object_url;
  assessment = assessment;
  accepted_sequence = n;
})

-- The state while a shot is being analyzed.
unfoldable analyzing : CaptureState → Submission → ℕ → CaptureState
analyzing s sub n = record s {
  phase = CapturePhase.analyzing;
  current_step = step_of sub.slot;
  pending_capture = some (pending_for s.session_id sub n);
  last_assessment = none;
  provider_error = none;
  last_sequence = n;
}

submit-analyzing :
    (s : CaptureState) (sub : Submission) (slot : SessionSlot) (n : ℕ)
    → s.pending_capture ≡ none
    → s.current_slot ≡ slot
    → can_shoot s slot ≡ true
    → sub.slot ≡ slot
    → sub.sequence ≡ natural n
    → s.last_sequence < n
    → is_non_empty_string sub.request_id ≡ true
    → capture_reducer s (capture_submitted s.session_id sub) ≡ some (analyzing s sub n)
unfolding capture_reducer advance submit submits same_session accepts_new_sequence analyzing
submit-analyzing s sub slot n p c can e q l r =
    ground (arith, same_text_refl s.session_id, same_slot_refl slot)

assess-accepted :
    (s : CaptureState) (pending : PendingCapture) (slot : ImageSlot) (assessment : ShotAssessment)
    (n : ℕ)
    → s.pending_capture ≡ some pending
    → pending.slot ≡ image slot
    → pending.sequence ≤ n
    → s.last_sequence ≤ n
    → accepted_assessment assessment slot ≡ true
    → capture_reducer s (shot_assessed s.session_id slot assessment pending.request_id (natural n))
      ≡ some (accept_shot slot assessment pending n s)
unfolding capture_reducer advance assess answered same_session accepts_response_sequence
assess-accepted s pending slot assessment n e here sent late good =
    ground (arith, same_text_refl s.session_id, same_text_refl pending.request_id)

nothing_pending :
    (s : CaptureState) → IsConsistent s → is_capturing s.phase ≡ true → s.pending_capture ≡ none
nothing_pending s h p = ground arith

-- In a consistent state that is capturing, the shutter and then a good assessment of the shot put it
-- into the current slot, and leave nothing pending.
pub run_capture-shot :
    (s : CaptureState) (slot : ImageSlot) (blob : ℕ) (object_url request : Text) (n : ℕ)
    (assessment : ShotAssessment)
    → IsConsistent s
    → is_capturing s.phase ≡ true
    → s.current_slot ≡ image slot
    → s.last_sequence < n
    → is_non_empty_string request ≡ true
    → accepted_assessment assessment slot ≡ true
    → (t : CaptureState) × (run_capture s (
          capture_submitted s.session_id (submission_for (image slot) blob object_url request n)
          ∷ shot_assessed s.session_id slot assessment request (natural n)
          ∷ [])
        ≡ some t)
      × (t.slots
          ≡ replace_slot s.slots
              (image slot)
              (some (accepted_shot slot blob object_url assessment n)))
      × (t.pending_capture ≡ none)
      × (t.last_sequence ≡ n)
unfolding pending_for analyzing accept_shot can_shoot
run_capture-shot s slot blob object_url request n assessment h p c l r a =
    let sub = submission_for (image slot) blob object_url request n in
    let pending = pending_for s.session_id sub n in
    let mid = analyzing s sub n in
    let end = accept_shot slot assessment pending n mid in
    let idle : s.pending_capture ≡ none = nothing_pending s h p in
    let sent : capture_reducer s (capture_submitted s.session_id sub) ≡ some mid =
      submit-analyzing s sub (image slot) n idle c
        (subst (λ x. can_shoot s x ≡ true) c (h.shootable p)) refl refl l r in
    let answer : capture_reducer mid
          (shot_assessed s.session_id slot assessment request (natural n))
        ≡ some end =
      assess-accepted mid pending slot assessment n refl refl (omega arith) (omega arith) a in
    (
      end,
      run_capture-step s _ _ mid sent ∙ run_capture-step mid _ [] end answer ∙ run_capture-nil end,
      refl,
      refl,
      omega arith,
    )

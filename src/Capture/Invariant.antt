-- ===== src/Capture/Invariant.antt =====
-- The invariant of a capture session (app/features/guided-capture/core/captureReducer.ts), action by
-- action.
use furima_sandbox.Prelude.{
  is_some, ℕ, ◌≤◌, Bool, true, false, Option, none, some, ◌≡◌, inl, inr, arith, Bool-cases,
  Option-cases,
}
use furima_sandbox.Text.{Text}
use furima_sandbox.Capture.Records.{
  ImageSlot, front, back, tag, SessionSlot, image, measurement, ShotAssessment, Sequence, natural,
  improper, ConnectionState, ProviderError, MeasurementDraft, ApprovedMeasurement, GuidanceEvent,
  Double,
}
use furima_sandbox.Capture.State.{
  CapturePhase, CaptureSlots, PendingCapture, CaptureState, Submission,
}
use furima_sandbox.Capture.Slots.{
  empty_slots, has_accepted_image, has_all_images, has_approved_measurement, is_complete,
  next_pending_slot, replace_slot, next_phase_for_slots,
}
use furima_sandbox.Capture.Checks.{
  same_slot, accepts_new_sequence, should_accept_guidance, safe_sequence,
}
use furima_sandbox.Capture.Shots.{
  is_failed, is_capturing, initial_session, can_shoot, submits, pending_for, submit, answered,
  reject_shot, accept_shot, assess,
}
use furima_sandbox.Capture.Reducer.{
  accept_draft, take_draft, record_error, retry, approve, receive_guidance, connect, clear_slot,
  retake_slot, request_edit,
}

abbrev pub is_ready : CapturePhase → Bool
is_ready CapturePhase.ready = true
is_ready _ = false

-- The phases in which a capture is pending.
abbrev pub is_waiting : CapturePhase → Bool
is_waiting CapturePhase.analyzing = true
is_waiting CapturePhase.error = true
is_waiting _ = false

unfoldable pub is_accepted : CaptureSlots → SessionSlot → Bool
is_accepted slots (image slot) = has_accepted_image slots slot
is_accepted slots measurement = has_approved_measurement slots

abbrev pub sequence_of : Option PendingCapture → ℕ
sequence_of none = 0
sequence_of (some pending) = pending.sequence

abbrev pub is_for : SessionSlot → Option PendingCapture → Bool
is_for slot none = true
is_for slot (some pending) = same_slot slot pending.slot

pub record IsConsistent (s : CaptureState) : Type 0 where
  pub ready_complete : is_ready s.phase ≡ is_complete s.slots
  pub current_open : is_accepted s.slots s.current_slot ≡ is_ready s.phase
  pub waiting : is_waiting s.phase ≡ is_some s.pending_capture
  pub failed : is_failed s.phase ≡ is_some s.provider_error
  pub approved : has_approved_measurement s.slots ≡ is_some s.approved_measurement
  pub pending_here : is_for s.current_slot s.pending_capture ≡ true
  pub shootable : is_capturing s.phase ≡ true → can_shoot s s.current_slot ≡ true
  pub pending_sent : sequence_of s.pending_capture ≤ s.last_sequence

pub initial_session-IsConsistent : (session : Text) → IsConsistent (initial_session session)
unfolding can_shoot initial_session empty_slots is_complete is_accepted has_all_images
    has_accepted_image has_approved_measurement
initial_session-IsConsistent session = ground arith

pub accepts_new_sequence-lt :
    (s : CaptureState) (sequence : Sequence) (n : ℕ)
    → accepts_new_sequence s sequence ≡ some n
    → s.last_sequence ≤ n
unfolding accepts_new_sequence
accepts_new_sequence-lt s improper n e = ground arith
accepts_new_sequence-lt s (natural m) n e = ground arith

pub connect-IsConsistent :
    (session : Text) (link : ConnectionState) (s : CaptureState)
    → IsConsistent s
    → IsConsistent (connect session link s)
unfolding connect can_shoot
connect-IsConsistent session link s h = ground arith

pub request_edit-IsConsistent :
    (session : Text) (s : CaptureState) → IsConsistent s → IsConsistent (request_edit session s)
unfolding request_edit can_shoot
request_edit-IsConsistent session s h = ground arith

pub clear_slot-IsConsistent :
    (slot : SessionSlot) (s : CaptureState) → IsConsistent s → IsConsistent (clear_slot slot s)
unfolding can_shoot clear_slot replace_slot is_complete is_accepted has_all_images
    has_accepted_image has_approved_measurement
clear_slot-IsConsistent measurement s h = ground arith
clear_slot-IsConsistent (image front) s h = ground arith
clear_slot-IsConsistent (image back) s h = ground arith
clear_slot-IsConsistent (image tag) s h = ground arith

pub retake_slot-IsConsistent :
    (session : Text) (slot : SessionSlot) (s : CaptureState)
    → IsConsistent s
    → IsConsistent (retake_slot session slot s)
unfolding retake_slot
retake_slot-IsConsistent session slot s h = ground (arith, clear_slot-IsConsistent slot s h)

pub should_accept_guidance-le :
    (s : CaptureState) (event : GuidanceEvent) (now : Double) (n : ℕ)
    → should_accept_guidance s event now ≡ some n
    → s.last_sequence ≤ n
unfolding should_accept_guidance
should_accept_guidance-le s event now n e =
    ground (arith, accepts_new_sequence-lt s (safe_sequence event.sequence) n)

pub receive_guidance-IsConsistent :
    (event : GuidanceEvent) (now : Double) (s : CaptureState)
    → IsConsistent s
    → IsConsistent (receive_guidance event now s)
unfolding receive_guidance can_shoot
receive_guidance-IsConsistent event now s h =
    elim (Option-cases (should_accept_guidance s event now)) [
      | inl e ↦ rw (e, receive_guidance) h
      | inr (n, e) ↦
          let later : s.last_sequence ≤ n = should_accept_guidance-le s event now n e in
          rw (e, receive_guidance) (ground arith)
    ]

pub submit-IsConsistent :
    (session : Text) (sub : Submission) (s : CaptureState)
    → IsConsistent s
    → IsConsistent (submit session sub s)
unfolding submit submits can_shoot pending_for
submit-IsConsistent session sub s h = elim (Option-cases (accepts_new_sequence s sub.sequence)) [
  | inl e ↦ rw (e, submit) h
  | inr (n, e) ↦
      let later : s.last_sequence ≤ n = accepts_new_sequence-lt s sub.sequence n e in
      rw (e, submit) (ground arith)
]

pub record_error-IsConsistent :
    (session request : Text) (sequence : Sequence) (failure : ProviderError) (s : CaptureState)
    → IsConsistent s
    → IsConsistent (record_error session request sequence failure s)
unfolding record_error answered can_shoot
record_error-IsConsistent session request sequence failure s h = ground arith

pub retry-IsConsistent :
    (session request : Text) (sequence : Sequence) (s : CaptureState)
    → IsConsistent s
    → IsConsistent (retry session request sequence s)
unfolding retry can_shoot
retry-IsConsistent session request sequence s h = ground (arith, accepts_new_sequence-lt s sequence)

pub approve-IsConsistent :
    (session : Text) (approval : ApprovedMeasurement) (sequence : Sequence) (s : CaptureState)
    → IsConsistent s
    → IsConsistent (approve session approval sequence s)
unfolding can_shoot approve replace_slot is_complete is_accepted has_all_images has_accepted_image
    has_approved_measurement
approve-IsConsistent session approval sequence s h =
    ground (arith, accepts_new_sequence-lt s sequence)

accept_draft-IsConsistent :
    (draft : MeasurementDraft) (pending : PendingCapture) (n : ℕ) (s : CaptureState)
    → IsConsistent s
    → IsConsistent (accept_draft draft pending n s)
unfolding can_shoot accept_draft replace_slot is_complete is_accepted has_all_images
    has_accepted_image has_approved_measurement
accept_draft-IsConsistent draft pending n s h = ground arith

pub take_draft-IsConsistent :
    (session : Text) (draft : MeasurementDraft) (request : Text) (sequence : Sequence)
    (s : CaptureState)
    → IsConsistent s
    → IsConsistent (take_draft session draft request sequence s)
unfolding take_draft
take_draft-IsConsistent session draft request sequence s h =
    elim (Option-cases (answered session request sequence s)) [
      | inl e ↦ rw (e, take_draft) h
      | inr ((pending, n), e) ↦
          let drafted : IsConsistent (accept_draft draft pending n s) =
            accept_draft-IsConsistent draft pending n s h in
          rw (e, take_draft) (ground arith)
    ]

reject_shot-IsConsistent :
    (slot : ImageSlot) (assessment : ShotAssessment) (n : ℕ) (s : CaptureState)
    → IsConsistent s
    → is_waiting s.phase ≡ true
    → same_slot s.current_slot (image slot) ≡ true
    → IsConsistent (reject_shot slot assessment n s)
unfolding reject_shot can_shoot
reject_shot-IsConsistent slot assessment n s h w here = ground arith

accept_shot-IsConsistent :
    (slot : ImageSlot) (assessment : ShotAssessment) (pending : PendingCapture) (n : ℕ)
    (s : CaptureState)
    → IsConsistent s
    → IsConsistent (accept_shot slot assessment pending n s)
unfolding can_shoot accept_shot replace_slot next_phase_for_slots next_pending_slot is_complete
    is_accepted has_all_images has_accepted_image has_approved_measurement
accept_shot-IsConsistent front assessment pending n s h = ground arith
accept_shot-IsConsistent back assessment pending n s h = ground arith
accept_shot-IsConsistent tag assessment pending n s h = ground arith

-- A response that is taken answers the capture that is pending.
pub answered-pending :
    (session request : Text) (sequence : Sequence) (s : CaptureState) (pending : PendingCapture)
    (n : ℕ)
    → answered session request sequence s ≡ some (pending, n)
    → s.pending_capture ≡ some pending
unfolding answered
answered-pending session request sequence s pending n e = ground arith

same_slot_trans :
    (a b c : SessionSlot) → same_slot a b ≡ true → same_slot b c ≡ true → same_slot a c ≡ true
same_slot_trans a b c h k = ground arith

pub assess-IsConsistent :
    (session : Text) (slot : ImageSlot) (assessment : ShotAssessment) (request : Text)
    (sequence : Sequence) (s : CaptureState)
    → IsConsistent s
    → IsConsistent (assess session slot assessment request sequence s)
unfolding assess
assess-IsConsistent session slot assessment request sequence s h =
    elim (Option-cases (answered session request sequence s)) [
      | inl e ↦ rw (e, assess) h
      | inr ((pending, n), e) ↦
          let found : s.pending_capture ≡ some pending =
            answered-pending session request sequence s pending n e in
          elim (Bool-cases (same_slot pending.slot (image slot))) [
            | inl here ↦
                let accepted : IsConsistent (accept_shot slot assessment pending n s) =
                  accept_shot-IsConsistent slot assessment pending n s h in
                let refused : IsConsistent (reject_shot slot assessment n s) =
                  reject_shot-IsConsistent slot assessment n s h (rw found at h.waiting) (
                    same_slot_trans s.current_slot pending.slot (image slot)
                      (rw found at h.pending_here) here) in
                rw (e, assess, here) (ground arith)
            | inr there ↦ rw (e, assess, there) h
          ]
    ]

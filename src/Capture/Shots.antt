-- ===== src/Capture/Shots.antt =====
-- The shots of a capture session: createInitialCaptureState, and the actions CAPTURE_SUBMITTED and
-- SHOT_ASSESSED of captureReducer (app/features/guided-capture/core/captureReducer.ts).
--
-- A rejected action gives back the state. The throw of an empty session id is `none`.
use furima_sandbox.Prelude.{
  is_some, ℕ, max, Bool, true, false, ◌&&◌, not, Option, none, some, if◌then◌else◌,
}
use furima_sandbox.Text.{Text, is_empty, trim}
use furima_sandbox.Capture.Records.{
  ImageSlot, SessionSlot, image, measurement, ShotAssessment, Sequence, disconnected,
}
use furima_sandbox.Capture.State.{
  CapturePhase, CaptureStep, shooting, measurement_capture, measurement_review, AcceptedSlot,
  PendingCapture, CaptureState, Submission,
}
use furima_sandbox.Capture.Slots.{empty_slots, replace_slot, next_phase_for_slots}
use furima_sandbox.Capture.Checks.{
  same_text, same_image_slot, same_slot, is_non_empty_string, accepts_new_sequence,
  accepts_response_sequence, same_session, accepted_assessment,
}

-- createInitialCaptureState, after its check.
unfoldable pub initial_session : Text → CaptureState
initial_session session_id = record {
  session_id = session_id;
  phase = CapturePhase.capturing;
  current_step = shooting ImageSlot.front;
  current_slot = image ImageSlot.front;
  slots = empty_slots;
  pending_capture = none;
  last_assessment = none;
  measurement_draft = none;
  approved_measurement = none;
  latest_guidance = none;
  connection_state = disconnected;
  last_sequence = 0;
  provider_error = none;
}

unfoldable pub create_initial_capture_state : Text → Option CaptureState
create_initial_capture_state session_id =
    if is_empty (trim session_id) then none else some (initial_session session_id)

abbrev pub is_capturing : CapturePhase → Bool
is_capturing CapturePhase.capturing = true
is_capturing _ = false

abbrev pub is_measuring : CapturePhase → Bool
is_measuring CapturePhase.measurement = true
is_measuring _ = false

abbrev pub is_failed : CapturePhase → Bool
is_failed CapturePhase.error = true
is_failed _ = false

abbrev pub is_review : CaptureStep → Bool
is_review measurement_review = true
is_review _ = false

abbrev pub is_shooting : ImageSlot → CaptureStep → Bool
is_shooting slot (shooting other) = same_image_slot slot other
is_shooting slot _ = false

-- The phase and step in which a slot is shot.
unfoldable pub can_shoot : CaptureState → SessionSlot → Bool
can_shoot s measurement = is_measuring s.phase && not (is_review s.current_step)
can_shoot s (image slot) = is_capturing s.phase && is_shooting slot s.current_step

abbrev pub step_of : SessionSlot → CaptureStep
step_of measurement = measurement_capture
step_of (image slot) = shooting slot

unfoldable pub submits : CaptureState → Text → Submission → Bool
submits s session_id sub =
    same_session s session_id
    && not (is_some s.pending_capture)
    && same_slot s.current_slot sub.slot
    && can_shoot s sub.slot
    && is_non_empty_string sub.request_id

unfoldable pub pending_for : Text → Submission → ℕ → PendingCapture
pending_for session_id sub sequence = record {
  session_id = session_id;
  slot = sub.slot;
  blob = sub.blob;
  object_url = sub.object_url;
  request_id = sub.request_id;
  sequence = sequence;
}

-- CAPTURE_SUBMITTED
unfoldable pub submit : Text → Submission → CaptureState → CaptureState
submit session_id sub s = elim (accepts_new_sequence s sub.sequence) [
  | none ↦ s
  | some sequence ↦
      if submits s session_id sub
      then record s {
        phase = CapturePhase.analyzing;
        current_step = step_of sub.slot;
        pending_capture = some (pending_for session_id sub sequence);
        last_assessment = none;
        provider_error = none;
        last_sequence = sequence;
      }
      else s
]

-- The pending capture that a response answers, with the response's sequence.
unfoldable pub answered : Text → Text → Sequence → CaptureState → Option (PendingCapture × ℕ)
answered session_id request_id sequence s = elim s.pending_capture [
  | none ↦ none
  | some pending ↦ elim (accepts_response_sequence s pending sequence) [
    | none ↦ none
    | some n ↦
        if same_session s session_id && same_text pending.request_id request_id
        then some (pending, n)
        else none
  ]
]

-- A shot that has to be taken again.
unfoldable pub reject_shot : ImageSlot → ShotAssessment → ℕ → CaptureState → CaptureState
reject_shot slot assessment n s = record s {
  phase = CapturePhase.capturing;
  current_step = shooting slot;
  pending_capture = none;
  last_assessment = some assessment;
  provider_error = none;
  last_sequence = max s.last_sequence n;
}

unfoldable pub accept_shot :
    ImageSlot → ShotAssessment → PendingCapture → ℕ → CaptureState → CaptureState
accept_shot slot assessment pending n s =
    let slots = replace_slot s.slots (image slot) (
      some (
        AcceptedSlot.image (record {
          slot = slot;
          blob = pending.blob;
          object_url = pending.object_url;
          assessment = assessment;
          accepted_sequence = n;
        }))) in
    let next = next_phase_for_slots slots in
    record s {
      current_slot = next.current_slot;
      phase = next.phase;
      current_step = next.current_step;
      pending_capture = none;
      slots = slots;
      last_assessment = some assessment;
      provider_error = none;
      last_sequence = max s.last_sequence n;
    }

-- SHOT_ASSESSED
unfoldable pub assess :
    Text → ImageSlot → ShotAssessment → Text → Sequence → CaptureState → CaptureState
assess session_id slot assessment request_id sequence s =
    elim (answered session_id request_id sequence s) [
      | none ↦ s
      | some (pending, n) ↦
          if same_slot pending.slot (image slot)
          then if accepted_assessment assessment slot
            then accept_shot slot assessment pending n s
            else reject_shot slot assessment n s
          else s
    ]

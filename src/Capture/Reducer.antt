-- ===== src/Capture/Reducer.antt =====
-- captureReducer (app/features/guided-capture/core/captureReducer.ts): one function for each action;
-- those of Capture/Shots come from there.
--
-- A rejected action gives back the state. The one throw, of a reset to an empty session id, is
-- `none`.
use furima_sandbox.Prelude.{is_some, ℕ, max, ◌&&◌, not, Option, none, some, if◌then◌else◌}
use furima_sandbox.Text.{Text}
use furima_sandbox.Capture.Records.{
  SessionSlot, image, measurement, Sequence, ConnectionState, ProviderError, MeasurementDraft,
  ApprovedMeasurement, GuidanceEvent, Double,
}
use furima_sandbox.Capture.State.{
  CapturePhase, shooting, measurement_preparation, measurement_review, edit, captured, approved,
  AcceptedSlot, measured, PendingCapture, CaptureState, CaptureAction, capture_submitted,
  shot_assessed, measurement_drafted, provider_failed, retry_analysis, measurement_approved,
  guidance_received, connection_changed, retake, edit_requested, reset,
}
use furima_sandbox.Capture.Slots.{has_all_images, is_complete, replace_slot}
use furima_sandbox.Capture.Checks.{
  same_text, same_slot, is_non_empty_string, accepts_new_sequence, same_session,
  is_measurement_draft, is_approved_measurement, should_accept_guidance,
}
use furima_sandbox.Capture.Shots.{
  answered, assess, create_initial_capture_state, is_failed, is_measuring, submit,
}

unfoldable pub accept_draft : MeasurementDraft → PendingCapture → ℕ → CaptureState → CaptureState
accept_draft draft pending n s = record s {
  phase = CapturePhase.measurement;
  current_step = measurement_review;
  current_slot = measurement;
  pending_capture = none;
  slots = replace_slot s.slots measurement (
      some (
        measured (record {
          blob = pending.blob;
          object_url = pending.object_url;
          draft = draft;
          status = captured;
          accepted_sequence = n;
        })));
  measurement_draft = some draft;
  approved_measurement = none;
  provider_error = none;
  last_sequence = max s.last_sequence n;
}

-- MEASUREMENT_DRAFTED
unfoldable pub take_draft : Text → MeasurementDraft → Text → Sequence → CaptureState → CaptureState
take_draft session_id draft request_id sequence s =
    elim (answered session_id request_id sequence s) [
      | none ↦ s
      | some (pending, n) ↦
          if same_slot pending.slot measurement && is_measurement_draft draft
          then accept_draft draft pending n s
          else s
    ]

-- PROVIDER_ERROR
unfoldable pub record_error : Text → Text → Sequence → ProviderError → CaptureState → CaptureState
record_error session_id request_id sequence failure s =
    elim (answered session_id request_id sequence s) [
      | none ↦ s
      | some (pending, n) ↦ record s {
        phase = CapturePhase.error;
        provider_error = some failure;
        last_sequence = max s.last_sequence n;
      }
    ]

-- RETRY_ANALYSIS
unfoldable pub retry : Text → Text → Sequence → CaptureState → CaptureState
retry session_id request_id sequence s = elim s.pending_capture [
  | none ↦ s
  | some pending ↦ elim (accepts_new_sequence s sequence) [
    | none ↦ s
    | some n ↦
        if same_session s session_id
          && is_failed s.phase
          && is_some s.provider_error
          && not (same_text request_id pending.request_id)
          && is_non_empty_string request_id
        then record s {
          phase = CapturePhase.analyzing;
          pending_capture = some (record pending { request_id = request_id; sequence = n });
          provider_error = none;
          last_sequence = n;
        }
        else s
  ]
]

-- MEASUREMENT_APPROVED
unfoldable pub approve : Text → ApprovedMeasurement → Sequence → CaptureState → CaptureState
approve session_id approval sequence s = elim (accepts_new_sequence s sequence) [
  | none ↦ s
  | some n ↦ elim s.slots.measurement [
    | none ↦ s
    | some (AcceptedSlot.image _) ↦ s
    | some (measured m) ↦
        if same_session s session_id
          && is_measuring s.phase
          && has_all_images s.slots
          && is_some s.measurement_draft
          && is_approved_measurement approval
        then record s {
          phase = CapturePhase.ready;
          current_step = edit;
          current_slot = measurement;
          slots =
              replace_slot s.slots measurement
                (some (measured (record m { status = approved; accepted_sequence = n })));
          approved_measurement = some approval;
          provider_error = none;
          last_sequence = n;
        }
        else s
  ]
]

-- GUIDANCE_RECEIVED
unfoldable pub receive_guidance : GuidanceEvent → Double → CaptureState → CaptureState
receive_guidance event now s = elim (should_accept_guidance s event now) [
  | none ↦ s
  | some n ↦ record s { latest_guidance = some event; last_sequence = n }
]

-- CONNECTION_CHANGED
unfoldable pub connect : Text → ConnectionState → CaptureState → CaptureState
connect session_id link s =
    if same_session s session_id then record s { connection_state = link } else s

-- RETAKE
unfoldable pub clear_slot : SessionSlot → CaptureState → CaptureState
clear_slot measurement s = record s {
  phase = CapturePhase.measurement;
  current_step = measurement_preparation;
  current_slot = measurement;
  pending_capture = none;
  slots = replace_slot s.slots measurement none;
  measurement_draft = none;
  approved_measurement = none;
  provider_error = none;
  latest_guidance = none;
  last_assessment = none;
}
clear_slot (image slot) s = record s {
  phase = CapturePhase.capturing;
  current_step = shooting slot;
  current_slot = image slot;
  pending_capture = none;
  slots = replace_slot s.slots (image slot) none;
  provider_error = none;
  latest_guidance = none;
  last_assessment = none;
}

unfoldable pub retake_slot : Text → SessionSlot → CaptureState → CaptureState
retake_slot session_id slot s = if same_session s session_id then clear_slot slot s else s

-- EDIT_REQUESTED
unfoldable pub request_edit : Text → CaptureState → CaptureState
request_edit session_id s =
    if same_session s session_id && is_complete s.slots
    then record s { phase = CapturePhase.ready; current_step = edit; provider_error = none }
    else s

-- The actions other than RESET.
unfoldable pub advance : CaptureAction → CaptureState → CaptureState
advance (capture_submitted session sub) s = submit session sub s
advance (shot_assessed session slot assessment request n) s =
    assess session slot assessment request n s
advance (measurement_drafted session draft request n) s = take_draft session draft request n s
advance (provider_failed session request n failure) s = record_error session request n failure s
advance (retry_analysis session request n) s = retry session request n s
advance (measurement_approved session approval n) s = approve session approval n s
advance (guidance_received event now) s = receive_guidance event now s
advance (connection_changed session link) s = connect session link s
advance (retake session slot) s = retake_slot session slot s
advance (edit_requested session) s = request_edit session s
advance (reset session) s = s

-- captureReducer
unfoldable pub capture_reducer : CaptureState → CaptureAction → Option CaptureState
capture_reducer s (reset session) = create_initial_capture_state session
capture_reducer s action = some (advance action s)

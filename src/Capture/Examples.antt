-- ===== src/Capture/Examples.antt =====
-- The theorems on capture sessions at a small session, and a test of a whole one.
use furima_sandbox.Prelude.{
  true, ℕ, ◌≤◌, false, Option, none, some, List, [], ◌∷◌, ◌++◌, ◌≡◌, refl, inl, inr, arith,
}
use furima_sandbox.Prelude.Int.{pos}
use furima_sandbox.Text.{Text, text, Text-discrete, trim}
use furima_sandbox.Capture.Records.{
  ImageSlot, front, back, tag, image, measurement, ShotAssessment, ShotQuality, shot, NextAction,
  finite, natural, NormalizedPoint, MeasurementDraft, DraftSource, ApprovedMeasurement,
  ApprovedSource, connected,
}
use furima_sandbox.Capture.State.{
  CapturePhase, PendingCapture, CaptureState, CaptureAction, capture_submitted, shot_assessed,
  measurement_drafted, measurement_approved, connection_changed, retake,
}
use furima_sandbox.Capture.Shots.{
  initial_session, create_initial_capture_state, submit, submits, can_shoot, answered, assess,
  accept_shot, pending_for,
}
use furima_sandbox.Capture.Reducer.{
  retake_slot, clear_slot, capture_reducer, advance, take_draft, accept_draft, approve,
}
use furima_sandbox.Capture.Checks.{
  accepts_new_sequence, accepts_response_sequence, same_session, accepted_assessment,
  is_non_empty_string, is_measurement_draft, is_approved_measurement, is_ratio,
}
use furima_sandbox.Capture.Invariant.{IsConsistent, is_accepted, initial_session-IsConsistent}
use furima_sandbox.Capture.Sessions.{
  run_capture, session-IsConsistent, capture_reducer-other_session, capture_reducer-last_sequence,
}
use furima_sandbox.Capture.Responses.{
  slot_at, run_capture-retake, clear_slot-slots, capture_reducer-stale,
}
use furima_sandbox.Capture.Slots.{
  is_complete, replace_slot, empty_slots, next_phase_for_slots, next_pending_slot,
  has_accepted_image, has_all_images, has_approved_measurement,
}
use furima_sandbox.Capture.Progress.{
  submission_for, accepted_shot, next_pending_slot-open, run_capture-shot, accepted_before,
}

abbrev session : Text
session = text "session"

abbrev url : Text
url = text "blob:1"

abbrev request : Text
request = text "r"

abbrev first : CaptureState
first = initial_session session

abbrev good : ImageSlot → ShotAssessment
good slot = record {
  shot_type = shot slot;
  quality = ShotQuality.ok;
  issues = [];
  missing_shots = [];
  next_action = NextAction.request_next;
}

abbrev shoot : ImageSlot → ℕ → List CaptureAction
shoot slot n =
    capture_submitted session (submission_for (image slot) n url request n)
    ∷ shot_assessed session slot (good slot) request (natural n)
    ∷ []

abbrev corner : NormalizedPoint
corner = record { x = finite (pos 0); y = finite (pos 1) }

abbrev draft : MeasurementDraft
draft = record {
  image_id = text "image";
  endpoints = record {
    length_start = corner;
    length_end = corner;
    width_start = corner;
    width_end = corner;
  };
  length_cm = finite (pos 5);
  width_cm = finite (pos 4);
  confidence = none;
  source = DraftSource.ai;
}

abbrev approval : ApprovedMeasurement
approval = record {
  length_cm = finite (pos 5);
  width_cm = finite (pos 4);
  source = ApprovedSource.approved_cv;
}

-- From the first shot to the edit step.
abbrev whole_session : List CaptureAction
whole_session =
    shoot front 1
    ++ shoot back 2
    ++ shoot tag 3
    ++ capture_submitted session (submission_for measurement 4 url request 4)
      ∷ measurement_drafted session draft request (natural 4)
      ∷ measurement_approved session approval (natural 5)
      ∷ []

abbrev phase_after : Option CaptureState → Option CapturePhase
phase_after none = none
phase_after (some s) = some s.phase

whole_session_test : phase_after (run_capture first whole_session) ≡ some CapturePhase.ready
unfolding run_capture capture_reducer initial_session advance submit submits can_shoot answered
    assess accept_shot take_draft accept_draft approve pending_for accepts_new_sequence
    accepts_response_sequence same_session accepted_assessment is_non_empty_string
    is_measurement_draft is_approved_measurement is_ratio replace_slot next_phase_for_slots
    next_pending_slot has_accepted_image has_all_images has_approved_measurement empty_slots
    Text-discrete trim
whole_session_test = refl

session-IsConsistent_example : IsConsistent (clear_slot (image back) first)
unfolding run_capture capture_reducer initial_session advance retake_slot same_session Text-discrete
    create_initial_capture_state trim
session-IsConsistent_example =
    session-IsConsistent session first (retake session (image back) ∷ []) _ refl refl

other_session_example :
    capture_reducer first (connection_changed (text "other") connected) ≡ some first
unfolding same_session Text-discrete initial_session
other_session_example =
    capture_reducer-other_session first (connection_changed (text "other") connected) refl refl

last_sequence_example :
    first.last_sequence
    ≤ (submit session (submission_for (image front) 7 url request 1) first).last_sequence
unfolding capture_reducer initial_session advance submit submits can_shoot accepts_new_sequence
    same_session is_non_empty_string Text-discrete trim
last_sequence_example =
    capture_reducer-last_sequence first
      (capture_submitted session (submission_for (image front) 7 url request 1)) _ refl refl

retake_example :
    run_capture first (
      retake session (image front)
      ∷ shot_assessed session front (good front) request (natural 1)
      ∷ [])
    ≡ some (clear_slot (image front) first)
unfolding same_session Text-discrete initial_session
retake_example =
    run_capture-retake first session (image front)
      (shot_assessed session front (good front) request (natural 1) ∷ []) refl refl

clear_slot-slots_example :
    ((clear_slot (image front) first).current_slot ≡ image front)
    × (slot_at (clear_slot (image front) first).slots (image front) ≡ none)
    × (is_complete (clear_slot (image front) first).slots ≡ false)
    × (slot_at (clear_slot (image front) first).slots measurement ≡ slot_at first.slots measurement)
clear_slot-slots_example = clear_slot-slots first (image front) measurement refl

abbrev waiting_shot : PendingCapture
waiting_shot = record {
  session_id = session;
  slot = image front;
  blob = 7;
  object_url = url;
  request_id = request;
  sequence = 3;
}

abbrev waiting : CaptureState
waiting = record first {
  phase = CapturePhase.analyzing;
  pending_capture = some waiting_shot;
  last_sequence = 3;
}

stale_example :
    capture_reducer waiting (shot_assessed session front (good front) request (natural 2))
    ≡ some waiting
stale_example =
    capture_reducer-stale waiting waiting_shot
      (shot_assessed session front (good front) request (natural 2)) request 2 refl refl
      (inr (inl (omega arith)))

next_pending_slot_example :
    (is_accepted empty_slots (image front) ≡ false)
    × (accepted_before empty_slots (image front) ≡ true)
    × (is_complete empty_slots ≡ false)
unfolding next_pending_slot has_accepted_image empty_slots
next_pending_slot_example = next_pending_slot-open empty_slots (image front) refl

run_capture-shot_example :
    (t : CaptureState) × (run_capture first (shoot front 1) ≡ some t)
    × (t.slots
        ≡ replace_slot first.slots (image front) (some (accepted_shot front 1 url (good front) 1)))
    × (t.pending_capture ≡ none)
    × (t.last_sequence ≡ 1)
unfolding initial_session is_non_empty_string accepted_assessment trim
run_capture-shot_example =
    run_capture-shot first front 1 url request 1 (good front) (initial_session-IsConsistent session)
      refl refl (omega arith) refl refl

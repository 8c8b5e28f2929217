-- ===== src/Capture/State.antt =====
-- The state of a guided capture session and the actions on it
-- (app/features/guided-capture/core/types.ts).
use furima_sandbox.Prelude.{ℕ, Option}
use furima_sandbox.Text.{Text}
use furima_sandbox.Capture.Records.{
  ImageSlot, SessionSlot, ShotAssessment, GuidanceEvent, ConnectionState, ProviderError,
  MeasurementDraft, ApprovedMeasurement, Sequence, Double,
}

pub data CapturePhase : Type 0 where
  capturing analyzing measurement error ready : CapturePhase

pub data CaptureStep : Type 0 where
  shooting : ImageSlot → CaptureStep  -- 'front', 'back' and 'tag'
  measurement_preparation measurement_capture measurement_review edit : CaptureStep

pub data MeasurementStatus : Type 0 where
  captured approved : MeasurementStatus

pub record AcceptedImageSlot : Type 0 where
  pub slot : ImageSlot
  pub blob : ℕ
  pub object_url : Text
  pub assessment : ShotAssessment
  pub accepted_sequence : ℕ

pub record MeasurementSlot : Type 0 where
  pub blob : ℕ
  pub object_url : Text
  pub draft : MeasurementDraft
  pub status : MeasurementStatus
  pub accepted_sequence : ℕ

pub data AcceptedSlot : Type 0 where
  image : AcceptedImageSlot → AcceptedSlot
  measured : MeasurementSlot → AcceptedSlot

-- Record<SessionSlot, CaptureSlotRecord>
pub record CaptureSlots : Type 0 where
  pub front : Option AcceptedSlot
  pub back : Option AcceptedSlot
  pub tag : Option AcceptedSlot
  pub measurement : Option AcceptedSlot

-- An image when its slot is an image slot, and a measurement otherwise.
pub record PendingCapture : Type 0 where
  pub session_id : Text
  pub slot : SessionSlot
  pub blob : ℕ
  pub object_url : Text
  pub request_id : Text
  pub sequence : ℕ

pub record CaptureState : Type 0 where
  pub session_id : Text
  pub phase : CapturePhase
  pub current_step : CaptureStep
  pub current_slot : SessionSlot
  pub slots : CaptureSlots
  pub pending_capture : Option PendingCapture
  pub last_assessment : Option ShotAssessment
  pub measurement_draft : Option MeasurementDraft
  pub approved_measurement : Option ApprovedMeasurement
  pub latest_guidance : Option GuidanceEvent
  pub connection_state : ConnectionState
  pub last_sequence : ℕ
  pub provider_error : Option ProviderError

pub record Submission : Type 0 where
  pub slot : SessionSlot
  pub blob : ℕ
  pub object_url : Text
  pub request_id : Text
  pub sequence : Sequence

-- The first argument is the session id, where the action has one.
pub data CaptureAction : Type 0 where
  capture_submitted : Text → Submission → CaptureAction
  shot_assessed : Text → ImageSlot → ShotAssessment → Text → Sequence → CaptureAction
  measurement_drafted : Text → MeasurementDraft → Text → Sequence → CaptureAction
  provider_failed : Text → Text → Sequence → ProviderError → CaptureAction
  retry_analysis : Text → Text → Sequence → CaptureAction
  measurement_approved : Text → ApprovedMeasurement → Sequence → CaptureAction
  guidance_received : GuidanceEvent → Double → CaptureAction
  connection_changed : Text → ConnectionState → CaptureAction
  retake : Text → SessionSlot → CaptureAction
  edit_requested : Text → CaptureAction
  reset : Text → CaptureAction

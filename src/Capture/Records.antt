-- ===== src/Capture/Records.antt =====
-- The contracts of a guided capture session (app/features/guided-capture/core/types.ts).
--
-- A Blob is an object of the browser that the session only hands on: the number that stands for it
-- says which object it is. A field that can hold one text only (`kind`, the `status` of an image
-- slot and of a draft) is left out or is the constructor. A double is finite, and then a whole
-- multiple of 2^-1074, or else a NaN or an infinity.
use furima_sandbox.Prelude.{ℕ, Bool, Option, List}
use furima_sandbox.Prelude.Int.{ℤ}
use furima_sandbox.Text.{Text}

pub data ImageSlot : Type 0 where
  front back tag : ImageSlot

pub data SessionSlot : Type 0 where
  image : ImageSlot → SessionSlot
  measurement : SessionSlot

pub data ShotType : Type 0 where
  shot : ImageSlot → ShotType
  unknown : ShotType

pub data ShotIssueCode : Type 0 where
  too_dark too_bright too_blurry blurry garment_cropped tag_unreadable wrong_shot : ShotIssueCode

pub data ShotQuality : Type 0 where
  ok retry : ShotQuality

pub data NextAction : Type 0 where
  retake request_next complete : NextAction

pub record ShotAssessment : Type 0 where
  pub shot_type : ShotType
  pub quality : ShotQuality
  pub issues : List ShotIssueCode
  pub missing_shots : List ImageSlot
  pub next_action : NextAction

pub data GuidanceCode : Type 0 where
  move_closer move_farther center_garment show_full_garment wrong_side move_to_tag : GuidanceCode
  place_marker marker_not_visible flatten_garment camera_overhead hold_steady : GuidanceCode
  ready agent_unavailable : GuidanceCode

-- A double: `finite n` is n * 2^-1074.
pub data Double : Type 0 where
  finite : ℤ → Double
  not_finite : Double

-- A number that is used as a sequence: a natural number, or any other double.
pub data Sequence : Type 0 where
  natural : ℕ → Sequence
  improper : Sequence

pub record GuidanceEvent : Type 0 where
  pub session_id : Text
  pub sequence : Sequence
  pub shot : SessionSlot
  pub code : GuidanceCode
  pub message : Text
  pub confidence : Double
  pub observed_at : Double
  pub expires_at : Double

pub data ConnectionState : Type 0 where
  connecting connected reconnecting disconnected : ConnectionState

pub data ProviderName : Type 0 where
  shot_assessor vision_guidance measurement_line background_generator : ProviderName
  garment_masker capture_session livekit : ProviderName

pub data ProviderErrorCode : Type 0 where
  timeout unavailable invalid_response invalid_input : ProviderErrorCode
  stale_session stale_sequence stale_request unknown : ProviderErrorCode

pub record ProviderError : Type 0 where
  pub provider : ProviderName
  pub code : ProviderErrorCode
  pub message : Text
  pub retryable : Bool

pub record NormalizedPoint : Type 0 where
  pub x : Double
  pub y : Double

pub record MeasurementEndpoints : Type 0 where
  pub length_start : NormalizedPoint
  pub length_end : NormalizedPoint
  pub width_start : NormalizedPoint
  pub width_end : NormalizedPoint

pub data DraftSource : Type 0 where
  ai contour user : DraftSource

pub record MeasurementDraft : Type 0 where
  pub image_id : Text
  pub endpoints : MeasurementEndpoints
  pub length_cm : Double
  pub width_cm : Double
  pub confidence : Option Double
  pub source : DraftSource

pub data ApprovedSource : Type 0 where
  approved_cv approved_manual : ApprovedSource

pub record ApprovedMeasurement : Type 0 where
  pub length_cm : Double
  pub width_cm : Double
  pub source : ApprovedSource

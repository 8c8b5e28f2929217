-- ===== src/Capture/Checks.antt =====
-- The checks that the reducer makes of an action's data: sequences, texts, measurements, guidance
-- (app/features/guided-capture/core/captureReducer.ts).
--
-- The checks of `typeof`, of the keys of `endpoints` and of the members of a closed list of texts
-- hold of every value of the types here.
use Prim.Native.Nat.{◌^◌}
use furima_sandbox.Prelude.{
  ℕ, Bool, true, false, ◌&&◌, not, Option, none, some, ltb, leb, if◌then◌else◌,
}
use furima_sandbox.Prelude.Int.{pos, ltb_ℤ}
use furima_sandbox.Text.{Text, Text-discrete, is_empty, trim}
use furima_sandbox.Capture.Records.{
  ImageSlot, front, back, tag, SessionSlot, image, measurement, ShotType, shot, ShotQuality,
  ShotAssessment, Double, finite, not_finite, Sequence, natural, improper, NormalizedPoint,
  MeasurementDraft, ApprovedMeasurement, GuidanceEvent,
}
use furima_sandbox.Capture.State.{PendingCapture, CaptureState}

abbrev pub same_text : Text → Text → Bool
same_text a b = elim (Text-discrete a b) [ yes _ ↦ true | no _ ↦ false ]

abbrev pub same_image_slot : ImageSlot → ImageSlot → Bool
same_image_slot front front = true
same_image_slot back back = true
same_image_slot tag tag = true
same_image_slot _ _ = false

abbrev pub same_slot : SessionSlot → SessionSlot → Bool
same_slot (image a) (image b) = same_image_slot a b
same_slot measurement measurement = true
same_slot _ _ = false

unfoldable pub is_non_empty_string : Text → Bool
is_non_empty_string t = not (is_empty (trim t))

-- acceptsNewSequence: the sequence, if it is accepted.
unfoldable pub accepts_new_sequence : CaptureState → Sequence → Option ℕ
accepts_new_sequence s improper = none
accepts_new_sequence s (natural n) = if ltb s.last_sequence n then some n else none

-- acceptsResponseSequence: the sequence, if it is accepted.
unfoldable pub accepts_response_sequence : CaptureState → PendingCapture → Sequence → Option ℕ
accepts_response_sequence s pending improper = none
accepts_response_sequence s pending (natural n) =
    if leb pending.sequence n && leb s.last_sequence n then some n else none

unfoldable pub same_session : CaptureState → Text → Bool
same_session s session_id = same_text s.session_id session_id

unfoldable pub accepted_assessment : ShotAssessment → ImageSlot → Bool
accepted_assessment assessment slot =
    is_ok assessment.quality && same_shot assessment.shot_type slot
  where
    is_ok : ShotQuality → Bool
    is_ok ShotQuality.ok = true
    is_ok ShotQuality.retry = false

    same_shot : ShotType → ImageSlot → Bool
    same_shot (shot a) b = same_image_slot a b
    same_shot ShotType.unknown _ = false

-- Number.isFinite(x) && x > 0
abbrev pub is_positive : Double → Bool
is_positive (finite x) = ltb_ℤ (pos 0) x
is_positive not_finite = false

-- Number.isFinite(x) && x >= 0
abbrev pub is_at_least_zero : Double → Bool
is_at_least_zero (finite (pos _)) = true
is_at_least_zero _ = false

-- Number.isFinite(x) && x >= 0 && x <= 1, where 2 ^ 1074 is the double 1.
unfoldable pub is_ratio : Double → Bool
is_ratio (finite (pos n)) = leb n (2 ^ 1074)
is_ratio _ = false

-- Number.isFinite(a) && Number.isFinite(b) && a < b
unfoldable pub is_before : Double → Double → Bool
is_before (finite a) (finite b) = ltb_ℤ a b
is_before _ _ = false

unfoldable pub is_measurement_draft : MeasurementDraft → Bool
is_measurement_draft draft =
    is_non_empty_string draft.image_id
    && is_positive draft.length_cm
    && is_positive draft.width_cm
    && is_inside draft.endpoints.length_start
    && is_inside draft.endpoints.length_end
    && is_inside draft.endpoints.width_start
    && is_inside draft.endpoints.width_end
    && is_confidence draft.confidence
  where
    is_inside : NormalizedPoint → Bool
    is_inside point = is_ratio point.x && is_ratio point.y

    is_confidence : Option Double → Bool
    is_confidence none = true
    is_confidence (some c) = is_ratio c

unfoldable pub is_approved_measurement : ApprovedMeasurement → Bool
is_approved_measurement m = is_positive m.length_cm && is_positive m.width_cm

-- Number.isSafeInteger
abbrev pub safe_sequence : Sequence → Sequence
safe_sequence (natural n) = if leb n 9007199254740991 then natural n else improper
safe_sequence improper = improper

-- shouldAcceptGuidance: the event's sequence, if it is accepted.
unfoldable pub should_accept_guidance : CaptureState → GuidanceEvent → Double → Option ℕ
should_accept_guidance s event now =
    if is_non_empty_string event.session_id
      && same_session s event.session_id
      && same_slot event.shot s.current_slot
      && is_non_empty_string event.message
      && is_ratio event.confidence
      && is_at_least_zero event.observed_at
      && is_before event.observed_at event.expires_at
      && is_at_least_zero now
      && is_before now event.expires_at
    then accepts_new_sequence s (safe_sequence event.sequence)
    else none

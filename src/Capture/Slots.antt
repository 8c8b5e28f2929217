-- ===== src/Capture/Slots.antt =====
-- The slots of a session and the step that they lead to: emptySlots, hasAllImages,
-- hasApprovedMeasurement, nextPendingSlot, nextCaptureStep, replaceSlot and nextPhaseForSlots of
-- app/features/guided-capture/core/captureReducer.ts.
use furima_sandbox.Prelude.{Bool, true, false, ◌&&◌, Option, none, some, if◌then◌else◌}
use furima_sandbox.Capture.Records.{ImageSlot, front, back, tag, SessionSlot}
use furima_sandbox.Capture.State.{
  CapturePhase, CaptureStep, shooting, measurement_preparation, edit, MeasurementStatus, captured,
  approved, AcceptedSlot, image, measured, CaptureSlots,
}

unfoldable pub empty_slots : CaptureSlots
empty_slots = record { front = none; back = none; tag = none; measurement = none }

-- slots[slot]
abbrev pub image_at : CaptureSlots → ImageSlot → Option AcceptedSlot
image_at slots front = slots.front
image_at slots back = slots.back
image_at slots tag = slots.tag

-- value?.kind === 'image'
abbrev pub is_image : Option AcceptedSlot → Bool
is_image (some (image _)) = true
is_image _ = false

unfoldable pub has_accepted_image : CaptureSlots → ImageSlot → Bool
has_accepted_image slots slot = is_image (image_at slots slot)

unfoldable pub has_all_images : CaptureSlots → Bool
has_all_images slots =
    has_accepted_image slots front && has_accepted_image slots back && has_accepted_image slots tag

abbrev pub is_approved : MeasurementStatus → Bool
is_approved captured = false
is_approved approved = true

abbrev pub is_approved_slot : Option AcceptedSlot → Bool
is_approved_slot (some (measured m)) = is_approved m.status
is_approved_slot _ = false

unfoldable pub has_approved_measurement : CaptureSlots → Bool
has_approved_measurement slots = is_approved_slot slots.measurement

-- canEnterEdit, of the state's slots.
unfoldable pub is_complete : CaptureSlots → Bool
is_complete slots = has_all_images slots && has_approved_measurement slots

-- A slot, or `none` for 'edit'.
unfoldable pub next_pending_slot : CaptureSlots → Option SessionSlot
next_pending_slot slots =
    if has_accepted_image slots front
    then if has_accepted_image slots back
      then if has_accepted_image slots tag
        then if has_approved_measurement slots then none else some SessionSlot.measurement
        else some (SessionSlot.image tag)
      else some (SessionSlot.image back)
    else some (SessionSlot.image front)

abbrev pub step_for : Option SessionSlot → CaptureStep
step_for none = edit
step_for (some SessionSlot.measurement) = measurement_preparation
step_for (some (SessionSlot.image slot)) = shooting slot

unfoldable pub next_capture_step : CaptureSlots → CaptureStep
next_capture_step slots = step_for (next_pending_slot slots)

unfoldable pub replace_slot : CaptureSlots → SessionSlot → Option AcceptedSlot → CaptureSlots
replace_slot slots (SessionSlot.image front) value = record slots { front = value }
replace_slot slots (SessionSlot.image back) value = record slots { back = value }
replace_slot slots (SessionSlot.image tag) value = record slots { tag = value }
replace_slot slots SessionSlot.measurement value = record slots { measurement = value }

pub record NextPhase : Type 0 where
  pub current_slot : SessionSlot
  pub phase : CapturePhase
  pub current_step : CaptureStep

abbrev pub phase_for : Option SessionSlot → NextPhase
phase_for none = record {
  current_slot = SessionSlot.measurement;
  phase = CapturePhase.ready;
  current_step = edit;
}
phase_for (some SessionSlot.measurement) = record {
  current_slot = SessionSlot.measurement;
  phase = CapturePhase.measurement;
  current_step = measurement_preparation;
}
phase_for (some (SessionSlot.image slot)) = record {
  current_slot = SessionSlot.image slot;
  phase = CapturePhase.capturing;
  current_step = shooting slot;
}

unfoldable pub next_phase_for_slots : CaptureSlots → NextPhase
next_phase_for_slots slots = phase_for (next_pending_slot slots)

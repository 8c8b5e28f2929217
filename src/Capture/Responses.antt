-- ===== src/Capture/Responses.antt =====
-- Responses of the providers that come late or out of order, and retakes
-- (app/features/guided-capture/core/captureReducer.ts).
use furima_sandbox.Prelude.{
  ℕ, ◌<◌, Bool, true, false, Option, none, some, List, [], ◌∷◌, ◌≡◌, refl, ◌∙◌, arith, all, ◌⊎◌,
}
use furima_sandbox.Text.{Text}
use furima_sandbox.Capture.Records.{
  front, back, tag, SessionSlot, image, measurement, Sequence, natural,
}
use furima_sandbox.Capture.State.{
  AcceptedSlot, CaptureSlots, PendingCapture, CaptureState, CaptureAction, shot_assessed,
  measurement_drafted, provider_failed, retake,
}
use furima_sandbox.Capture.Slots.{
  replace_slot, is_complete, has_all_images, has_accepted_image, has_approved_measurement,
}
use furima_sandbox.Capture.Checks.{same_session, same_text, same_slot, accepts_response_sequence}
use furima_sandbox.Capture.Shots.{answered, assess}
use furima_sandbox.Capture.Reducer.{
  take_draft, record_error, clear_slot, retake_slot, advance, capture_reducer,
}
use furima_sandbox.Capture.Sessions.{run_capture, run_capture-step}

abbrev pub is_response : CaptureAction → Bool
is_response (shot_assessed _ _ _ _ _) = true
is_response (measurement_drafted _ _ _ _) = true
is_response (provider_failed _ _ _ _) = true
is_response _ = false

-- The request and the sequence that a response names.
abbrev pub request_of : CaptureAction → Option (Text × Sequence)
request_of (shot_assessed _ _ _ request n) = some (request, n)
request_of (measurement_drafted _ _ request n) = some (request, n)
request_of (provider_failed _ request n _) = some (request, n)
request_of _ = none

-- With nothing pending, a response changes nothing.
unanswered :
    (s : CaptureState) (action : CaptureAction)
    → is_response action ≡ true
    → s.pending_capture ≡ none
    → capture_reducer s action ≡ some s
unfolding capture_reducer advance assess answered take_draft record_error
unanswered s action r e = ground arith

run_capture-unanswered :
    (s : CaptureState) (actions : List CaptureAction)
    → all is_response actions ≡ true
    → s.pending_capture ≡ none
    → run_capture s actions ≡ some s
unfolding run_capture
run_capture-unanswered s [] r e = refl
run_capture-unanswered s (action ∷ rest) r e =
    run_capture-step s action rest s (unanswered s action (ground arith) e)
    ∙ run_capture-unanswered s rest (ground arith) e

-- After a retake, no sequence of responses changes anything: a late one cannot fill the slot again.
pub run_capture-retake :
    (s : CaptureState) (session : Text) (slot : SessionSlot) (responses : List CaptureAction)
    → same_session s session ≡ true
    → all is_response responses ≡ true
    → run_capture s (retake session slot ∷ responses) ≡ some (clear_slot slot s)
unfolding capture_reducer advance retake_slot clear_slot
run_capture-retake s session slot responses here r =
    run_capture-step s (retake session slot) responses (clear_slot slot s) (ground arith)
    ∙ run_capture-unanswered (clear_slot slot s) responses r (nothing_pending slot)
  where
    nothing_pending : (slot : SessionSlot) → (clear_slot slot s).pending_capture ≡ none
    nothing_pending measurement = refl
    nothing_pending (image _) = refl

-- What a slot holds: slots[slot].
abbrev pub slot_at : CaptureSlots → SessionSlot → Option AcceptedSlot
slot_at slots (image front) = slots.front
slot_at slots (image back) = slots.back
slot_at slots (image tag) = slots.tag
slot_at slots measurement = slots.measurement

-- Clearing a slot for a retake makes it the current one, empties it, so that the session is not
-- complete, and leaves what each other slot holds as it was.
pub clear_slot-slots :
    (s : CaptureState) (slot other : SessionSlot)
    → same_slot slot other ≡ false
    → ((clear_slot slot s).current_slot ≡ slot)
      × (slot_at (clear_slot slot s).slots slot ≡ none)
      × (is_complete (clear_slot slot s).slots ≡ false)
      × (slot_at (clear_slot slot s).slots other ≡ slot_at s.slots other)
unfolding clear_slot replace_slot is_complete has_all_images has_accepted_image
    has_approved_measurement
clear_slot-slots s slot other apart = ground arith

-- A response to another request than the pending one, or with an older sequence than it or than the
-- session's last, changes nothing.
pub capture_reducer-stale :
    (s : CaptureState) (pending : PendingCapture) (action : CaptureAction) (request : Text) (n : ℕ)
    → s.pending_capture ≡ some pending
    → request_of action ≡ some (request, natural n)
    → (same_text pending.request_id request ≡ false)
      ⊎ (n < pending.sequence)
      ⊎ (n < s.last_sequence)
    → capture_reducer s action ≡ some s
unfolding capture_reducer advance assess answered take_draft record_error accepts_response_sequence
capture_reducer-stale s pending action request n e q stale = ground arith

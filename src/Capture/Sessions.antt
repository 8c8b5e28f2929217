-- ===== src/Capture/Sessions.antt =====
-- Whole sessions: runs of captureReducer (app/features/guided-capture/core/captureReducer.ts).
use furima_sandbox.Prelude.{
  ◌≤◌, Bool, true, false, Option, none, some, List, [], ◌∷◌, ◌≡◌, ◌⊎◌, refl, sym, ◌∙◌, inl, inr,
  arith, Option-cases,
}
use furima_sandbox.Text.{Text}
use furima_sandbox.Capture.State.{
  CaptureState, CaptureAction, capture_submitted, shot_assessed, measurement_drafted,
  provider_failed, retry_analysis, measurement_approved, guidance_received, connection_changed,
  retake, edit_requested, reset,
}
use furima_sandbox.Capture.Checks.{same_session, accepts_new_sequence, should_accept_guidance}
use furima_sandbox.Capture.Shots.{
  initial_session, create_initial_capture_state, submits, submit, answered, reject_shot,
  accept_shot, assess,
}
use furima_sandbox.Capture.Reducer.{
  accept_draft, take_draft, record_error, retry, approve, receive_guidance, connect, clear_slot,
  retake_slot, request_edit, advance, capture_reducer,
}
use furima_sandbox.Capture.Invariant.{
  IsConsistent, initial_session-IsConsistent, submit-IsConsistent, assess-IsConsistent,
  take_draft-IsConsistent, record_error-IsConsistent, retry-IsConsistent, approve-IsConsistent,
  receive_guidance-IsConsistent, connect-IsConsistent, retake_slot-IsConsistent,
  request_edit-IsConsistent,
}

-- The actions in order; a throw ends the run.
unfoldable pub run_capture : CaptureState → List CaptureAction → Option CaptureState
run_capture s [] = some s
run_capture s (action ∷ rest) = elim (capture_reducer s action) [
  | none ↦ none
  | some t ↦ run_capture t rest
]

advance-IsConsistent :
    (action : CaptureAction) (s : CaptureState) → IsConsistent s → IsConsistent (advance action s)
unfolding advance
advance-IsConsistent (capture_submitted session sub) s h = submit-IsConsistent session sub s h
advance-IsConsistent (shot_assessed session slot assessment request n) s h =
    assess-IsConsistent session slot assessment request n s h
advance-IsConsistent (measurement_drafted session draft request n) s h =
    take_draft-IsConsistent session draft request n s h
advance-IsConsistent (provider_failed session request n failure) s h =
    record_error-IsConsistent session request n failure s h
advance-IsConsistent (retry_analysis session request n) s h =
    retry-IsConsistent session request n s h
advance-IsConsistent (measurement_approved session approval n) s h =
    approve-IsConsistent session approval n s h
advance-IsConsistent (guidance_received event now) s h = receive_guidance-IsConsistent event now s h
advance-IsConsistent (connection_changed session link) s h = connect-IsConsistent session link s h
advance-IsConsistent (retake session slot) s h = retake_slot-IsConsistent session slot s h
advance-IsConsistent (edit_requested session) s h = request_edit-IsConsistent session s h
advance-IsConsistent (reset session) s h = h

create_initial_capture_state-IsConsistent :
    (session : Text) (s : CaptureState)
    → create_initial_capture_state session ≡ some s
    → IsConsistent s
unfolding create_initial_capture_state
create_initial_capture_state-IsConsistent session s e =
    let first : initial_session session ≡ s = ground arith in
    rw (sym first) (initial_session-IsConsistent session)

-- An action is a reset, or `advance` says what it gives.
reducer_cases :
    (s : CaptureState) (action : CaptureAction) (t : CaptureState)
    → capture_reducer s action ≡ some t
    → (advance action s ≡ t) ⊎ ((session : Text) × (create_initial_capture_state session ≡ some t))
unfolding capture_reducer
reducer_cases s (reset session) t e = inr (session, e)
reducer_cases s action t e = inl (ground arith)

capture_reducer-IsConsistent :
    (s : CaptureState) (action : CaptureAction) (t : CaptureState)
    → IsConsistent s
    → capture_reducer s action ≡ some t
    → IsConsistent t
capture_reducer-IsConsistent s action t h e = elim (reducer_cases s action t e) [
  | inl stepped ↦ rw (sym stepped) (advance-IsConsistent action s h)
  | inr (session, started) ↦ create_initial_capture_state-IsConsistent session t started
]

pub run_capture-nil : (s : CaptureState) → run_capture s [] ≡ some s
unfolding run_capture
run_capture-nil s = refl

pub run_capture-step :
    (s : CaptureState) (action : CaptureAction) (rest : List CaptureAction) (next : CaptureState)
    → capture_reducer s action ≡ some next
    → run_capture s (action ∷ rest) ≡ run_capture next rest
unfolding run_capture
run_capture-step s action rest next stepped = rw (stepped, run_capture) refl

run_capture-IsConsistent :
    (s : CaptureState) (actions : List CaptureAction) (t : CaptureState)
    → IsConsistent s
    → run_capture s actions ≡ some t
    → IsConsistent t
unfolding run_capture
run_capture-IsConsistent s [] t h e = let same : s ≡ t = ground arith in rw (sym same) h
run_capture-IsConsistent s (action ∷ rest) t h e = elim (Option-cases (capture_reducer s action)) [
  | inl failed ↦ absurd (ground arith)
  | inr (next, stepped) ↦
      run_capture-IsConsistent next rest t (capture_reducer-IsConsistent s action next h stepped)
        (sym (run_capture-step s action rest next stepped) ∙ e)
]

-- Every state that a session reaches from its first one by any actions is consistent: the phase is
-- ready exactly when the three images and the approved measurement are there, the current slot is
-- open until then, a capture is pending exactly while it is analyzed or has failed and belongs to the
-- current slot, an error is kept exactly in the error phase, an approval is kept exactly when its
-- slot is approved, and no pending sequence exceeds the session's last.
pub session-IsConsistent :
    (session : Text) (first : CaptureState) (actions : List CaptureAction) (t : CaptureState)
    → create_initial_capture_state session ≡ some first
    → run_capture first actions ≡ some t
    → IsConsistent t
session-IsConsistent session first actions t started ran =
    run_capture-IsConsistent first actions t
      (create_initial_capture_state-IsConsistent session first started) ran

-- The session that an action names.
abbrev pub session_of : CaptureAction → Text
session_of (capture_submitted session _) = session
session_of (shot_assessed session _ _ _ _) = session
session_of (measurement_drafted session _ _ _) = session
session_of (provider_failed session _ _ _) = session
session_of (retry_analysis session _ _) = session
session_of (measurement_approved session _ _) = session
session_of (guidance_received event _) = event.session_id
session_of (connection_changed session _) = session
session_of (retake session _) = session
session_of (edit_requested session) = session
session_of (reset session) = session

abbrev pub is_reset : CaptureAction → Bool
is_reset (reset _) = true
is_reset _ = false

-- An action for another session, other than a reset, changes nothing.
pub capture_reducer-other_session :
    (s : CaptureState) (action : CaptureAction)
    → is_reset action ≡ false
    → same_session s (session_of action) ≡ false
    → capture_reducer s action ≡ some s
unfolding capture_reducer advance submit submits assess answered take_draft record_error retry
    approve receive_guidance should_accept_guidance connect retake_slot request_edit
capture_reducer-other_session s (capture_submitted session sub) r e = ground arith
capture_reducer-other_session s (shot_assessed session slot assessment request n) r e = ground arith
capture_reducer-other_session s (measurement_drafted session draft request n) r e = ground arith
capture_reducer-other_session s (provider_failed session request n failure) r e = ground arith
capture_reducer-other_session s (retry_analysis session request n) r e = ground arith
capture_reducer-other_session s (measurement_approved session approval n) r e = ground arith
capture_reducer-other_session s (guidance_received event now) r e = ground arith
capture_reducer-other_session s (connection_changed session link) r e = ground arith
capture_reducer-other_session s (retake session slot) r e = ground arith
capture_reducer-other_session s (edit_requested session) r e = ground arith
capture_reducer-other_session s (reset session) r e = ground arith

-- An action other than a reset never lowers the session's last sequence.
pub capture_reducer-last_sequence :
    (s : CaptureState) (action : CaptureAction) (t : CaptureState)
    → is_reset action ≡ false
    → capture_reducer s action ≡ some t
    → s.last_sequence ≤ t.last_sequence
unfolding capture_reducer advance submit assess reject_shot accept_shot take_draft accept_draft
    record_error retry approve receive_guidance connect retake_slot clear_slot request_edit
    accepts_new_sequence should_accept_guidance
capture_reducer-last_sequence s (capture_submitted session sub) t r e = ground arith
capture_reducer-last_sequence s (shot_assessed session slot assessment request n) t r e =
    ground arith
capture_reducer-last_sequence s (measurement_drafted session draft request n) t r e = ground arith
capture_reducer-last_sequence s (provider_failed session request n failure) t r e = ground arith
capture_reducer-last_sequence s (retry_analysis session request n) t r e = ground arith
capture_reducer-last_sequence s (measurement_approved session approval n) t r e = ground arith
capture_reducer-last_sequence s (guidance_received event now) t r e = ground arith
capture_reducer-last_sequence s (connection_changed session link) t r e = ground arith
capture_reducer-last_sequence s (retake session slot) t r e = ground arith
capture_reducer-last_sequence s (edit_requested session) t r e = ground arith
capture_reducer-last_sequence s (reset session) t r e = ground arith

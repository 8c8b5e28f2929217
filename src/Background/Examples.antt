-- ===== src/Background/Examples.antt =====
-- The theorems on background edits at a composite that is approved.
use furima_sandbox.Prelude.{◌≡◌, refl, some, List, [], ◌∷◌}
use furima_sandbox.Background.Reducer.{
  composite, BackgroundEditAction, start_processing, preview_ready, select_output, approve,
  BackgroundEditState, initial_state, choose, approve_selected, background_edit_reducer, run_edit,
}
use furima_sandbox.Background.Approval.{IsConsistent, run_edit-IsConsistent}

abbrev chosen_composite : List BackgroundEditAction
chosen_composite = start_processing ∷ preview_ready 7 ∷ select_output composite 7 ∷ []

abbrev before_approval : BackgroundEditState
before_approval = run_edit chosen_composite initial_state

approved_blob_is_preview : (background_edit_reducer approve before_approval).approved_blob ≡ some 7
unfolding run_edit background_edit_reducer initial_state choose approve_selected
approved_blob_is_preview = refl

run_edit-IsConsistent_example : IsConsistent (run_edit chosen_composite initial_state)
run_edit-IsConsistent_example = run_edit-IsConsistent chosen_composite

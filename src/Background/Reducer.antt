-- ===== src/Background/Reducer.antt =====
-- The reducer of app/features/background-edit/backgroundEditReducer.ts. A Blob is an object of the
-- browser that is compared by identity: a number says which one it is.
use furima_sandbox.Prelude.{
  is_some, ℕ, Bool, true, false, not, ◌&&◌, ◌||◌, Option, none, some, List, [], ◌∷◌, ◌==◌,
  if◌then◌else◌,
}
use furima_sandbox.Text.{Text, is_empty}

pub data Phase : Type 0 where
  idle processing preview approved error : Phase

pub data Selection : Type 0 where
  original composite : Selection

pub record BackgroundEditState : Type 0 where
  pub phase : Phase
  pub preview_blob : Option ℕ
  pub selected_blob : Option ℕ
  pub selected_output : Option Selection
  pub approved_blob : Option ℕ
  pub approved_output : Option Selection
  pub error : Option Text

pub data BackgroundEditAction : Type 0 where
  start_processing : BackgroundEditAction
  preview_ready : ℕ → BackgroundEditAction
  processing_failed : Text → BackgroundEditAction
  select_output : Selection → ℕ → BackgroundEditAction
  approve : BackgroundEditAction
  approval_failed : Text → BackgroundEditAction
  revoke_approval reject reset : BackgroundEditAction

-- createInitialBackgroundEditState
unfoldable pub initial_state : BackgroundEditState
initial_state = record {
  phase = idle;
  preview_blob = none;
  selected_blob = none;
  selected_output = none;
  approved_blob = none;
  approved_output = none;
  error = none;
}

-- idleState(message)
unfoldable pub failed_state : Text → BackgroundEditState
failed_state message = record initial_state {
  phase = if is_empty message then idle else Phase.error;
  error = some message;
}

abbrev pub is_preview : Phase → Bool
is_preview preview = true
is_preview idle = false
is_preview processing = false
is_preview approved = false
is_preview Phase.error = false

abbrev pub is_approved : Phase → Bool
is_approved approved = true
is_approved idle = false
is_approved processing = false
is_approved preview = false
is_approved Phase.error = false

abbrev pub is_processing : Phase → Bool
is_processing processing = true
is_processing idle = false
is_processing preview = false
is_processing approved = false
is_processing Phase.error = false

abbrev pub is_composite : Selection → Bool
is_composite composite = true
is_composite original = false

-- a === b, of blobs that may be null.
abbrev pub same_blob : Option ℕ → Option ℕ → Bool
same_blob none none = true
same_blob none (some _) = false
same_blob (some _) none = false
same_blob (some a) (some b) = a == b

-- The case SELECT_OUTPUT.
unfoldable pub choose : Selection → ℕ → BackgroundEditState → BackgroundEditState
choose selection blob s =
    if is_processing s.phase || is_approved s.phase
    then s
    else if is_composite selection
        && (not (is_preview s.phase) || not (same_blob s.preview_blob (some blob)))
    then s
    else record s {
      phase = preview;
      selected_blob = some blob;
      selected_output = some selection;
      approved_blob = none;
      approved_output = none;
      error = none;
    }

-- state.selectedOutput === 'composite' && state.selectedBlob !== state.previewBlob
abbrev pub is_outdated : BackgroundEditState → Bool
is_outdated s = elim s.selected_output [
  | none ↦ false
  | some selection ↦ is_composite selection && not (same_blob s.selected_blob s.preview_blob)
]

-- The case APPROVE.
unfoldable pub approve_selected : BackgroundEditState → BackgroundEditState
approve_selected s =
    if not (is_preview s.phase)
      || not (is_some s.selected_blob)
      || not (is_some s.selected_output)
      || is_outdated s
    then s
    else record s {
      phase = approved;
      approved_blob = s.selected_blob;
      approved_output = s.selected_output;
      error = none;
    }

-- The case REVOKE_APPROVAL.
unfoldable pub revoke : BackgroundEditState → BackgroundEditState
revoke s =
    if is_approved s.phase
    then record s {
      phase = if is_some s.preview_blob then preview else idle;
      selected_blob = none;
      selected_output = none;
      approved_blob = none;
      approved_output = none;
      error = none;
    }
    else s

-- backgroundEditReducer
unfoldable pub background_edit_reducer :
    BackgroundEditAction → BackgroundEditState → BackgroundEditState
background_edit_reducer start_processing s = record initial_state { phase = processing }
background_edit_reducer (preview_ready blob) s = record initial_state {
  phase = preview;
  preview_blob = some blob;
}
background_edit_reducer (processing_failed message) s = failed_state message
background_edit_reducer (select_output selection blob) s = choose selection blob s
background_edit_reducer approve s = approve_selected s
background_edit_reducer (approval_failed message) s = record s { error = some message }
background_edit_reducer revoke_approval s = revoke s
background_edit_reducer reject s = initial_state
background_edit_reducer reset s = initial_state

-- A run of actions, the first first.
unfoldable pub run_edit : List BackgroundEditAction → BackgroundEditState → BackgroundEditState
run_edit [] s = s
run_edit (a ∷ rest) s = run_edit rest (background_edit_reducer a s)

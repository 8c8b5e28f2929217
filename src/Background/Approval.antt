-- ===== src/Background/Approval.antt =====
-- What is approved in a background edit (app/features/background-edit/backgroundEditReducer.ts), and
-- what the edit promises to a user who sees only the choice and the approval.
use furima_sandbox.Prelude.{
  is_some, ℕ, ◌≡◌, refl, ◌⊎◌, inl, Bool, true, false, not, ◌&&◌, ◌||◌, Option, none, some, List, [],
  ◌∷◌, arith,
}
use furima_sandbox.Background.Reducer.{
  Selection, BackgroundEditState, BackgroundEditAction, start_processing, preview_ready,
  processing_failed, select_output, approve, approval_failed, revoke_approval, reject, reset,
  initial_state, failed_state, is_preview, is_approved, same_blob, choose, is_outdated,
  approve_selected, revoke, background_edit_reducer, run_edit,
}

pub record IsConsistent (s : BackgroundEditState) : Type 0 where
  pub chosen : is_some s.selected_blob ≡ is_some s.selected_output
  pub granted : is_some s.approved_blob ≡ is_approved s.phase
  pub granted_output : is_some s.approved_output ≡ is_approved s.phase
  pub kept_blob : is_approved s.phase && not (same_blob s.approved_blob s.selected_blob) ≡ false
  pub kept_output : (s.approved_output ≡ none) ⊎ (s.approved_output ≡ s.selected_output)
  pub current : is_outdated s ≡ false
  pub shown : is_some s.selected_blob && not (is_preview s.phase || is_approved s.phase) ≡ false

initial_state-IsConsistent : IsConsistent initial_state
unfolding initial_state
initial_state-IsConsistent = record {
  chosen = refl;
  granted = refl;
  granted_output = refl;
  kept_blob = refl;
  kept_output = inl refl;
  current = refl;
  shown = refl;
}

choose-IsConsistent :
    (selection : Selection) (blob : ℕ) (s : BackgroundEditState)
    → IsConsistent s
    → IsConsistent (choose selection blob s)
unfolding choose
choose-IsConsistent selection blob s h = ground arith

approve_selected-IsConsistent :
    (s : BackgroundEditState) → IsConsistent s → IsConsistent (approve_selected s)
unfolding approve_selected
approve_selected-IsConsistent s h = ground arith

revoke-IsConsistent : (s : BackgroundEditState) → IsConsistent s → IsConsistent (revoke s)
unfolding revoke
revoke-IsConsistent s h = ground arith

reducer-IsConsistent :
    (a : BackgroundEditAction) (s : BackgroundEditState)
    → IsConsistent s
    → IsConsistent (background_edit_reducer a s)
unfolding background_edit_reducer failed_state initial_state
reducer-IsConsistent start_processing s h = ground arith
reducer-IsConsistent (preview_ready blob) s h = ground arith
reducer-IsConsistent (processing_failed message) s h = ground arith
reducer-IsConsistent (select_output selection blob) s h = choose-IsConsistent selection blob s h
reducer-IsConsistent approve s h = approve_selected-IsConsistent s h
reducer-IsConsistent (approval_failed message) s h = ground arith
reducer-IsConsistent revoke_approval s h = revoke-IsConsistent s h
reducer-IsConsistent reject s h = initial_state-IsConsistent
reducer-IsConsistent reset s h = initial_state-IsConsistent

run_edit-keeps :
    (actions : List BackgroundEditAction) (s : BackgroundEditState)
    → IsConsistent s
    → IsConsistent (run_edit actions s)
unfolding run_edit
run_edit-keeps [] s h = h
run_edit-keeps (a ∷ rest) s h = run_edit-keeps rest _ (reducer-IsConsistent a s h)

-- After any actions on a new edit, an output is approved exactly in the approved phase and is then the
-- selected one, of the same kind; a composite that is selected is the present preview, and something
-- is selected only in the preview and the approved phase.
pub run_edit-IsConsistent :
    (actions : List BackgroundEditAction) → IsConsistent (run_edit actions initial_state)
run_edit-IsConsistent actions = run_edit-keeps actions initial_state initial_state-IsConsistent

-- What a user sees: the output that is chosen, and whether it is approved.
pub record View : Type 0 where
  pub chosen : Option (Selection × ℕ)
  pub granted : Bool

abbrev pub choice : Option ℕ → Option Selection → Option (Selection × ℕ)
choice none output = none
choice (some blob) none = none
choice (some blob) (some selection) = some (selection, blob)

abbrev pub view : BackgroundEditState → View
view s = record { chosen = choice s.selected_blob s.selected_output; granted = is_approved s.phase }

abbrev pub is_approve : BackgroundEditAction → Bool
is_approve approve = true
is_approve start_processing = false
is_approve (preview_ready _) = false
is_approve (processing_failed _) = false
is_approve (select_output _ _) = false
is_approve (approval_failed _) = false
is_approve revoke_approval = false
is_approve reject = false
is_approve reset = false

-- What an action may do to the view: nothing; to drop the choice and its approval, unless it is an
-- approval; to choose, while nothing is approved; to approve what is chosen.
pub data Allows : BackgroundEditAction → View → View → Type 0 where
  stays : (a : BackgroundEditAction) (v : View) → Allows a v v
  withdraws :
      (a : BackgroundEditAction) (v : View)
      → is_approve a ≡ false
      → Allows a v (record { chosen = none; granted = false })
  chooses :
      (selection : Selection) (blob : ℕ) (v : View)
      → v.granted ≡ false
      → Allows
          (select_output selection blob)
          v
          (record { chosen = some (selection, blob); granted = false })
  grants :
      (selection : Selection) (blob : ℕ)
      → Allows approve
          (record { chosen = some (selection, blob); granted = false })
          (record { chosen = some (selection, blob); granted = true })

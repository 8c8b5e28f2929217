-- ===== src/Guidance/Examples.antt =====
-- The theorems on live guidance at a few candidates, and tests of the choice.
use furima_sandbox.Prelude.{
  ℕ, ◌≡◌, refl, true, false, Option, none, some, List, [], ◌∷◌, All, head, sort_by, insert_by,
  arith,
}
use furima_sandbox.Text.{text, trim}
use furima_sandbox.Capture.Records.{front, SessionSlot, image, natural}
use furima_sandbox.Guidance.Candidates.{
  ready, LocalCode, agent, GuidanceCandidate, create_local_guidance_candidate, is_fresh_candidate,
  goes_before, is_ready, fresh_among, select_primary_guidance,
}
use furima_sandbox.Guidance.Choice.{select_primary_guidance-sorted, select_primary_guidance-best}
use furima_sandbox.Guidance.Hysteresis.{
  default_durations, Hysteresis, reset, same_key, same_candidate, update_blocker, update_by,
  drop_stale, shot_of, acknowledge, GuidanceHysteresisResult, update_state, update, next_wake_at,
  Code-discrete, ImageSlot-discrete,
}
use furima_sandbox.Guidance.Stability.{update-fresh}
use furima_sandbox.Guidance.Entry.{
  updates, IsCoherent, updates-IsCoherent, IsEntitled, update_state-entry,
}
use furima_sandbox.Guidance.Waking.{next_wake_at-enters}

abbrev dark : GuidanceCandidate
dark = create_local_guidance_candidate (image front) LocalCode.too_dark (some 0) (some 9000) none

abbrev all_good : GuidanceCandidate
all_good = record {
  shot = image front;
  code = ready;
  message = text "ok";
  source = agent;
  observed_at = some 0;
  expires_at = some 9000;
  sequence = some (natural 7);
}

abbrev seen : List GuidanceCandidate
seen = all_good ∷ dark ∷ []

seen_selects : select_primary_guidance seen (some 100) ≡ some dark
unfolding select_primary_guidance is_fresh_candidate trim sort_by insert_by goes_before
    create_local_guidance_candidate
seen_selects = refl

select_primary_guidance-sorted_example :
    select_primary_guidance seen (some 100) ≡ head (sort_by goes_before (fresh_among seen 100))
select_primary_guidance-sorted_example = select_primary_guidance-sorted seen 100

select_primary_guidance-best_example :
    (is_fresh_candidate dark 100 ≡ true)
    × All (λ other. goes_before other dark ≡ false) (fresh_among seen 100)
select_primary_guidance-best_example = select_primary_guidance-best seen 100 dark seen_selects

-- The darkness is seen at 100 and again at 350.
abbrev twice_dark : List (List GuidanceCandidate × ℕ × Option SessionSlot)
twice_dark = (seen, 100, none) ∷ (seen, 350, none) ∷ []

updates-IsCoherent_example : IsCoherent (updates default_durations twice_dark reset)
updates-IsCoherent_example = updates-IsCoherent default_durations twice_dark

abbrev dark_once : Hysteresis
dark_once = updates default_durations ((seen, 100, none) ∷ []) reset

dark_enters : (update_state default_durations seen 350 none dark_once).1.active ≡ some dark
unfolding updates reset update_state select_primary_guidance is_fresh_candidate trim sort_by
    insert_by goes_before create_local_guidance_candidate update_by update_blocker same_candidate
    same_key drop_stale shot_of acknowledge next_wake_at Code-discrete ImageSlot-discrete
dark_enters = refl

next_wake_at-enters_example :
    (update_state default_durations seen 350 none dark_once).1.active ≡ some dark
unfolding updates reset update_state select_primary_guidance is_fresh_candidate trim sort_by
    insert_by goes_before create_local_guidance_candidate update_by update_blocker same_candidate
    same_key drop_stale shot_of acknowledge next_wake_at Code-discrete ImageSlot-discrete
next_wake_at-enters_example =
    next_wake_at-enters default_durations seen 350 350 none dark_once dark dark
      (updates-IsCoherent default_durations ((seen, 100, none) ∷ [])) refl refl (omega arith) refl
      refl refl

update_state-entry_example : IsEntitled default_durations 350 dark dark_once
unfolding create_local_guidance_candidate
update_state-entry_example =
    update_state-entry default_durations seen 350 none dark_once dark refl dark_enters

abbrev shown_at_350 : GuidanceHysteresisResult
shown_at_350 = record { primary = some dark; acknowledgement = none; ready = false; changed = true }

update-fresh_example :
    (is_fresh_candidate dark 350 ≡ true) × (shown_at_350.ready ≡ is_ready dark.code)
unfolding update updates reset update_state select_primary_guidance is_fresh_candidate trim sort_by
    insert_by goes_before create_local_guidance_candidate update_by update_blocker same_candidate
    same_key drop_stale shot_of acknowledge next_wake_at Code-discrete ImageSlot-discrete
update-fresh_example =
    update-fresh default_durations seen 350 none dark_once
      (update_state default_durations seen 350 none dark_once).1 shown_at_350 dark refl refl

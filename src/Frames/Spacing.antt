-- ===== src/Frames/Spacing.antt =====
-- The time between two analyses (app/features/guided-capture/core/scheduler.ts), by the clock.
--
-- A frame counts as due by the later of the clock and its own timestamp, so the time between the
-- starts depends on how far a timestamp may lie ahead of the clock.
use furima_sandbox.Prelude.{
  branch, branch_on, ℕ, ◌+◌, ◌-◌, ◌≤◌, max, ◌≡◌, refl, true, false, not, ◌||◌, Option, none, some,
  List, [], ◌∷◌, ltb, inl, inr, Option-cases, arith,
}
use furima_sandbox.Frames.Scheduler.{
  Source, manual, Config, Platform, Scheduler, new_scheduler, dispose_dropped_frame, drain_frame,
  drain_if_due, schedule_wake_timer, wake_later, replace_pending, accept_tick, select_source,
  schedule_timer_frame, schedule_animation_frame, fall_back, schedule_video_frame, schedule_by,
  schedule_next_frame,
}
use furima_sandbox.Frames.Events.{
  is_by_hand, start, stop, tick, on_browser_frame, on_timer_frame, on_settled, on_wake, Step,
  starts, stops, ticks, shows, times, settles, wakes,
}

-- The latest start lies an interval or more before `at`.
abbrev pub IsPast : ℕ → List (ℕ × ℕ) → ℕ → Type 0
IsPast interval [] at = Unit
IsPast interval ((_, clock) ∷ _) at = clock + interval ≤ at

-- Starts, the latest first, that lie an interval or more apart, but for `lead`.
abbrev pub AreSpaced : ℕ → ℕ → List (ℕ × ℕ) → Type 0
AreSpaced interval lead [] = Unit
AreSpaced interval lead ((_, clock) ∷ rest) =
    IsPast interval rest (clock + lead) × AreSpaced interval lead rest

-- No timestamp lies more than `lead` ahead of the clock.
abbrev pub IsPunctual : {c : Config} {s t : Scheduler} → ℕ → Step c s t → Type 0
IsPunctual lead (starts p now s) = Unit
IsPunctual lead (stops s) = Unit
IsPunctual lead (ticks p frame timestamp now s) = timestamp ≤ now + lead
IsPunctual lead (shows p frame timestamp now s) = timestamp ≤ now + lead
IsPunctual lead (times p frame now s) = Unit
IsPunctual lead (settles p now s _) = Unit
IsPunctual lead (wakes now s _) = Unit

-- The states that a new scheduler reaches by such steps.
pub data PunctuallyReached (c : Config) (lead : ℕ) : Scheduler → Type 0 where
  unmoved : PunctuallyReached c lead new_scheduler
  moved :
      {s t : Scheduler}
      → PunctuallyReached c lead s
      → (step : Step c s t) → IsPunctual lead step
      → PunctuallyReached c lead t

-- The gate lies an interval or more after the latest start.
record IsSpaced (c : Config) (lead : ℕ) (s : Scheduler) : Type 0 where
  past : IsPast c.interval s.started s.next_process_at
  spaced : AreSpaced c.interval lead s.started

module _ (c : Config) (lead : ℕ) where
  -- A method that starts no analysis and leaves the gate.
  IsSpaced-frame :
      (s t : Scheduler)
      → t.started ≡ s.started
      → t.next_process_at ≡ s.next_process_at
      → IsSpaced c lead s
      → IsSpaced c lead t
  IsSpaced-frame s t same_starts same_gate h = record {
    past = rw (same_starts, same_gate) h.past;
    spaced = rw same_starts h.spaced;
  }

  IsPast-later :
      (starts : List (ℕ × ℕ)) (at later : ℕ)
      → at ≤ later
      → IsPast c.interval starts at
      → IsPast c.interval starts later
  IsPast-later [] at later h past = tt
  IsPast-later ((_, clock) ∷ rest) at later h past = omega arith

  drain_frame-IsSpaced :
      (clock now frame : ℕ) (s : Scheduler)
      → clock ≤ now
      → now ≤ clock + lead
      → s.next_process_at ≤ now
      → IsSpaced c lead s
      → IsSpaced c lead (drain_frame c clock now frame s)
  unfolding drain_frame
  drain_frame-IsSpaced clock now frame s early close due h = record {
    past = omega arith;
    spaced =
        (IsPast-later s.started s.next_process_at (clock + lead) (omega arith) h.past, h.spaced);
  }

  drain_if_due-IsSpaced :
      (clock now : ℕ) (s : Scheduler)
      → clock ≤ now
      → now ≤ clock + lead
      → IsSpaced c lead s
      → IsSpaced c lead (drain_if_due c clock now s)
  unfolding drain_if_due
  drain_if_due-IsSpaced clock now s early close h = elim (Option-cases s.pending) [
    | inl e ↦ rw (e, drain_if_due) h
    | inr (frame, e) ↦
        rw (e, drain_if_due)
          (branch_on (IsSpaced c lead) (not s.running || s.processing || ltb now s.next_process_at)
            (λ _. h) (λ go. drain_frame-IsSpaced clock now frame s early close (ground arith) h))
  ]

  wake_later-IsSpaced :
      (p : Platform) (s : Scheduler) → IsSpaced c lead s → IsSpaced c lead (wake_later p s)
  unfolding wake_later schedule_wake_timer
  wake_later-IsSpaced p s h = IsSpaced-frame s _ (ground arith) (ground arith) h

  replace_pending-IsSpaced :
      (frame : ℕ) (s : Scheduler) → IsSpaced c lead s → IsSpaced c lead (replace_pending c frame s)
  unfolding replace_pending dispose_dropped_frame
  replace_pending-IsSpaced frame s h = IsSpaced-frame s _ (ground arith) (ground arith) h

  schedule_next_frame-IsSpaced :
      (p : Platform) (s : Scheduler) → IsSpaced c lead s → IsSpaced c lead (schedule_next_frame p s)
  unfolding schedule_next_frame schedule_by schedule_video_frame fall_back schedule_animation_frame
      schedule_timer_frame
  schedule_next_frame-IsSpaced p s h = IsSpaced-frame s _ (ground arith) (ground arith) h

  accept_tick-IsSpaced :
      (p : Platform) (frame timestamp now : ℕ) (s : Scheduler)
      → timestamp ≤ now + lead
      → IsSpaced c lead s
      → IsSpaced c lead (accept_tick c p frame timestamp now s)
  unfolding accept_tick
  accept_tick-IsSpaced p frame timestamp now s close h =
      branch (IsSpaced c lead) s.running
        (wake_later-IsSpaced p _ (
          drain_if_due-IsSpaced now (max now timestamp) _ (omega arith) (omega arith)
            (replace_pending-IsSpaced frame s h)))
        h

  begin-IsSpaced :
      (now : ℕ) (from : Source) (s : Scheduler)
      → IsSpaced c lead
          (record s { running = true; next_process_at = now; source = from; started = [] })
  begin-IsSpaced now from s = record { past = tt; spaced = tt }

  start-IsSpaced :
      (p : Platform) (now : ℕ) (s : Scheduler)
      → IsSpaced c lead s
      → IsSpaced c lead (start c p now s)
  unfolding start
  start-IsSpaced p now s h = branch (IsSpaced c lead) s.running h (
      branch (IsSpaced c lead) (is_by_hand c.mode) (begin-IsSpaced now manual s)
        (schedule_next_frame-IsSpaced p _ (begin-IsSpaced now (select_source p) s)))

  stop-IsSpaced : (s : Scheduler) → IsSpaced c lead s → IsSpaced c lead (stop c s)
  unfolding stop dispose_dropped_frame
  stop-IsSpaced s h = IsSpaced-frame s _ (ground arith) (ground arith) h

  tick-IsSpaced :
      (p : Platform) (frame timestamp now : ℕ) (s : Scheduler)
      → timestamp ≤ now + lead
      → IsSpaced c lead s
      → IsSpaced c lead (tick c p frame timestamp now s)
  unfolding tick
  tick-IsSpaced p frame timestamp now s close h =
      branch (IsSpaced c lead) s.running (accept_tick-IsSpaced p frame timestamp now s close h) (
        branch (IsSpaced c lead) (is_by_hand c.mode)
          (accept_tick-IsSpaced p frame timestamp now _ close (start-IsSpaced p now s h)) h)

  on_browser_frame-IsSpaced :
      (p : Platform) (frame : Option ℕ) (timestamp now : ℕ) (s : Scheduler)
      → timestamp ≤ now + lead
      → IsSpaced c lead s
      → IsSpaced c lead (on_browser_frame c p frame timestamp now s)
  unfolding on_browser_frame
  on_browser_frame-IsSpaced p none timestamp now s close h =
      let idle = IsSpaced-frame s (record s { source_scheduled = false }) refl refl h in
      branch (IsSpaced c lead) s.running (schedule_next_frame-IsSpaced p _ idle) idle
  on_browser_frame-IsSpaced p (some frame) timestamp now s close h =
      let idle = IsSpaced-frame s (record s { source_scheduled = false }) refl refl h in
      branch (IsSpaced c lead) s.running
        (schedule_next_frame-IsSpaced p _ (accept_tick-IsSpaced p frame timestamp now _ close idle))
        idle

  on_timer_frame-IsSpaced :
      (p : Platform) (frame : Option ℕ) (now : ℕ) (s : Scheduler)
      → IsSpaced c lead s
      → IsSpaced c lead (on_timer_frame c p frame now s)
  unfolding on_timer_frame
  on_timer_frame-IsSpaced p frame now s h =
      let idle = IsSpaced-frame s (record s { source_scheduled = false }) refl refl h in
      branch (IsSpaced c lead) s.running
        (schedule_next_frame-IsSpaced p _
          (on_browser_frame-IsSpaced p frame now now _ (omega arith) idle))
        idle

  on_settled-IsSpaced :
      (p : Platform) (now : ℕ) (s : Scheduler)
      → IsSpaced c lead s
      → IsSpaced c lead (on_settled c p now s)
  unfolding on_settled
  on_settled-IsSpaced p now s h =
      let done =
        IsSpaced-frame s
          (record s { processing = false; active_frame = none; in_flight = s.in_flight - 1 }) refl
          refl h in
      elim (Option-cases s.pending) [
        | inl e ↦ rw (e, on_settled) done
        | inr (frame, e) ↦
            rw (e, on_settled)
              (branch (IsSpaced c lead) s.running
                (wake_later-IsSpaced p _
                  (drain_if_due-IsSpaced now now _ (omega arith) (omega arith) done))
                done)
      ]

  on_wake-IsSpaced :
      (now : ℕ) (s : Scheduler) → IsSpaced c lead s → IsSpaced c lead (on_wake c now s)
  unfolding on_wake
  on_wake-IsSpaced now s h =
      let awake = IsSpaced-frame s (record s { wake_set = false }) refl refl h in
      branch (IsSpaced c lead) s.running
        (drain_if_due-IsSpaced now now _ (omega arith) (omega arith) awake) awake

  Step-IsSpaced :
      {s t : Scheduler} (step : Step c s t)
      → IsPunctual lead step
      → IsSpaced c lead s
      → IsSpaced c lead t
  Step-IsSpaced (starts p now s) close h = start-IsSpaced p now s h
  Step-IsSpaced (stops s) close h = stop-IsSpaced s h
  Step-IsSpaced (ticks p frame timestamp now s) close h =
      tick-IsSpaced p frame timestamp now s close h
  Step-IsSpaced (shows p frame timestamp now s) close h =
      on_browser_frame-IsSpaced p frame timestamp now s close h
  Step-IsSpaced (times p frame now s) close h = on_timer_frame-IsSpaced p frame now s h
  Step-IsSpaced (settles p now s _) close h = on_settled-IsSpaced p now s h
  Step-IsSpaced (wakes now s _) close h = on_wake-IsSpaced now s h

  PunctuallyReached-IsSpaced : {s : Scheduler} → PunctuallyReached c lead s → IsSpaced c lead s
  unfolding new_scheduler
  PunctuallyReached-IsSpaced unmoved = record { past = tt; spaced = tt }
  PunctuallyReached-IsSpaced (moved r step close) =
      Step-IsSpaced step close (PunctuallyReached-IsSpaced r)

-- In a run where no frame's timestamp lies more than `lead` ahead of the clock, of any two successive
-- analyses since the last start the second begins, by the clock, an interval or more after the first,
-- less `lead`.
pub PunctuallyReached-AreSpaced :
    (c : Config) (lead : ℕ) {s : Scheduler}
    → PunctuallyReached c lead s
    → AreSpaced c.interval lead s.started
PunctuallyReached-AreSpaced c lead r = (PunctuallyReached-IsSpaced c lead r).spaced

-- ===== src/Frames/Progress.antt =====
-- The frame that waits, in runs where the platform's timers work and a wake-up is not early
-- (app/features/guided-capture/core/scheduler.ts).
use furima_sandbox.Prelude.{
  is_some, branch, branch_on, ℕ, ◌-◌, ◌≤◌, max, true, false, not, ◌&&◌, Option, none, some, [], ◌≡◌,
  refl, ◌∙◌, ◌⊎◌, inl, inr, Option-cases, arith,
}
use furima_sandbox.Frames.Scheduler.{
  Source, manual, Config, Platform, Scheduler, new_scheduler, dispose_dropped_frame, drain_frame,
  drain_if_due, schedule_wake_timer, wake_later, replace_pending, accept_tick, schedule_timer_frame,
  schedule_animation_frame, fall_back, schedule_video_frame, schedule_by, schedule_next_frame,
  select_source,
}
use furima_sandbox.Frames.Events.{
  is_by_hand, start, stop, tick, on_browser_frame, on_timer_frame, on_settled, on_wake, Step,
  starts, stops, ticks, shows, times, settles, wakes, Reached, created, next,
}
use furima_sandbox.Frames.Invariant.{IsConsistent, Reached-IsConsistent}

-- Timers do not throw, and a wake-up is not early.
abbrev pub IsCalm : {c : Config} {s t : Scheduler} → Step c s t → Type 0
IsCalm (starts p now s) = p.timer_throws ≡ false
IsCalm (stops s) = Unit
IsCalm (ticks p frame timestamp now s) = p.timer_throws ≡ false
IsCalm (shows p frame timestamp now s) = p.timer_throws ≡ false
IsCalm (times p frame now s) = p.timer_throws ≡ false
IsCalm (settles p now s _) = p.timer_throws ≡ false
IsCalm (wakes now s _) = s.next_process_at ≤ now

pub data CalmlyReached (c : Config) : Scheduler → Type 0 where
  opened : CalmlyReached c new_scheduler
  follow :
      {s t : Scheduler} → CalmlyReached c s → (step : Step c s t) → IsCalm step → CalmlyReached c t

CalmlyReached-Reached : {c : Config} {s : Scheduler} → CalmlyReached c s → Reached c s
CalmlyReached-Reached opened = created
CalmlyReached-Reached (follow r step _) = next (CalmlyReached-Reached r) step

-- No frame waits without a wake-up while nothing is processed, and none waits once stopped.
record IsAttended (s : Scheduler) : Type 0 where
  watched : s.running && not s.processing && is_some s.pending && not s.wake_set ≡ false
  cleared : not s.running && is_some s.pending ≡ false

module _ (c : Config) where
  wake_later-IsAttended :
      (p : Platform) (s : Scheduler)
      → p.timer_throws ≡ false
      → s.running ≡ true
      → IsAttended (wake_later p s)
  unfolding wake_later schedule_wake_timer
  wake_later-IsAttended p s calm on = ground arith

  drain_if_due-running :
      (clock now : ℕ) (s : Scheduler) → (drain_if_due c clock now s).running ≡ s.running
  unfolding drain_if_due drain_frame
  drain_if_due-running clock now s = ground arith

  replace_pending-running :
      (frame : ℕ) (s : Scheduler) → (replace_pending c frame s).running ≡ s.running
  unfolding replace_pending dispose_dropped_frame
  replace_pending-running frame s = ground arith

  accept_tick-IsAttended :
      (p : Platform) (frame timestamp now : ℕ) (s : Scheduler)
      → p.timer_throws ≡ false
      → IsAttended s
      → IsAttended (accept_tick c p frame timestamp now s)
  unfolding accept_tick
  accept_tick-IsAttended p frame timestamp now s calm h =
      branch_on IsAttended s.running
        (λ on.
          wake_later-IsAttended p
            (drain_if_due c now (max now timestamp) (replace_pending c frame s)) calm
            (drain_if_due-running now (max now timestamp) (replace_pending c frame s)
              ∙ replace_pending-running frame s
              ∙ on))
        (λ _. h)

  schedule_next_frame-IsAttended :
      (p : Platform) (s : Scheduler)
      → p.timer_throws ≡ false
      → IsAttended s
      → IsAttended (schedule_next_frame p s)
  unfolding schedule_next_frame schedule_by schedule_video_frame fall_back schedule_animation_frame
      schedule_timer_frame
  schedule_next_frame-IsAttended p s calm h = ground arith

  begin-IsAttended :
      (now : ℕ) (from : Source) (s : Scheduler)
      → IsAttended s
      → s.running ≡ false
      → IsAttended (record s { running = true; next_process_at = now; source = from; started = [] })
  begin-IsAttended now from s h off = ground arith

  start-IsAttended :
      (p : Platform) (now : ℕ) (s : Scheduler)
      → p.timer_throws ≡ false
      → IsAttended s
      → IsAttended (start c p now s)
  unfolding start
  start-IsAttended p now s calm h =
      branch_on IsAttended s.running (λ _. h)
        λ off.
          branch IsAttended (is_by_hand c.mode) (begin-IsAttended now manual s h off) (
            schedule_next_frame-IsAttended p _ calm
              (begin-IsAttended now (select_source p) s h off))

  stop-IsAttended : (s : Scheduler) → IsAttended (stop c s)
  unfolding stop dispose_dropped_frame
  stop-IsAttended s = ground arith

  tick-IsAttended :
      (p : Platform) (frame timestamp now : ℕ) (s : Scheduler)
      → p.timer_throws ≡ false
      → IsAttended s
      → IsAttended (tick c p frame timestamp now s)
  unfolding tick
  tick-IsAttended p frame timestamp now s calm h =
      branch IsAttended s.running (accept_tick-IsAttended p frame timestamp now s calm h) (
        branch IsAttended (is_by_hand c.mode)
          (accept_tick-IsAttended p frame timestamp now _ calm (start-IsAttended p now s calm h)) h)

  idle-IsAttended :
      (s : Scheduler) → IsAttended s → IsAttended (record s { source_scheduled = false })
  idle-IsAttended s h = record { watched = h.watched; cleared = h.cleared }

  on_browser_frame-IsAttended :
      (p : Platform) (frame : Option ℕ) (timestamp now : ℕ) (s : Scheduler)
      → p.timer_throws ≡ false
      → IsAttended s
      → IsAttended (on_browser_frame c p frame timestamp now s)
  unfolding on_browser_frame
  on_browser_frame-IsAttended p none timestamp now s calm h =
      branch IsAttended s.running (schedule_next_frame-IsAttended p _ calm (idle-IsAttended s h))
        (idle-IsAttended s h)
  on_browser_frame-IsAttended p (some frame) timestamp now s calm h =
      branch IsAttended s.running
        (schedule_next_frame-IsAttended p _ calm
          (accept_tick-IsAttended p frame timestamp now _ calm (idle-IsAttended s h)))
        (idle-IsAttended s h)

  on_timer_frame-IsAttended :
      (p : Platform) (frame : Option ℕ) (now : ℕ) (s : Scheduler)
      → p.timer_throws ≡ false
      → IsAttended s
      → IsAttended (on_timer_frame c p frame now s)
  unfolding on_timer_frame
  on_timer_frame-IsAttended p frame now s calm h =
      branch IsAttended s.running
        (schedule_next_frame-IsAttended p _ calm
          (on_browser_frame-IsAttended p frame now now _ calm (idle-IsAttended s h)))
        (idle-IsAttended s h)

  done-IsAttended :
      (s : Scheduler)
      → IsAttended s
      → s.running ≡ false
      → IsAttended
          (record s { processing = false; active_frame = none; in_flight = s.in_flight - 1 })
  done-IsAttended s h off = ground arith

  on_settled-IsAttended :
      (p : Platform) (now : ℕ) (s : Scheduler)
      → p.timer_throws ≡ false
      → IsAttended s
      → IsAttended (on_settled c p now s)
  unfolding on_settled
  on_settled-IsAttended p now s calm h = elim (Option-cases s.pending) [
    | inl e ↦ ground arith
    | inr (frame, e) ↦
        let done = record s {
          processing = false;
          active_frame = none;
          in_flight = s.in_flight - 1;
        } in
        rw (e, on_settled)
          (branch_on IsAttended s.running
            (λ on.
              wake_later-IsAttended p (drain_if_due c now now done) calm
                (drain_if_due-running now now done ∙ on))
            (λ off. done-IsAttended s h off))
  ]

  on_wake-IsAttended :
      (now : ℕ) (s : Scheduler)
      → s.next_process_at ≤ now
      → IsAttended s
      → IsAttended (on_wake c now s)
  unfolding on_wake drain_if_due drain_frame
  on_wake-IsAttended now s due h = ground arith

  Step-IsAttended :
      {s t : Scheduler} (step : Step c s t) → IsCalm step → IsAttended s → IsAttended t
  Step-IsAttended (starts p now s) calm h = start-IsAttended p now s calm h
  Step-IsAttended (stops s) calm h = stop-IsAttended s
  Step-IsAttended (ticks p frame timestamp now s) calm h =
      tick-IsAttended p frame timestamp now s calm h
  Step-IsAttended (shows p frame timestamp now s) calm h =
      on_browser_frame-IsAttended p frame timestamp now s calm h
  Step-IsAttended (times p frame now s) calm h = on_timer_frame-IsAttended p frame now s calm h
  Step-IsAttended (settles p now s _) calm h = on_settled-IsAttended p now s calm h
  Step-IsAttended (wakes now s _) calm h = on_wake-IsAttended now s calm h

  CalmlyReached-IsAttended : {s : Scheduler} → CalmlyReached c s → IsAttended s
  unfolding new_scheduler
  CalmlyReached-IsAttended opened = record { watched = refl; cleared = refl }
  CalmlyReached-IsAttended (follow r step calm) =
      Step-IsAttended step calm (CalmlyReached-IsAttended r)

  -- What comes next for a frame that waits.
  attended_next :
      (p : Platform) (now frame : ℕ) (s : Scheduler)
      → IsAttended s
      → IsConsistent c s
      → s.running ≡ true
      → s.pending ≡ some frame
      → s.next_process_at ≤ now
      → ((s.in_flight ≡ 1) × ((on_settled c p now s).active_frame ≡ some frame))
        ⊎ ((s.wake_set ≡ true) × ((on_wake c now s).active_frame ≡ some frame))
  unfolding on_settled on_wake wake_later schedule_wake_timer drain_if_due drain_frame
  attended_next p now frame s h k on waits due = ground arith

-- In a run where no timer throws and no wake-up comes early, a frame that waits in a running scheduler
-- is never left alone: either one analysis is in flight and when it settles the waiting frame is the
-- next to be analysed, or a wake-up is set and when it comes that frame is analysed. The next event
-- is one at which the interval has passed.
pub CalmlyReached-attends :
    (c : Config) (p : Platform) (now frame : ℕ) {s : Scheduler}
    → CalmlyReached c s
    → s.running ≡ true
    → s.pending ≡ some frame
    → s.next_process_at ≤ now
    → ((s.in_flight ≡ 1) × ((on_settled c p now s).active_frame ≡ some frame))
      ⊎ ((s.wake_set ≡ true) × ((on_wake c now s).active_frame ≡ some frame))
CalmlyReached-attends c p now frame {s} r on waits due =
    attended_next c p now frame s (CalmlyReached-IsAttended c r)
      (Reached-IsConsistent c (CalmlyReached-Reached r)) on waits due

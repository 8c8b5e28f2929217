-- ===== src/Frames/Examples.antt =====
-- The frame scheduler's theorems at a run of two frames, and tests of its methods.
use furima_sandbox.Prelude.{◌≡◌, refl, ◌⊎◌, true, false, some, [], ◌∷◌, arith}
use furima_sandbox.Frames.Scheduler.{
  by_hand, Config, Platform, Scheduler, new_scheduler, replace_pending, accept_tick, drain_if_due,
  drain_frame, wake_later, schedule_wake_timer, dispose_dropped_frame,
}
use furima_sandbox.Frames.Events.{start, tick, on_settled, on_wake, settles, ticks, created, next}
use furima_sandbox.Frames.Invariant.{IsConsistent, Reached-IsConsistent}
use furima_sandbox.Frames.Spacing.{AreSpaced, PunctuallyReached-AreSpaced, unmoved, moved}
use furima_sandbox.Frames.Progress.{CalmlyReached, opened, follow, CalmlyReached-attends}

abbrev five_per_second : Config
five_per_second = record { interval = 200; mode = by_hand; disposes = true }

abbrev timers_only : Platform
timers_only = record {
  has_rvfc = false;
  rvfc_throws = false;
  has_raf = false;
  raf_throws = false;
  timer_throws = false;
}

-- The first frame is analysed at 10; the second and then the third comes while that runs.
abbrev three_frames : Scheduler
three_frames = tick five_per_second timers_only 3 30 30 (
    tick five_per_second timers_only 2 20 20
      (tick five_per_second timers_only 1 10 10 new_scheduler))

three_frames_reached : CalmlyReached five_per_second three_frames
three_frames_reached =
    follow
      (follow (follow opened (ticks timers_only 1 10 10 new_scheduler) refl)
        (ticks timers_only 2 20 20 _) refl)
      (ticks timers_only 3 30 30 _) refl

-- The second frame has given way to the third.
three_frames_dispose : three_frames.disposed ≡ 2 ∷ []
unfolding tick start accept_tick replace_pending drain_if_due drain_frame wake_later
    schedule_wake_timer dispose_dropped_frame new_scheduler
three_frames_dispose = refl

CalmlyReached-attends_example :
    ((three_frames.in_flight ≡ 1)
      × ((on_settled five_per_second timers_only 300 three_frames).active_frame ≡ some 3))
    ⊎ ((three_frames.wake_set ≡ true)
        × ((on_wake five_per_second 300 three_frames).active_frame ≡ some 3))
unfolding tick start accept_tick replace_pending drain_if_due drain_frame wake_later
    schedule_wake_timer dispose_dropped_frame new_scheduler
CalmlyReached-attends_example =
    CalmlyReached-attends five_per_second timers_only 300 3 three_frames_reached refl refl
      (omega arith)

Reached-IsConsistent_example :
    IsConsistent five_per_second (tick five_per_second timers_only 1 10 10 new_scheduler)
Reached-IsConsistent_example =
    Reached-IsConsistent five_per_second (next created (ticks timers_only 1 10 10 new_scheduler))

-- The analysis has settled at 50, so the third frame waits for 210; the wake-up comes at 209, as a
-- timer that drops the fraction of its delay does, and nothing wakes the scheduler again.
abbrev woken_early : Scheduler
woken_early = on_wake five_per_second 209 (on_settled five_per_second timers_only 50 three_frames)

woken_early_stalls :
    (woken_early.pending ≡ some 3)
    × (woken_early.wake_set ≡ false)
    × (woken_early.processing ≡ false)
unfolding tick start accept_tick replace_pending drain_if_due drain_frame wake_later
    schedule_wake_timer dispose_dropped_frame new_scheduler on_settled on_wake
woken_early_stalls = (refl, refl, refl)

-- A frame stamped 1000 is analysed at clock 0 and one stamped 1200 at clock 2.
abbrev stamped_ahead : Scheduler
stamped_ahead = tick five_per_second timers_only 2 1200 2 (
    on_settled five_per_second timers_only 1
      (tick five_per_second timers_only 1 1000 0 new_scheduler))

stamped_ahead_starts : stamped_ahead.started ≡ (2, 2) ∷ (1, 0) ∷ []
unfolding tick start accept_tick replace_pending drain_if_due drain_frame wake_later
    schedule_wake_timer dispose_dropped_frame new_scheduler on_settled
stamped_ahead_starts = refl

-- Stamped two milliseconds ahead, the second start comes 199 after the first.
abbrev stamped_close : Scheduler
stamped_close = tick five_per_second timers_only 2 212 211 (
    on_settled five_per_second timers_only 50
      (tick five_per_second timers_only 1 12 10 new_scheduler))

stamped_close_starts : stamped_close.started ≡ (2, 211) ∷ (1, 10) ∷ []
unfolding tick start accept_tick replace_pending drain_if_due drain_frame wake_later
    schedule_wake_timer dispose_dropped_frame new_scheduler on_settled
stamped_close_starts = refl

PunctuallyReached-AreSpaced_example : AreSpaced 200 2 stamped_close.started
unfolding tick start accept_tick replace_pending drain_if_due drain_frame wake_later
    schedule_wake_timer dispose_dropped_frame new_scheduler on_settled
PunctuallyReached-AreSpaced_example = PunctuallyReached-AreSpaced five_per_second 2 (
    moved
      (moved (moved unmoved (ticks timers_only 1 12 10 new_scheduler) (omega arith))
        (settles timers_only 50 _ (omega arith)) tt)
      (ticks timers_only 2 212 211 _) (omega arith))

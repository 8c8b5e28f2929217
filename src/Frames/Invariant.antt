-- ===== src/Frames/Invariant.antt =====
-- The invariant of a frame scheduler (app/features/guided-capture/core/scheduler.ts), method by
-- method: one analysis at a time.
use furima_sandbox.Prelude.{
  is_some, branch, ℕ, ◌-◌, ◌≤◌, max, Bool, true, false, not, ◌&&◌, ◌||◌, Option, none, some, [],
  ◌≡◌, refl, ap, inl, inr, ltb, Bool-cases, Option-cases, arith,
}
use furima_sandbox.Frames.Scheduler.{
  manual, Config, Platform, Scheduler, new_scheduler, dispose_dropped_frame, drain_frame,
  drain_if_due, schedule_wake_timer, wake_later, replace_pending, accept_tick, schedule_timer_frame,
  schedule_animation_frame, fall_back, schedule_video_frame, schedule_by, schedule_next_frame,
  select_source,
}
use furima_sandbox.Frames.Events.{
  is_by_hand, start, stop, tick, on_browser_frame, on_timer_frame, on_settled, on_wake, Step,
  starts, stops, ticks, shows, times, settles, wakes, Reached, created, next,
}

abbrev pub count_of : Bool → ℕ
count_of true = 1
count_of false = 0

pub record IsConsistent (c : Config) (s : Scheduler) : Type 0 where
  pub flight : s.in_flight ≡ count_of s.processing
  pub active : is_some s.active_frame ≡ s.processing
  pub asleep : s.wake_set && s.processing ≡ false
  pub wanted : s.wake_set && not (is_some s.pending) ≡ false

module _ (c : Config) where
  drain_frame-IsConsistent :
      (clock now frame : ℕ) (s : Scheduler)
      → IsConsistent c s
      → s.processing ≡ false
      → IsConsistent c (drain_frame c clock now frame s)
  unfolding drain_frame
  drain_frame-IsConsistent clock now frame s h idle = record {
    flight = omega (arith, h.flight, ap count_of idle);
    active = refl;
    asleep = refl;
    wanted = refl;
  }

  drain_if_due-IsConsistent :
      (clock now : ℕ) (s : Scheduler)
      → IsConsistent c s
      → IsConsistent c (drain_if_due c clock now s)
  unfolding drain_if_due
  drain_if_due-IsConsistent clock now s h = elim (Option-cases s.pending) [
    | inl e ↦ rw (e, drain_if_due) h
    | inr (frame, e) ↦
        elim (Bool-cases (not s.running || s.processing || ltb now s.next_process_at)) [
          | inl wait ↦ rw (e, drain_if_due, wait) h
          | inr go ↦
              rw (e, drain_if_due, go) (drain_frame-IsConsistent clock now frame s h (ground arith))
        ]
  ]

  wake_later-IsConsistent :
      (p : Platform) (s : Scheduler) → IsConsistent c s → IsConsistent c (wake_later p s)
  unfolding wake_later schedule_wake_timer
  wake_later-IsConsistent p s h = ground arith

  replace_pending-IsConsistent :
      (frame : ℕ) (s : Scheduler) → IsConsistent c s → IsConsistent c (replace_pending c frame s)
  unfolding replace_pending dispose_dropped_frame
  replace_pending-IsConsistent frame s h = ground arith

  accept_tick-IsConsistent :
      (p : Platform) (frame timestamp now : ℕ) (s : Scheduler)
      → IsConsistent c s
      → IsConsistent c (accept_tick c p frame timestamp now s)
  unfolding accept_tick
  accept_tick-IsConsistent p frame timestamp now s h =
      let kept = wake_later-IsConsistent p _ (
        drain_if_due-IsConsistent now (max now timestamp) _
          (replace_pending-IsConsistent frame s h)) in
      ground arith

  schedule_next_frame-IsConsistent :
      (p : Platform) (s : Scheduler) → IsConsistent c s → IsConsistent c (schedule_next_frame p s)
  unfolding schedule_next_frame schedule_by schedule_video_frame fall_back schedule_animation_frame
      schedule_timer_frame
  schedule_next_frame-IsConsistent p s h = ground arith

  start-IsConsistent :
      (p : Platform) (now : ℕ) (s : Scheduler) → IsConsistent c s → IsConsistent c (start c p now s)
  unfolding start
  start-IsConsistent p now s h =
      let begun : IsConsistent c (record s {
        running = true;
        next_process_at = now;
        source = select_source p;
        started = [];
      }) =
        record { flight = h.flight; active = h.active; asleep = h.asleep; wanted = h.wanted } in
      let by_hand_ : IsConsistent c
          (record s { running = true; next_process_at = now; source = manual; started = [] }) =
        record { flight = h.flight; active = h.active; asleep = h.asleep; wanted = h.wanted } in
      let scheduled = schedule_next_frame-IsConsistent p _ begun in
      branch (IsConsistent c) s.running (h)
        (branch (IsConsistent c) (is_by_hand c.mode) by_hand_ scheduled)

  stop-IsConsistent : (s : Scheduler) → IsConsistent c s → IsConsistent c (stop c s)
  unfolding stop dispose_dropped_frame
  stop-IsConsistent s h = ground arith

  tick-IsConsistent :
      (p : Platform) (frame timestamp now : ℕ) (s : Scheduler)
      → IsConsistent c s
      → IsConsistent c (tick c p frame timestamp now s)
  unfolding tick
  tick-IsConsistent p frame timestamp now s h =
      branch (IsConsistent c) s.running (accept_tick-IsConsistent p frame timestamp now s h) (
        branch (IsConsistent c) (is_by_hand c.mode)
          (accept_tick-IsConsistent p frame timestamp now _ (start-IsConsistent p now s h)) h)

  -- The source callback has come.
  idle-IsConsistent :
      (s : Scheduler) → IsConsistent c s → IsConsistent c (record s { source_scheduled = false })
  idle-IsConsistent s h = record {
    flight = h.flight;
    active = h.active;
    asleep = h.asleep;
    wanted = h.wanted;
  }

  on_browser_frame-IsConsistent :
      (p : Platform) (frame : Option ℕ) (timestamp now : ℕ) (s : Scheduler)
      → IsConsistent c s
      → IsConsistent c (on_browser_frame c p frame timestamp now s)
  unfolding on_browser_frame
  on_browser_frame-IsConsistent p none timestamp now s h =
      branch (IsConsistent c) s.running
        (schedule_next_frame-IsConsistent p _ (idle-IsConsistent s h)) (idle-IsConsistent s h)
  on_browser_frame-IsConsistent p (some frame) timestamp now s h =
      branch (IsConsistent c) s.running
        (schedule_next_frame-IsConsistent p _
          (accept_tick-IsConsistent p frame timestamp now _ (idle-IsConsistent s h)))
        (idle-IsConsistent s h)

  on_timer_frame-IsConsistent :
      (p : Platform) (frame : Option ℕ) (now : ℕ) (s : Scheduler)
      → IsConsistent c s
      → IsConsistent c (on_timer_frame c p frame now s)
  unfolding on_timer_frame
  on_timer_frame-IsConsistent p frame now s h =
      branch (IsConsistent c) s.running
        (schedule_next_frame-IsConsistent p _
          (on_browser_frame-IsConsistent p frame now now _ (idle-IsConsistent s h)))
        (idle-IsConsistent s h)

  -- An analysis in flight is the one that is processing.
  processing_in_flight : (s : Scheduler) → IsConsistent c s → 1 ≤ s.in_flight → s.processing ≡ true
  processing_in_flight s h f = ground arith

  on_settled-IsConsistent :
      (p : Platform) (now : ℕ) (s : Scheduler)
      → IsConsistent c s
      → 1 ≤ s.in_flight
      → IsConsistent c (on_settled c p now s)
  unfolding on_settled
  on_settled-IsConsistent p now s h f =
      let busy = processing_in_flight s h f in
      let done : IsConsistent c
          (record s { processing = false; active_frame = none; in_flight = s.in_flight - 1 }) =
        record {
          flight = omega (arith, h.flight, ap count_of busy);
          active = refl;
          asleep = ground arith;
          wanted = h.wanted;
        } in
      elim (Option-cases s.pending) [
        | inl e ↦ rw (e, on_settled) done
        | inr (frame, e) ↦
            rw (e, on_settled)
              (branch (IsConsistent c) s.running
                (wake_later-IsConsistent p _ (drain_if_due-IsConsistent now now _ done)) done)
      ]

  on_wake-IsConsistent :
      (now : ℕ) (s : Scheduler) → IsConsistent c s → IsConsistent c (on_wake c now s)
  unfolding on_wake
  on_wake-IsConsistent now s h =
      let awake : IsConsistent c (record s { wake_set = false }) = record {
        flight = h.flight;
        active = h.active;
        asleep = refl;
        wanted = refl;
      } in
      branch (IsConsistent c) s.running (drain_if_due-IsConsistent now now _ awake) awake

  Step-IsConsistent : {s t : Scheduler} → Step c s t → IsConsistent c s → IsConsistent c t
  Step-IsConsistent (starts p now s) h = start-IsConsistent p now s h
  Step-IsConsistent (stops s) h = stop-IsConsistent s h
  Step-IsConsistent (ticks p frame timestamp now s) h = tick-IsConsistent p frame timestamp now s h
  Step-IsConsistent (shows p frame timestamp now s) h =
      on_browser_frame-IsConsistent p frame timestamp now s h
  Step-IsConsistent (times p frame now s) h = on_timer_frame-IsConsistent p frame now s h
  Step-IsConsistent (settles p now s f) h = on_settled-IsConsistent p now s h f
  Step-IsConsistent (wakes now s w) h = on_wake-IsConsistent now s h

-- In every state that a scheduler reaches, at most one analysis is in flight, exactly while it is
-- processing and has an active frame, and a wake-up is set only while a frame waits and none is
-- processed.
pub Reached-IsConsistent : (c : Config) {s : Scheduler} → Reached c s → IsConsistent c s
unfolding new_scheduler
Reached-IsConsistent c created = record {
  flight = refl;
  active = refl;
  asleep = refl;
  wanted = refl;
}
Reached-IsConsistent c (next r step) = Step-IsConsistent c step (Reached-IsConsistent c r)

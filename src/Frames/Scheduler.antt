-- ===== src/Frames/Scheduler.antt =====
-- The frame scheduler of the camera (FrameScheduler of
-- app/features/guided-capture/core/scheduler.ts): its fields, and its methods as functions on them.
--
-- A frame is an object that the scheduler compares by identity: a number says which one it is. Times
-- are natural numbers in the clock's unit. What the platform supplies enters as arguments: the time
-- that platform.now() gives, and, as a Platform, which requests exist and which of them throw. The
-- calls that go out are kept in the last three fields. onError gets errors and changes nothing.
use furima_sandbox.Prelude.{
  is_some, ℕ, ◌+◌, max, Bool, true, false, not, ◌||◌, ◌&&◌, Option, none, some, List, [], ◌∷◌, ltb,
  ◌==◌, if◌then◌else◌,
}

pub data Source : Type 0 where
  rvfc raf timer manual : Source

pub data Mode : Type 0 where
  auto by_hand : Mode

-- The options that the constructor has checked: the interval is positive (FrameSchedulerOptions).
pub record Config : Type 0 where
  pub interval : ℕ
  pub mode : Mode
  pub disposes : Bool  -- whether disposeFrame is given

pub record Platform : Type 0 where
  pub has_rvfc : Bool
  pub rvfc_throws : Bool
  pub has_raf : Bool
  pub raf_throws : Bool
  pub timer_throws : Bool

pub record Scheduler : Type 0 where
  pub running : Bool
  pub processing : Bool
  pub pending : Option ℕ
  pub active_frame : Option ℕ
  pub source : Source
  pub next_process_at : ℕ
  pub source_scheduled : Bool
  pub wake_set : Bool  -- wakeHandle !== undefined
  pub started : List (ℕ × ℕ)  -- calls of onFrame since the last start, the latest first, with the clock
  pub in_flight : ℕ  -- calls of onFrame whose promise has not settled
  pub disposed : List ℕ  -- calls of disposeFrame, the latest first

unfoldable pub new_scheduler : Scheduler
new_scheduler = record {
  running = false;
  processing = false;
  pending = none;
  active_frame = none;
  source = manual;
  next_process_at = 0;
  source_scheduled = false;
  wake_set = false;
  started = [];
  in_flight = 0;
  disposed = [];
}

abbrev pub is_frame : ℕ → Option ℕ → Bool
is_frame frame none = false
is_frame frame (some other) = frame == other

-- disposeDroppedFrame
unfoldable pub dispose_dropped_frame : Config → ℕ → Scheduler → Scheduler
dispose_dropped_frame c frame s =
    if is_frame frame s.active_frame || not c.disposes
    then s
    else record s { disposed = frame ∷ s.disposed }

-- clearWakeTimer
unfoldable pub clear_wake_timer : Scheduler → Scheduler
clear_wake_timer s = record s { wake_set = false }

-- drainIfDue, up to the promise: the frame that starts an analysis. The argument `now` is the one of
-- drainIfDue; `clock` is what the clock shows, which `started` keeps and nothing reads.
unfoldable pub drain_frame : Config → ℕ → ℕ → ℕ → Scheduler → Scheduler
drain_frame c clock now frame s = record s {
  pending = none;
  wake_set = false;
  processing = true;
  active_frame = some frame;
  next_process_at = now + c.interval;
  started = (frame, clock) ∷ s.started;
  in_flight = s.in_flight + 1;
}

unfoldable pub drain_if_due : Config → ℕ → ℕ → Scheduler → Scheduler
drain_if_due c clock now s = elim s.pending [
  | none ↦ s
  | some frame ↦
      if not s.running || s.processing || ltb now s.next_process_at
      then s
      else drain_frame c clock now frame s
]

-- scheduleWakeTimer
unfoldable pub schedule_wake_timer : Platform → Scheduler → Scheduler
schedule_wake_timer p s =
    if not s.running || s.processing || not (is_some s.pending) || s.wake_set
    then s
    else record s { wake_set = not p.timer_throws }

-- if (this.pending !== undefined && !this.processing) this.scheduleWakeTimer()
unfoldable pub wake_later : Platform → Scheduler → Scheduler
wake_later p s = if is_some s.pending && not s.processing then schedule_wake_timer p s else s

-- The frame that waited gives way to the new one.
unfoldable pub replace_pending : Config → ℕ → Scheduler → Scheduler
replace_pending c frame s = elim s.pending [
  | none ↦ record s { pending = some frame }
  | some previous ↦
      if previous == frame
      then record s { pending = some frame }
      else record (dispose_dropped_frame c previous s) { pending = some frame }
]

-- acceptTick
unfoldable pub accept_tick : Config → Platform → ℕ → ℕ → ℕ → Scheduler → Scheduler
accept_tick c p frame timestamp now s =
    if s.running
    then wake_later p (drain_if_due c now (max now timestamp) (replace_pending c frame s))
    else s

-- selectSource
unfoldable pub select_source : Platform → Source
select_source p = if p.has_rvfc then rvfc else if p.has_raf then raf else timer

-- scheduleTimerFrame
unfoldable pub schedule_timer_frame : Platform → Scheduler → Scheduler
schedule_timer_frame p s =
    if p.timer_throws
    then record s { source_scheduled = false; running = false }
    else record s { source_scheduled = true }

-- scheduleAnimationFrame
unfoldable pub schedule_animation_frame : Platform → Scheduler → Scheduler
schedule_animation_frame p s =
    if not p.has_raf || p.raf_throws
    then schedule_timer_frame p (record s { source_scheduled = false; source = timer })
    else record s { source_scheduled = true }

-- The fallback of scheduleVideoFrame.
unfoldable pub fall_back : Platform → Scheduler → Scheduler
fall_back p s =
    if p.has_raf
    then schedule_animation_frame p (record s { source_scheduled = false; source = raf })
    else schedule_timer_frame p (record s { source_scheduled = false; source = timer })

-- scheduleVideoFrame
unfoldable pub schedule_video_frame : Platform → Scheduler → Scheduler
schedule_video_frame p s =
    if not p.has_rvfc || p.rvfc_throws then fall_back p s else record s { source_scheduled = true }

unfoldable pub schedule_by : Source → Platform → Scheduler → Scheduler
schedule_by rvfc p s = schedule_video_frame p s
schedule_by raf p s = schedule_animation_frame p s
schedule_by timer p s = schedule_timer_frame p s
schedule_by manual p s = s

-- scheduleNextFrame
unfoldable pub schedule_next_frame : Platform → Scheduler → Scheduler
schedule_next_frame p s =
    if not s.running || s.source_scheduled then s else schedule_by s.source p s

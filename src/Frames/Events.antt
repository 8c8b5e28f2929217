-- ===== src/Frames/Events.antt =====
-- What happens to a frame scheduler (app/features/guided-capture/core/scheduler.ts): its public
-- methods, and the callbacks of the platform and of the analysis, as a step relation.
use furima_sandbox.Prelude.{
  ℕ, ◌-◌, ◌≤◌, Bool, true, false, Option, none, some, [], ◌≡◌, if◌then◌else◌,
}
use furima_sandbox.Frames.Scheduler.{
  manual, Mode, auto, by_hand, Config, Platform, Scheduler, new_scheduler, dispose_dropped_frame,
  drain_if_due, wake_later, accept_tick, select_source, schedule_next_frame,
}

abbrev pub is_by_hand : Mode → Bool
is_by_hand by_hand = true
is_by_hand auto = false

-- start
unfoldable pub start : Config → Platform → ℕ → Scheduler → Scheduler
start c p now s =
    if s.running
    then s
    else if is_by_hand c.mode
    then record s { running = true; next_process_at = now; source = manual; started = [] }
    else schedule_next_frame p
        (record s { running = true; next_process_at = now; source = select_source p; started = [] })

-- stop
unfoldable pub stop : Config → Scheduler → Scheduler
stop c s =
    let quiet = record s {
      running = false;
      source_scheduled = false;
      wake_set = false;
      pending = none;
    } in
    elim s.pending [ none ↦ quiet | some frame ↦ dispose_dropped_frame c frame quiet ]

-- tick and manualTick, at a finite timestamp; at another they throw after the start.
unfoldable pub tick : Config → Platform → ℕ → ℕ → ℕ → Scheduler → Scheduler
tick c p frame timestamp now s =
    if s.running
    then accept_tick c p frame timestamp now s
    else if is_by_hand c.mode
    then accept_tick c p frame timestamp now (start c p now s)
    else s

-- onBrowserFrame at a finite timestamp: the frame that readFrame gives, or none where it gives none or
-- throws.
unfoldable pub on_browser_frame : Config → Platform → Option ℕ → ℕ → ℕ → Scheduler → Scheduler
on_browser_frame c p none timestamp now s =
    let idle = record s { source_scheduled = false } in
    if s.running then schedule_next_frame p idle else idle
on_browser_frame c p (some frame) timestamp now s =
    let idle = record s { source_scheduled = false } in
    if s.running then schedule_next_frame p (accept_tick c p frame timestamp now idle) else idle

-- The callback of scheduleTimerFrame.
unfoldable pub on_timer_frame : Config → Platform → Option ℕ → ℕ → Scheduler → Scheduler
on_timer_frame c p frame now s =
    let idle = record s { source_scheduled = false } in
    if s.running then schedule_next_frame p (on_browser_frame c p frame now now idle) else idle

-- The `finally` of drainIfDue.
unfoldable pub on_settled : Config → Platform → ℕ → Scheduler → Scheduler
on_settled c p now s =
    let done = record s { processing = false; active_frame = none; in_flight = s.in_flight - 1 } in
    elim s.pending [
      | none ↦ done
      | some _ ↦ if s.running then wake_later p (drain_if_due c now now done) else done
    ]

-- The callback of scheduleWakeTimer.
unfoldable pub on_wake : Config → ℕ → Scheduler → Scheduler
on_wake c now s =
    let awake = record s { wake_set = false } in
    if s.running then drain_if_due c now now awake else awake

-- One call of a method or of a callback. A promise settles only while an analysis is in flight, and a
-- wake-up comes only while it is set. The platform may cancel the callbacks of the camera or not.
pub data Step (c : Config) : Scheduler → Scheduler → Type 0 where
  starts : (p : Platform) (now : ℕ) (s : Scheduler) → Step c s (start c p now s)
  stops : (s : Scheduler) → Step c s (stop c s)
  ticks :
      (p : Platform) (frame timestamp now : ℕ) (s : Scheduler)
      → Step c s (tick c p frame timestamp now s)
  shows :
      (p : Platform) (frame : Option ℕ) (timestamp now : ℕ) (s : Scheduler)
      → Step c s (on_browser_frame c p frame timestamp now s)
  times :
      (p : Platform) (frame : Option ℕ) (now : ℕ) (s : Scheduler)
      → Step c s (on_timer_frame c p frame now s)
  settles :
      (p : Platform) (now : ℕ) (s : Scheduler) → 1 ≤ s.in_flight → Step c s (on_settled c p now s)
  wakes : (now : ℕ) (s : Scheduler) → s.wake_set ≡ true → Step c s (on_wake c now s)

-- The states that a new scheduler reaches.
pub data Reached (c : Config) : Scheduler → Type 0 where
  created : Reached c new_scheduler
  next : {s t : Scheduler} → Reached c s → Step c s t → Reached c t

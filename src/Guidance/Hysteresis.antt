-- ===== src/Guidance/Hysteresis.antt =====
-- GuidanceHysteresis of app/features/guided-capture/core/guidanceSelector.ts: its fields as a
-- record, its methods as functions on it. Durations and instants are whole milliseconds from 0 on. A
-- difference `now - since >= ms` is written with the sum, since the clock may go back.
use furima_sandbox.Prelude.{
  ℕ, ◌+◌, max, Bool, true, false, not, ◌&&◌, Option, none, some, List, ltb, leb, if◌then◌else◌,
}
use furima_sandbox.Text.{Text, text}
use furima_sandbox.Capture.Records.{ImageSlot, front, SessionSlot, image, measurement}
use furima_sandbox.Guidance.Candidates.{
  Code, ready, CandidateSource, agent, device, GuidanceCandidate, is_fresh_candidate, is_ready,
  select_primary_guidance,
}

pub record Durations : Type 0 where
  pub enter_ms : ℕ
  pub clear_ms : ℕ
  pub ready_ms : ℕ
  pub acknowledgement_ms : ℕ

abbrev pub default_durations : Durations
default_durations = record {
  enter_ms = 250;
  clear_ms = 500;
  ready_ms = 600;
  acknowledgement_ms = 1200;
}

pub record Hysteresis : Type 0 where
  pub active : Option GuidanceCandidate
  pub pending : Option GuidanceCandidate
  pub pending_since : Option ℕ
  pub clear_since : Option ℕ
  pub ready_since : Option ℕ
  pub acknowledgement_until : Option ℕ
  pub last_shot : SessionSlot

-- A new object, and reset.
unfoldable pub reset : Hysteresis
reset = record {
  active = none;
  pending = none;
  pending_since = none;
  clear_since = none;
  ready_since = none;
  acknowledgement_until = none;
  last_shot = image front;
}

abbrev pub source_eq : CandidateSource → CandidateSource → Bool
source_eq agent agent = true
source_eq agent device = false
source_eq device agent = false
source_eq device device = true

unfoldable pub Code-discrete : Discrete Code
Code-discrete = hlevel

unfoldable pub ImageSlot-discrete : Discrete ImageSlot
ImageSlot-discrete = hlevel

abbrev pub shot_eq : SessionSlot → SessionSlot → Bool
shot_eq (image a) (image b) = elim (ImageSlot-discrete a b) [ yes _ ↦ true | no _ ↦ false ]
shot_eq (image _) measurement = false
shot_eq measurement (image _) = false
shot_eq measurement measurement = true

-- candidateKey(left) === candidateKey(right)
unfoldable pub same_key : GuidanceCandidate → GuidanceCandidate → Bool
same_key a b =
    source_eq a.source b.source
    && shot_eq a.shot b.shot
    && elim (Code-discrete a.code b.code) [ yes _ ↦ true | no _ ↦ false ]

-- sameCandidate
unfoldable pub same_candidate : Option GuidanceCandidate → Option GuidanceCandidate → Bool
same_candidate none none = true
same_candidate none (some _) = false
same_candidate (some _) none = false
same_candidate (some a) (some b) = same_key a b

unfoldable pub acknowledged : Text
acknowledged = text "その調子です。"

-- clearActive
unfoldable pub clear_active : Durations → ℕ → Hysteresis → Option Text × Hysteresis
clear_active d now h =
    let quiet = record h { pending = none; pending_since = none; ready_since = none } in
    elim h.clear_since [
      | none ↦ (none, record quiet { clear_since = some now })
      | some since ↦ if ltb now (since + d.clear_ms) then (none, quiet) else (
        some acknowledged,
        record quiet {
          active = none;
          clear_since = none;
          ready_since = some now;
          acknowledgement_until = some (now + d.acknowledgement_ms);
        },
      )
    ]

-- The branch of update for a blocker, with the fields that it clears first.
unfoldable pub update_blocker : Durations → ℕ → GuidanceCandidate → Hysteresis → Hysteresis
update_blocker d now selected h =
    let quiet = record h { acknowledgement_until = none; clear_since = none; ready_since = none } in
    let enters = record quiet { active = some selected; pending = none; pending_since = none } in
    let waits = record quiet { pending = some selected; pending_since = some now } in
    if same_candidate h.active (some selected)
    then enters
    else if same_candidate h.pending (some selected)
    then elim h.pending_since [
      | none ↦ waits
      | some since ↦ if leb (since + d.enter_ms) now then enters else quiet
    ]
    else waits

-- if (this.readySince === null) this.readySince = now
abbrev pub since_when : Option ℕ → ℕ → ℕ
since_when none now = now
since_when (some since) now = since

-- The end of the READY branches: the candidate becomes active after readyMs.
unfoldable pub settle_ready : Durations → ℕ → GuidanceCandidate → Hysteresis → Hysteresis
settle_ready d now shown h =
    let since = since_when h.ready_since now in
    if leb (since + d.ready_ms) now
    then record h { active = some shown; ready_since = none }
    else record h { ready_since = some since }

-- this.active !== null && this.active.code !== 'READY'
abbrev pub blocks : Option GuidanceCandidate → Bool
blocks none = false
blocks (some c) = not (is_ready c.code)

-- The branch of update for a READY candidate.
unfoldable pub update_ready :
    Durations → ℕ → GuidanceCandidate → Hysteresis → Option Text × Hysteresis
update_ready d now selected h = if blocks h.active then clear_active d now h else (
  none,
  settle_ready d now selected
      (record h { clear_since = none; pending = none; pending_since = none }),
)

-- The READY candidate of the app.
unfoldable pub own_ready : Durations → ℕ → SessionSlot → GuidanceCandidate
own_ready d now shot = record {
  shot = shot;
  code = ready;
  message = text "撮影できます。";
  source = device;
  observed_at = some now;
  expires_at = some (now + max d.ready_ms 1000);
  sequence = none;
}

-- The branch of update with no candidate.
unfoldable pub update_none : Durations → ℕ → Hysteresis → Option Text × Hysteresis
update_none d now h = elim h.active [
  | some _ ↦ clear_active d now h
  | none ↦ (
    none,
    settle_ready d now (own_ready d now h.last_shot)
        (record h { pending = none; pending_since = none }),
  )
]

-- The three branches.
unfoldable pub update_by :
    Durations → ℕ → Option GuidanceCandidate → Hysteresis → Option Text × Hysteresis
update_by d now none h = update_none d now h
update_by d now (some selected) h =
    if is_ready selected.code
    then update_ready d now selected h
    else (none, update_blocker d now selected h)

-- The fields before the branches: the last shot, and an active candidate that is fresh.
unfoldable pub drop_stale : ℕ → Hysteresis → Hysteresis
drop_stale now h = elim h.active [
  | none ↦ h
  | some c ↦ if is_fresh_candidate c now then h else record h { active = none; clear_since = none }
]

-- shot ?? selected?.shot ?? this.active?.shot ?? this.lastShot
unfoldable pub shot_of : Option SessionSlot → Option GuidanceCandidate → Hysteresis → SessionSlot
shot_of (some shot) selected h = shot
shot_of none (some c) h = c.shot
shot_of none none h = elim h.active [ some c ↦ c.shot | none ↦ h.last_shot ]

-- The acknowledgement after the branches.
unfoldable pub acknowledge : ℕ → Option Text × Hysteresis → Option Text × Hysteresis
acknowledge now (said, h) = elim h.acknowledgement_until [
  | none ↦ (said, h)
  | some until ↦
      if ltb now until
      then (elim said [ none ↦ some acknowledged | some t ↦ some t ], h)
      else (said, record h { acknowledgement_until = none })
]

pub record GuidanceHysteresisResult : Type 0 where
  pub primary : Option GuidanceCandidate
  pub acknowledgement : Option Text
  pub ready : Bool
  pub changed : Bool

abbrev pub is_ready_candidate : Option GuidanceCandidate → Bool
is_ready_candidate none = false
is_ready_candidate (some c) = is_ready c.code

-- The object after an update.
unfoldable pub update_state :
    Durations
    → List GuidanceCandidate
    → ℕ
    → Option SessionSlot
    → Hysteresis
    → Option Text × Hysteresis
update_state d candidates now shot h =
    let selected = select_primary_guidance candidates (some now) in
    acknowledge now
      (update_by d now selected (drop_stale now (record h { last_shot = shot_of shot selected h })))

-- update: `none` where it throws, at a time that is not finite or negative.
unfoldable pub update :
    Durations
    → List GuidanceCandidate
    → Option ℕ
    → Option SessionSlot
    → Hysteresis
    → Option (GuidanceHysteresisResult × Hysteresis)
update d candidates none shot h = none
update d candidates (some now) shot h =
    let previous = (drop_stale now h).active in
    let (said, h') = update_state d candidates now shot h in
    some (
      record {
        primary = h'.active;
        acknowledgement = said;
        ready = is_ready_candidate h'.active;
        changed = not (same_candidate previous h'.active);
      },
      h',
    )

-- get nextWakeAt
unfoldable pub next_wake_at : Durations → Hysteresis → Option ℕ
next_wake_at d h = elim h.pending_since [
  | some since ↦ some (since + (if is_ready_candidate h.pending then d.ready_ms else d.enter_ms))
  | none ↦ elim h.clear_since [
    | some since ↦ some (since + d.clear_ms)
    | none ↦ elim h.ready_since [
      | some since ↦ some (since + d.ready_ms)
      | none ↦ elim h.active [ some c ↦ c.expires_at | none ↦ none ]
    ]
  ]
]

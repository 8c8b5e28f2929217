-- ===== src/Guidance/Candidates.antt =====
-- The candidates of live guidance and the choice between them: the types, isFreshCandidate,
-- createLocalGuidanceCandidate and selectPrimaryGuidance of
-- app/features/guided-capture/core/guidanceSelector.ts.
--
-- An instant is a whole number of milliseconds from 0 on, and `none` a number that is not finite or,
-- of the current time, negative. A candidate's shot and code have their types, so the tests of them
-- hold. The event that an agent's candidate carries along is left out.
use furima_sandbox.Prelude.{
  ℕ, Bool, true, false, not, ◌&&◌, ◌||◌, Option, none, some, List, [], ◌∷◌, ltb, leb, ◌==◌, keep,
  sort_by, head,
}
use furima_sandbox.Text.{Text, text, trim, is_empty}
use furima_sandbox.Capture.Records.{SessionSlot, Sequence, natural, improper}

-- GuidanceCandidateCode
pub data Code : Type 0 where
  move_closer move_farther center_garment show_full_garment wrong_side move_to_tag : Code
  place_marker marker_not_visible flatten_garment camera_overhead hold_steady : Code
  ready agent_unavailable too_dark too_bright too_blurry : Code

pub data LocalCode : Type 0 where
  too_dark too_bright too_blurry hold_steady : LocalCode

abbrev pub as_code : LocalCode → Code
as_code LocalCode.too_dark = Code.too_dark
as_code LocalCode.too_bright = Code.too_bright
as_code LocalCode.too_blurry = Code.too_blurry
as_code LocalCode.hold_steady = Code.hold_steady

pub data CandidateSource : Type 0 where
  agent device : CandidateSource

pub record GuidanceCandidate : Type 0 where
  pub shot : SessionSlot
  pub code : Code
  pub message : Text
  pub source : CandidateSource
  pub observed_at : Option ℕ
  pub expires_at : Option ℕ
  pub sequence : Option Sequence

-- CODE_PRIORITY, one higher, so that READY has 0.
abbrev pub priority : Code → ℕ
priority wrong_side = 6
priority agent_unavailable = 6
priority move_to_tag = 5
priority show_full_garment = 5
priority place_marker = 5
priority marker_not_visible = 5
priority move_closer = 4
priority move_farther = 4
priority center_garment = 4
priority camera_overhead = 3
priority flatten_garment = 3
priority Code.too_dark = 2
priority Code.too_bright = 2
priority Code.too_blurry = 2
priority Code.hold_steady = 1
priority ready = 0

-- DEVICE_MESSAGES
abbrev pub device_message : LocalCode → Text
device_message LocalCode.too_dark = text "もう少し明るい場所で撮影してください。"
device_message LocalCode.too_bright = text "反射が少ない場所へ移動してください。"
device_message LocalCode.too_blurry = text "ピントが合うまで、カメラをゆっくり止めてください。"
device_message LocalCode.hold_steady = text "カメラを動かさず、そのまま保ってください。"

-- createLocalGuidanceCandidate
unfoldable pub create_local_guidance_candidate :
    SessionSlot → LocalCode → Option ℕ → Option ℕ → Option Text → GuidanceCandidate
create_local_guidance_candidate shot code observed_at expires_at message = record {
  shot = shot;
  code = as_code code;
  message = elim message [ some m ↦ m | none ↦ device_message code ];
  source = device;
  observed_at = observed_at;
  expires_at = expires_at;
  sequence = none;
}

-- sequence === undefined || Number.isSafeInteger(sequence) && sequence > 0
abbrev pub is_proper : Option Sequence → Bool
is_proper none = true
is_proper (some improper) = false
is_proper (some (natural n)) = ltb 0 n && leb n 9007199254740991

-- isFreshCandidate
unfoldable pub is_fresh_candidate : GuidanceCandidate → ℕ → Bool
is_fresh_candidate c now = elim c.observed_at [
  | none ↦ false
  | some observed ↦ elim c.expires_at [
    | none ↦ false
    | some expires ↦
        not (is_empty (trim c.message))
        && ltb observed expires
        && ltb now expires
        && is_proper c.sequence
  ]
]

abbrev pub is_device : CandidateSource → ℕ
is_device device = 1
is_device agent = 0

-- sequence ?? 0
abbrev pub sequence_number : Option Sequence → ℕ
sequence_number none = 0
sequence_number (some improper) = 0
sequence_number (some (natural n)) = n

abbrev pub instant_of : Option ℕ → ℕ
instant_of none = 0
instant_of (some t) = t

-- The comparison of selectPrimaryGuidance, on fresh candidates: whether it is negative.
unfoldable pub goes_before : GuidanceCandidate → GuidanceCandidate → Bool
goes_before a b =
    ltb (priority b.code) (priority a.code)
    || priority a.code == priority b.code
      && (ltb (is_device b.source) (is_device a.source)
          || is_device a.source == is_device b.source
            && (ltb (sequence_number b.sequence) (sequence_number a.sequence)
                || sequence_number a.sequence == sequence_number b.sequence
                  && ltb (instant_of b.observed_at) (instant_of a.observed_at)))

-- code === 'READY'
abbrev pub is_ready : Code → Bool
is_ready ready = true
is_ready move_closer = false
is_ready move_farther = false
is_ready center_garment = false
is_ready show_full_garment = false
is_ready wrong_side = false
is_ready move_to_tag = false
is_ready place_marker = false
is_ready marker_not_visible = false
is_ready flatten_garment = false
is_ready camera_overhead = false
is_ready Code.hold_steady = false
is_ready agent_unavailable = false
is_ready Code.too_dark = false
is_ready Code.too_bright = false
is_ready Code.too_blurry = false

abbrev pub is_blocker : GuidanceCandidate → Bool
is_blocker c = not (is_ready c.code)

abbrev pub fresh_among : List GuidanceCandidate → ℕ → List GuidanceCandidate
fresh_among candidates now = keep (λ c. is_fresh_candidate c now) candidates

-- blockers.length > 0 ? blockers : the READY ones
abbrev pub eligible : List GuidanceCandidate → List GuidanceCandidate → List GuidanceCandidate
eligible [] others = others
eligible (b ∷ bs) others = b ∷ bs

-- selectPrimaryGuidance
unfoldable pub select_primary_guidance :
    List GuidanceCandidate → Option ℕ → Option GuidanceCandidate
select_primary_guidance candidates none = none
select_primary_guidance candidates (some now) =
    let fresh = fresh_among candidates now in
    head
      (sort_by goes_before (eligible (keep is_blocker fresh) (keep (λ c. is_ready c.code) fresh)))

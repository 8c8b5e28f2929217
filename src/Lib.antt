-- ===== src/Lib.antt =====
-- Furima Sandbox: the flea-market sandbox engine and the guided capture session.
--
-- The engine (app/domain/sandboxEngine.ts) is one object that holds the whole state of a sandbox
-- market. Each command checks its caller, reads the state, writes to it, records domain events and
-- notifications, and returns data or an error code. A purchase reserves a unit of an item and holds
-- the buyer's money in a wallet; its confirmation captures the payment; the order is shipped,
-- delivered and reviewed, which pays the seller; cancellation and return undo these steps. An auction
-- holds each leading bid and is settled when the clock passes its end. The command bus
-- (app/domain/commandBus.ts) stands before the engine: it refuses calls for another sandbox, actor or
-- version, and answers a repeated key from its cache. The guided
-- capture session (app/features/guided-capture/core) is a pure state machine: a reducer that takes the
-- actions of the user, the assessor, the measurement provider and the transport. Beside it the frame
-- scheduler limits how often a camera frame is analysed, and the guidance selector turns what the
-- analyses and the agent say into one steady instruction. A background edit (app/features/background-edit)
-- has a reducer of its own, which keeps what the user chose and approved.
--
-- The files, and the code that each is about:
--   Prelude, Prelude/*: numbers, Boolean tests, lists and integers that the other files share.
--   Text: strings as UTF-16 code units, trim, and unsafeContactText.
--   Engine/Ident, Records, State: identifiers, the records of app/types/mercari.ts, the engine's state
--     (SandboxEngineState) with nextId, commit, addNotification, recordInventoryMovement, updateItem.
--   Engine/Action, Action/Preserves: a command as a function from the state to a result and a state,
--     with do blocks for its early returns; rules that carry an invariant through such a block.
--   Engine/Access, Access/Principals: validateOptions, validateControlOptions, actorFor; who a command
--     acts for.
--   Engine/Wallet, Wallet/Reconciled, Holds, Entries, Deposits: addLedger, releaseWalletHold,
--     heldAmountForReference, getWallet, depositWallet, withdrawWallet; the replay of a ledger; the
--     holds of each reference.
--   Engine/Reservation, Opening, Purchase: releaseIntent, releaseExpiredPurchaseIntents, startPurchase.
--   Engine/Pricing, Checkout: updatePurchasePricing, confirmPurchase, purchaseItem,
--     purchaseItemWithPricing.
--   Engine/Orders, Review, Cancellation, Resolution, Returns: shipOrder, markDelivered, reviewOrder,
--     cancelOrder, resolveCancellation, requestReturn, confirmReturnReceived.
--   Engine/Auctions, Settlement, Ranking, Sale, Closing: placeBid, settleExpiredAuction, closeAuction.
--   Engine/Clock, Follows: advanceClock; followUser, unfollowUser, getFollowSummary.
--   Engine/Commands: the commands as data, and runs of them.
--   Engine/Initial, Initial/Valid: normalizeCatalogItem, createInitialInventoryMovements, createState.
--   Engine/Soundness, Soundness/*: the invariant of the engine's state, command by command.
--   Engine/Refusals: the callers that the engine turns away.
--   Capture/Records, State: the contracts of guided-capture/core/types.ts.
--   Capture/Slots, Checks, Shots, Reducer: guided-capture/core/captureReducer.ts, one function for each
--     action.
--   Capture/Invariant, Sessions, Responses, Progress: the session's invariant and its runs.
--   Bus/Records, Cache, Execute: SandboxCommandBus (app/domain/commandBus.ts): its Map, execute,
--     decorate and remember.
--   Bus/Bounds, Replay, Conflict, Kept, Once: the sizes of its fields, and keys that it has seen.
--   Frames/Scheduler, Events: FrameScheduler (guided-capture/core/scheduler.ts), its methods and
--     callbacks as a step relation. Frames/Invariant, Progress, Spacing: the states it reaches, and the
--     time between its analyses.
--   Guidance/Candidates, Hysteresis: guided-capture/core/guidanceSelector.ts, the choice and the
--     hysteresis. Guidance/Choice, Stability, Entry, Waking: what is chosen, shown and woken for.
--   Background/Reducer, Approval: background-edit/backgroundEditReducer.ts, and what is approved.
--   Engine/Examples, */Examples: the theorems at concrete inputs, and tests.
--
-- How the code is represented. Amounts, counters, versions and sequences are natural numbers, which
-- have no bound, as the code's safe integers are taken to have none; where the code could go below
-- zero it refuses first, and the comparison is written without the subtraction. A caller's number that
-- need not be an integer has a constructor for the other numbers (Amount, Sequence). A double of a
-- measurement is a whole multiple of 2^-1074 or not finite. An instant is its number of milliseconds.
-- Template strings are kept as their parts (Ident). An object that the code finds and mutates is
-- updated at the first entry with its id. Every function is total by its structure, and no fuel is
-- used: the loops run over lists of the state.
--
-- What the code takes from outside is a parameter: the order of localeCompare on ids (Collation), the
-- clock's readings and the random UUID of the command bus (Surroundings), the browser's timers and
-- frame callbacks (Platform). The command bus is stated for any fingerprint and any compaction of
-- payloads, and for any world that its operations change.
--
-- Not modelled: messages and nextActions of results, profiles, getFollowList, drafts, support
-- tickets, listings, policy, scenarios and import (app/domain/sandboxEngine.ts, other methods), which
-- check free text, partly given items and unknown JSON; candidateFromGuidanceEvent, whose event is
-- left out of the candidates; the canonical form and digest of payloads (app/domain/commandBus.ts), which walk any JavaScript value;
-- the command executor, the HTTP API, storage and the views, which are input and output; image
-- statistics, the camera, measurement geometry and the images of background editing, which are floating
-- point or belong to the browser.
pub mod Prelude
pub mod Text
pub mod Engine
pub mod Capture
pub mod Background
pub mod Bus
pub mod Frames
pub mod Guidance

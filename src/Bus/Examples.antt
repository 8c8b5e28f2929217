-- ===== src/Bus/Examples.antt =====
-- The command bus's theorems at a small world, and tests of its calls.
use furima_sandbox.Prelude.{[], ◌∷◌, ℕ, suc, ◌≡◌, refl, ◌⊎◌, Option, none, some, ◌++◌, arith}
use furima_sandbox.Text.{Text, text, Text-discrete}
use furima_sandbox.Engine.Ident.{literal, Ident-discrete}
use furima_sandbox.Engine.Action.{ok, error, idempotency_conflict, state_conflict}
use furima_sandbox.Engine.Access.{no_options, stale_version, other_than}
use furima_sandbox.Bus.Records.{
  Context, BusOptions, Request, Sealed, Outcome, returns, Bus, default_config, new_bus,
  Surroundings,
}
use furima_sandbox.Bus.Cache.{lookup, prune, store, set_entry}
use furima_sandbox.Bus.Execute.{
  matches, Turn, refusal, cached_for, execute, opened, actor_refused, answer, call, remember,
  remember_in_cache, decorate, metadata,
}
use furima_sandbox.Bus.Bounds.{IsWithin, execute-IsWithin, execute-world}
use furima_sandbox.Bus.Replay.{execute-replay}
use furima_sandbox.Bus.Once.{Call, execute_all, execute_all-once}
use furima_sandbox.Bus.Conflict.{execute-forgets, execute-stale_retry}

-- The world is the number of commands served, which is its version too.
abbrev tally_context : ℕ → Context
tally_context n = record {
  sandbox_id = literal (text "box");
  actor_id = literal (text "buyer_01");
  state_version = n;
}

abbrev count_up : ℕ → Outcome ℕ × ℕ
count_up n = (returns (ok n) (suc n), suc n)

abbrev print_payload : Sealed Text → Option Text
print_payload sealed = some (sealed.command ++ sealed.payload)

abbrev keep_payload : Text → Text
keep_payload p = p

abbrev keyed : BusOptions
keyed = record {
  idempotency_key = some (literal (text "k"));
  request_id = none;
  command_id = none;
  operation_id = none;
  sandbox_id = none;
  mode = none;
  scope = none;
  agent = no_options;
}

abbrev deposit_100 : Request Text
deposit_100 = record { command = text "deposit"; payload = text "100"; options = keyed }

abbrev deposit_200 : Request Text
deposit_200 = record { command = text "deposit"; payload = text "200"; options = keyed }

abbrev at_time : ℕ → Surroundings
at_time n = record { pruned_at = n; traced_at = n; cached_at = n; uuid = text "u" }

abbrev empty_bus : Bus Text ℕ
empty_bus = new_bus

abbrev first_turn : Turn Text ℕ ℕ
first_turn =
    execute default_config print_payload keep_payload tally_context deposit_100 count_up (at_time 5)
      0 empty_bus

execute-IsWithin_example : IsWithin default_config first_turn.bus
execute-IsWithin_example =
    execute-IsWithin default_config print_payload keep_payload tally_context deposit_100 count_up
      (at_time 5) 0 empty_bus (record { cached = omega arith; traced = omega arith })

execute-replay_example :
    execute default_config print_payload keep_payload tally_context deposit_100 count_up
      (at_time 9)
      first_turn.world
      first_turn.bus
    ≡ record {
      reply = first_turn.reply;
      bus = opened deposit_100 (at_time 9) first_turn.bus;
      world = first_turn.world;
    }
unfolding execute refusal cached_for prune lookup call answer other_than stale_version actor_refused
execute-replay_example =
    execute-replay default_config print_payload keep_payload tally_context deposit_100 count_up
      count_up (at_time 5) (at_time 9) 0 empty_bus (literal (text "k")) (text "deposit100")
      first_turn refl refl refl refl refl refl refl refl (omega arith)

execute-world_example :
    (first_turn.world ≡ 0)
    ⊎ ((refusal print_payload keep_payload deposit_100 (tally_context 0) ≡ none)
        × (cached_for deposit_100 (at_time 5) empty_bus ≡ none)
        × (first_turn.world ≡ 1))
execute-world_example =
    execute-world default_config print_payload keep_payload tally_context deposit_100 count_up
      (at_time 5) 0 empty_bus

first_turn_serves : first_turn.world ≡ 1
unfolding execute refusal cached_for prune lookup call answer other_than stale_version actor_refused
first_turn_serves = refl

-- The call under the same key with another amount, and the first request once more.
abbrev second_turn : Turn Text ℕ ℕ
second_turn =
    execute default_config print_payload keep_payload tally_context deposit_200 count_up (at_time 7)
      first_turn.world first_turn.bus

abbrev third_turn : Turn Text ℕ ℕ
third_turn =
    execute default_config print_payload keep_payload tally_context deposit_100 count_up (at_time 9)
      second_turn.world second_turn.bus

execute-forgets_example :
    (second_turn.reply.result ≡ error idempotency_conflict)
    × (third_turn.reply.result ≡ error idempotency_conflict)
    × (third_turn.world ≡ first_turn.world)
unfolding execute refusal cached_for prune lookup call answer other_than stale_version actor_refused
    remember remember_in_cache store set_entry decorate metadata opened Ident-discrete Text-discrete
execute-forgets_example =
    execute-forgets default_config print_payload keep_payload tally_context deposit_100 deposit_200
      count_up count_up (at_time 7) (at_time 9) first_turn.world first_turn.bus (literal (text "k"))
      (text "deposit200")
      (record { fingerprint = text "deposit100"; reply = first_turn.reply; expires_at = 600005 })
      refl refl refl refl refl refl refl (omega arith) (omega arith) (λ e. ground arith)

abbrev versioned : Request Text
versioned = record deposit_100 {
  options = record keyed { agent = record no_options { expected_state_version = some 0 } };
}

abbrev versioned_turn : Turn Text ℕ ℕ
versioned_turn =
    execute default_config print_payload keep_payload tally_context versioned count_up (at_time 5) 0
      empty_bus

abbrev versioned_retry : Turn Text ℕ ℕ
versioned_retry =
    execute default_config print_payload keep_payload tally_context versioned count_up (at_time 9)
      versioned_turn.world versioned_turn.bus

execute-stale_retry_example :
    (versioned_retry.reply.result ≡ error state_conflict)
    × (versioned_retry.world ≡ versioned_turn.world)
unfolding execute refusal cached_for prune lookup call answer other_than stale_version actor_refused
execute-stale_retry_example =
    execute-stale_retry default_config print_payload keep_payload tally_context versioned count_up
      count_up (at_time 5) (at_time 9) 0 empty_bus 0 versioned_turn refl refl refl refl refl
      (λ e. omega arith)

-- The same key with another payload, and then the first request again: neither runs.
abbrev clash_call : Call Text ℕ ℕ
clash_call = record { request = deposit_200; operation = count_up; at = at_time 7 }

abbrev after_clash : ℕ × Bus Text ℕ
after_clash =
    execute_all default_config print_payload keep_payload tally_context (clash_call ∷ [])
      (first_turn.world, first_turn.bus)

execute_all-once_example :
    (execute default_config print_payload keep_payload tally_context deposit_100 count_up
      (at_time 9)
      after_clash.0
      after_clash.1).world
    ≡ after_clash.0
unfolding refusal cached_for prune lookup other_than stale_version actor_refused
execute_all-once_example =
    execute_all-once default_config print_payload keep_payload tally_context deposit_100 deposit_100
      count_up count_up (at_time 5) (at_time 9) 0 empty_bus (literal (text "k")) (text "deposit100")
      20 (clash_call ∷ []) refl refl refl refl (omega arith) (omega arith)
      (record { pruned = omega arith; cached = omega arith }, tt) refl (omega arith)

-- The world has counted one command.
after_clash_counts : after_clash.0 ≡ 1
unfolding execute_all execute refusal cached_for prune lookup call answer other_than stale_version
    actor_refused remember remember_in_cache store set_entry decorate metadata opened matches
    Ident-discrete Text-discrete
after_clash_counts = refl

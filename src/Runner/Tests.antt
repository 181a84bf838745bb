-- ===== src/Runner/Tests.antt =====
-- Runs of the models of services/runner/runner at concrete inputs.
use Prim.Native.String.{String}
use mathlib.Core.List.{flatten}
use snake_arena.Prelude.{
  ℕ, ◌≡◌, ◌≢◌, refl, true, false, none, some, List, [], ◌∷◌, ◌++◌, map, arith, take, length, ltb,
  All, nat_key, string_key,
}
use snake_arena.Prelude.Int.{pos, ◌+ℤ◌, ◌-ℤ◌, ◌*ℤ◌, ◌≤ℤ◌}
use snake_arena.Prelude.Dict.{Dict, lookup, contains}
use snake_arena.Runner.Cgroup.{Host, text, missing, usage_usec, read_cpu_ns}
use snake_arena.Runner.Budget.Data.{Tracker, new_tracker, Budgets, Manager, new_manager, sustained}
use snake_arena.Runner.Budget.Cycle.{poll_tracker, step_tracker}
use snake_arena.Runner.Budget.Handlers.{StepData, StartData, notify_start}
use snake_arena.Runner.Budget.Setup.{set_agent_containers, inverted, same_seats}
use snake_arena.Runner.Budget.Kills.{Event, decision, step, poll, run, run-killed}
use snake_arena.Runner.Budget.Banks.{IsFunded}
use snake_arena.Runner.Budget.Spending.{
  Moment, decide, look, close, cycles, debited, refilled, cycles-debited,
}
use snake_arena.Runner.Budget.Rules.{Explains, poll_tracker-over, poll_tracker-Explains}
use snake_arena.Runner.Budget.Invariant.{IsWellFormed}
use snake_arena.Runner.Budget.Start.{IsSane, notify_start-settles, match-IsWellFormed}
use snake_arena.Runner.StepLog.{Text, split, split_from, cap_chunk, find}
use snake_arena.Runner.StepLog.Streamer.{Config, new_streamer, stream}
use snake_arena.Runner.StepLog.Frames.{numbered, complete, stream-frames}
use snake_arena.Runner.StepLog.Full.{stream-full_log}

abbrev small_budgets : Budgets
small_budgets = record {
  per_step_cpu = pos 100;
  per_step_wall = pos 300;
  startup_cpu_budget = pos 20_000_000;
  cpu_refill = pos 50;
  cpu_initial = pos 100;
  cpu_max = pos 200;
  wall_refill = pos 40;
  wall_initial = pos 100;
  wall_max = pos 150;
}

-- A tracker in the match, with the banks that it starts with.
abbrev playing : Tracker
playing = record (new_tracker 7 "a:1" (pos 10)) {
  cpu_bank = pos 100;
  wall_bank = pos 100;
  step_start_wall = pos 1000;
  step_start_cpu = pos 10;
  in_startup = false;
}

abbrev dead_tracker : Tracker
dead_tracker = record playing { killed = true; kill_reason = some sustained }

-- A cycle with 70 ns of CPU in 80 ns, which the snake answers after 80 ns, then one with 20 ns in 90 ns,
-- in which the poll thread looks at the seat before it answers.
abbrev two_cycles : List Moment
two_cycles =
    decide (pos 80)
    ∷ close (record {
      wall = pos 80;
      now = pos 1100;
      step = pos 1;
      alive = some true;
      reading = pos 80;
    })
    ∷ look (pos 1150) (pos 90)
    ∷ decide (pos 85)
    ∷ close (record {
      wall = pos 90;
      now = pos 1200;
      step = pos 2;
      alive = some true;
      reading = pos 100;
    })
    ∷ []

playing-IsFunded : IsFunded small_budgets playing
playing-IsFunded = record {
  cpu_low = omega arith;
  cpu_high = omega arith;
  wall_low = omega arith;
  wall_high = omega arith;
}

two_cycles_live : (cycles small_budgets two_cycles playing).killed ≡ false
unfolding cycles step_tracker poll_tracker ◌*ℤ◌ ◌-ℤ◌ ◌+ℤ◌
two_cycles_live = refl

cycles-debited_example :
    IsFunded small_budgets (cycles small_budgets two_cycles playing)
    × (debited small_budgets two_cycles playing
        ≤ℤ playing.cpu_bank
          +ℤ (refilled small_budgets two_cycles playing *ℤ small_budgets.cpu_refill))
cycles-debited_example =
    cycles-debited small_budgets two_cycles playing playing-IsFunded two_cycles_live

-- A host where every container has used 12 microseconds.
abbrev busy_host : Host
busy_host = record {
  id_of = λ c. some c;
  slice = λ i. text ((usage_usec ++ b' ' ∷ b'1' ∷ b'2' ∷ []) ∷ []);
  docker = λ i. missing;
}

abbrev first_step : StepData
first_step = record {
  host = busy_host;
  now = pos 2000;
  step = pos 1;
  total_time = pos 80;
  alive_states = (10, true) ∷ [];
}

abbrev three_events : List Event
three_events = decision 10 (pos 30) ∷ step first_step ∷ poll busy_host (λ seat. pos 2500) ∷ []

abbrev dead_manager : Manager
dead_manager = record new_manager {
  trackers = (0, dead_tracker) ∷ (1, playing) ∷ [];
  kills = 7 ∷ [];
  polling = true;
}

run-killed_example :
    lookup 0 (run small_budgets three_events dead_manager).trackers ≡ some dead_tracker
run-killed_example = run-killed 0 dead_tracker refl small_budgets three_events dead_manager refl

abbrev two_containers : Dict ℕ ℕ
two_containers = (0, 7) ∷ (1, 8) ∷ []

abbrev two_targets : Dict ℕ String
two_targets = (0, "a:1") ∷ (1, "b:1") ∷ []

-- The sim knows only the first of the two agents.
abbrev one_snake : StartData
one_snake = record { host = busy_host; now = pos 1000; snake_tags = (10, "a:1") ∷ [] }

abbrev two_seats : Manager
two_seats = (set_agent_containers busy_host two_containers two_targets new_manager).0

small-IsSane : IsSane small_budgets
small-IsSane = record {
  cpu_low = omega arith;
  cpu_high = omega arith;
  wall_low = omega arith;
  wall_high = omega arith;
}

match-IsWellFormed_example :
    IsWellFormed small_budgets
      (run small_budgets three_events (notify_start small_budgets one_snake two_seats).0)
unfolding same_seats
match-IsWellFormed_example =
    match-IsWellFormed small_budgets small-IsSane busy_host two_containers two_targets one_snake
      three_events new_manager refl

abbrev started_tracker : Tracker
started_tracker = record playing { last_cpu = pos 12_000; step_start_cpu = pos 12_000 }

starts_quietly : (notify_start small_budgets one_snake two_seats).1 ≡ none
unfolding notify_start set_agent_containers read_cpu_ns inverted ◌*ℤ◌ ◌-ℤ◌
starts_quietly = refl

starts_first :
    lookup 0 (notify_start small_budgets one_snake two_seats).0.trackers ≡ some started_tracker
unfolding notify_start set_agent_containers read_cpu_ns inverted ◌*ℤ◌ ◌-ℤ◌
starts_first = refl

notify_start-settles_example :
    (contains 0 (notify_start small_budgets one_snake two_seats).0.snake_id_by_seat ≡ true)
    × (started_tracker.in_startup ≡ false)
notify_start-settles_example =
    notify_start-settles small_budgets one_snake two_seats starts_quietly 0 started_tracker
      starts_first refl

poll_tracker-over_example : (poll_tracker small_budgets (pos 1400) (pos 300) playing).killed ≡ true
unfolding ◌-ℤ◌
poll_tracker-over_example =
    poll_tracker-over small_budgets (pos 1400) (pos 300) playing (omega arith) (omega arith)
      (omega arith) (omega arith)

poll_tracker-Explains_example :
    Explains small_budgets
      (pos 1200)
      (pos 150)
      playing
      (poll_tracker small_budgets (pos 1200) (pos 150) playing).kill_reason
unfolding ◌-ℤ◌
poll_tracker-Explains_example =
    poll_tracker-Explains small_budgets (pos 1200) (pos 150) playing refl (omega arith)
      (omega arith) (omega arith)

-- Frames that end with "--", of at most three bytes.
abbrev small_config : Config
small_config = record {
  sep = b'-' ∷ b'-' ∷ [];
  budget = 3;
  notice = b'!' ∷ [];
  cap = 8;
  live = true;
}

-- "ab--cdef--g", read in three parts; a separator is cut in two.
abbrev three_reads : List Text
three_reads =
    (b'a' ∷ b'b' ∷ b'-' ∷ [])
    ∷ (b'-' ∷ b'c' ∷ b'd' ∷ b'e' ∷ b'f' ∷ b'-' ∷ [])
    ∷ (b'-' ∷ b'g' ∷ [])
    ∷ []

stream_run :
    (stream small_config three_reads new_streamer).calls
    ≡ (0, b'a' ∷ b'b' ∷ []) ∷ (1, b'c' ∷ b'd' ∷ b'e' ∷ b'!' ∷ []) ∷ []
unfolding stream find
stream_run = refl

three_reads_clear :
    All (λ x. length x ≢ 3) (complete (split small_config.sep (flatten three_reads)))
unfolding split_from flatten
three_reads_clear = ((λ e. omega (arith, e)), ((λ e. omega (arith, e)), tt))

stream-frames_example :
    (stream small_config three_reads new_streamer).calls
    ≡ numbered 0 (
        map
          (cap_chunk small_config.budget small_config.notice)
          (complete (split small_config.sep (flatten three_reads))))
stream-frames_example = stream-frames small_config (omega arith) three_reads refl three_reads_clear

stream-full_log_example :
    ((stream small_config three_reads new_streamer).full_log
      ≡ take small_config.cap (flatten three_reads))
    × ((stream small_config three_reads new_streamer).full_truncated
        ≡ ltb small_config.cap (length (flatten three_reads)))
stream-full_log_example = stream-full_log small_config three_reads

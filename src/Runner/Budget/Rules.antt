-- ===== src/Runner/Budget/Rules.antt =====
-- services/runner/runner/agent_container_manager.py: rules 1 and 2 of the poll loop.
use snake_arena.Prelude.{◌≡◌, ◌⊎◌, true, Option, none, some, arith}
use snake_arena.Prelude.Int.{ℤ, pos, ◌-ℤ◌, ◌*ℤ◌, ◌≤ℤ◌, ◌<ℤ◌}
use snake_arena.Runner.Budget.Data.{Tracker, Budgets, KillReason, per_step, wall_clock}
use snake_arena.Runner.Budget.Cycle.{poll_tracker}

module _ (b : Budgets) (now current : ℤ) (t : Tracker) where
  -- The CPU and the wall time of the step so far.
  abbrev cpu_in_step : ℤ
  cpu_in_step = current -ℤ t.step_start_cpu

  abbrev wall_in_step : ℤ
  wall_in_step = now -ℤ t.step_start_wall

  -- The busy test leaves no gap between the two rules: a step over both budgets is killed.
  pub poll_tracker-over :
      pos 0 <ℤ t.step_start_wall
      → pos 0 ≤ℤ current
      → b.per_step_cpu <ℤ cpu_in_step
      → b.per_step_wall <ℤ wall_in_step
      → (poll_tracker b now current t).killed ≡ true
  unfolding poll_tracker
  poll_tracker-over started seen cpu wall = grind arith

  -- A step within both budgets is left alone.
  pub poll_tracker-within :
      pos 0 <ℤ t.step_start_wall
      → cpu_in_step ≤ℤ b.per_step_cpu
      → wall_in_step ≤ℤ b.per_step_wall
      → poll_tracker b now current t ≡ t
  unfolding poll_tracker
  poll_tracker-within started cpu wall = grind arith

  -- What each kill reason says of the step that it was given for.
  abbrev pub Explains : Option KillReason → Type 0
  Explains none = (cpu_in_step ≤ℤ b.per_step_cpu) ⊎ ((2 *ℤ cpu_in_step) <ℤ wall_in_step)
  Explains (some per_step) = (b.per_step_cpu <ℤ cpu_in_step) × (wall_in_step ≤ℤ (2 *ℤ cpu_in_step))
  Explains (some wall_clock) =
      (b.per_step_wall <ℤ wall_in_step) × ((2 *ℤ cpu_in_step) <ℤ wall_in_step)
  Explains (some r) = ⊥

  -- A poll round gives a live seat only these reasons: `per_step` to one that is over the CPU
  -- budget and has been on the CPU for at least half of the wall time, `wall_clock` to one that is
  -- over the wall budget and has not. A seat that it spares is within the CPU budget or was mostly
  -- idle.
  pub poll_tracker-Explains :
      t.kill_reason ≡ none
      → pos 0 <ℤ t.step_start_wall
      → pos 0 <ℤ wall_in_step
      → pos 0 ≤ℤ current
      → Explains (poll_tracker b now current t).kill_reason
  unfolding poll_tracker
  poll_tracker-Explains live started long seen = grind arith

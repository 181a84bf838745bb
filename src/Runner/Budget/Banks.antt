-- ===== src/Runner/Budget/Banks.antt =====
-- services/runner/runner/agent_container_manager.py: the two banks of a tracker over its cycles.
use snake_arena.Prelude.{ℕ, ◌≡◌, Bool, true, false, Option, arith, if◌then◌else◌}
use snake_arena.Prelude.Int.{ℤ, pos, ◌+ℤ◌, ◌*ℤ◌, ◌≤ℤ◌, int_laws}
use snake_arena.Runner.Budget.Data.{Tracker, Budgets}
use snake_arena.Runner.Budget.Cycle.{
  is_busy, charged, held, cpu_delta, settle_cpu, settle_wall, close_cycle, step_tracker,
}

-- The CPU that a cycle debits from the CPU bank, and whether the cycle refills it.
abbrev pub debit : ℤ → ℤ → ℤ
debit delta wall = let used = charged delta wall in if is_busy used wall then used else pos 0

abbrev pub refills : ℤ → ℤ → ℕ
refills delta wall = if is_busy (charged delta wall) wall then 1 else 0

module _ (b : Budgets) (delta wall : ℤ) (t : Tracker) where
  -- The CPU bank after a cycle that the seat survives: not below 0 nor above the cap, and what was
  -- debited came out of the old bank and the refill.
  settle_cpu-bank :
      (settle_cpu b delta wall t).killed ≡ false
      → pos 0 ≤ℤ t.cpu_bank
      → t.cpu_bank ≤ℤ b.cpu_max
      → (pos 0 ≤ℤ (settle_cpu b delta wall t).cpu_bank)
        × ((settle_cpu b delta wall t).cpu_bank ≤ℤ b.cpu_max)
        × ((settle_cpu b delta wall t).cpu_bank +ℤ debit delta wall
            ≤ℤ t.cpu_bank +ℤ (refills delta wall *ℤ b.cpu_refill))
  unfolding settle_cpu
  settle_cpu-bank live low high = grind int_laws

  settle_wall-cpu_bank : (settle_wall b delta wall t).cpu_bank ≡ t.cpu_bank
  unfolding settle_wall
  settle_wall-cpu_bank = ground arith

  settle_wall-bank :
      (settle_wall b delta wall t).killed ≡ false
      → (pos 0 ≤ℤ (settle_wall b delta wall t).wall_bank)
        × ((settle_wall b delta wall t).wall_bank ≤ℤ b.wall_max)
  unfolding settle_wall
  settle_wall-bank live = ground arith

  settle_cpu-killed : t.killed ≡ true → (settle_cpu b delta wall t).killed ≡ true
  unfolding settle_cpu
  settle_cpu-killed h = ground arith

  settle_wall-killed : t.killed ≡ true → (settle_wall b delta wall t).killed ≡ true
  unfolding settle_wall
  settle_wall-killed h = ground arith

-- What one cycle of a seat is given.
pub record Cycle : Type 0 where
  pub wall : ℤ
  pub now : ℤ
  pub step : ℤ
  pub alive : Option Bool
  pub reading : ℤ

abbrev pub one_cycle : Budgets → Cycle → Tracker → Tracker
one_cycle b c t = step_tracker b c.wall c.now c.step c.alive c.reading t

-- Both banks lie between 0 and their caps.
pub record IsFunded (b : Budgets) (t : Tracker) : Type 0 where
  pub cpu_low : pos 0 ≤ℤ t.cpu_bank
  pub cpu_high : t.cpu_bank ≤ℤ b.cpu_max
  pub wall_low : pos 0 ≤ℤ t.wall_bank
  pub wall_high : t.wall_bank ≤ℤ b.wall_max

module _ (b : Budgets) (c : Cycle) (t : Tracker) where
  abbrev pub cycle_debit : ℤ
  cycle_debit = debit (cpu_delta c.reading t) c.wall

  abbrev pub cycle_refills : ℕ
  cycle_refills = refills (cpu_delta c.reading t) c.wall

  -- A seat that survives a cycle has paid for it out of its CPU bank and the refill.
  pub step_tracker-bank :
      (one_cycle b c t).killed ≡ false
      → pos 0 ≤ℤ t.cpu_bank
      → t.cpu_bank ≤ℤ b.cpu_max
      → IsFunded b (one_cycle b c t)
        × ((one_cycle b c t).cpu_bank +ℤ cycle_debit
            ≤ℤ t.cpu_bank +ℤ (cycle_refills *ℤ b.cpu_refill))
  unfolding step_tracker close_cycle
  step_tracker-bank live low high =
      let d = cpu_delta c.reading t in
      let t0 : Tracker = record t { last_cpu = held c.reading t } in
      ground (
        arith,
        settle_cpu-bank b d c.wall t0,
        settle_wall-cpu_bank b d c.wall (settle_cpu b d c.wall t0),
        settle_wall-bank b d c.wall (settle_cpu b d c.wall t0),
      )

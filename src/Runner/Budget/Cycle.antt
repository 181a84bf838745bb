-- ===== src/Runner/Budget/Cycle.antt =====
-- services/runner/runner/agent_container_manager.py: what one event does to one seat's tracker. The
-- bodies of the loops of `notify_step` and `_poll_loop`, and the registration in `notify_start`.
use Prim.Native.String.{String}
use snake_arena.Prelude.{ℕ, Bool, true, false, ◌&&◌, not, Option, none, some, if◌then◌else◌}
use snake_arena.Prelude.Int.{ℤ, pos, negsuc, ◌+ℤ◌, ◌-ℤ◌, ◌*ℤ◌, ltb_ℤ, leb_ℤ, max_ℤ, min_ℤ}
use snake_arena.Runner.Budget.Data.{
  Tracker, Budgets, KillReason, per_step, sustained, wall_clock, sustained_wall, dead,
}

-- `tracker.killed = True; tracker.kill_reason = reason`
abbrev pub mark_killed : KillReason → Tracker → Tracker
mark_killed r t = record t { killed = true; kill_reason = some r }

-- What a decision does to its seat.
abbrev pub answered : ℤ → Tracker → Tracker
answered wall_time t = record t { responded = true; response_wall = wall_time }

-- `used / wall >= 0.5`, by whole numbers; 0.0 where the wall is not positive.
unfoldable pub is_busy : ℤ → ℤ → Bool
is_busy used wall = ltb_ℤ (pos 0) wall && leb_ℤ wall (2 *ℤ used)

-- `int(data.total_time * 1e9) if data.total_time > 0 else 0`
abbrev pub wall_step_ns : ℤ → ℤ
wall_step_ns total = max_ℤ (pos 0) total

-- `cpu_delta_for_bank`
unfoldable pub charged : ℤ → ℤ → ℤ
charged delta wall = if ltb_ℤ (pos 0) wall then min_ℤ delta wall else pos 0

-- What is left of a bank below its cap: `bank += refill - debit`, then the cap.
abbrev pub next_bank : ℤ → ℤ → ℤ → ℤ → ℤ
next_bank bank refill debit cap = min_ℤ (bank +ℤ (refill -ℤ debit)) cap

-- Rule 3, the sustained CPU bank.
unfoldable pub settle_cpu : Budgets → ℤ → ℤ → Tracker → Tracker
unfolding is_busy charged
settle_cpu b delta wall t =
    let used = charged delta wall in
    let bank = next_bank t.cpu_bank b.cpu_refill used b.cpu_max in
    if is_busy used wall
    then (if ltb_ℤ bank (pos 0)
        then mark_killed sustained (record t { cpu_bank = bank })
        else record t { cpu_bank = bank })
    else t

-- `tracker.response_wall_ns or wall_step_ns`
abbrev pub response_or : ℤ → ℤ → ℤ
response_or (pos ℕ.zero) wall = wall
response_or r wall = r

-- Rule 4, the sustained wall bank.
unfoldable pub settle_wall : Budgets → ℤ → ℤ → Tracker → Tracker
settle_wall b delta wall t =
    let excess = max_ℤ (pos 0) (response_or t.response_wall wall -ℤ (3 *ℤ delta)) in
    let bank = next_bank t.wall_bank b.wall_refill excess b.wall_max in
    if ltb_ℤ bank (pos 0)
    then mark_killed sustained_wall (record t { wall_bank = bank })
    else record t { wall_bank = bank }

-- The reset for the next cycle, and rule 5, the snake's death. `alive` is what the step says of the
-- seat's snake; `none` is a seat that no snake is known for.
unfoldable pub close_cycle : ℤ → ℤ → Option Bool → Tracker → Tracker
close_cycle now current alive t =
    let t' : Tracker = record t {
      step_start_wall = now;
      step_start_cpu = current;
      responded = false;
      response_wall = pos 0;
    } in
    elim alive [ none ↦ t' | some lives ↦ if lives then t' else mark_killed dead t' ]

-- The CPU that a cycle is measured at; a reading below 0 holds the last one.
abbrev pub held : ℤ → Tracker → ℤ
held reading t = if ltb_ℤ reading (pos 0) then t.last_cpu else reading

-- `cpu_delta`
abbrev pub cpu_delta : ℤ → Tracker → ℤ
cpu_delta reading t = max_ℤ (pos 0) (held reading t -ℤ t.last_cpu)

-- The body of the loop of `notify_step` for a seat that is not killed; `continue` after a kill.
unfoldable pub step_tracker : Budgets → ℤ → ℤ → ℤ → Option Bool → ℤ → Tracker → Tracker
unfolding settle_cpu settle_wall close_cycle
step_tracker b wall now step alive reading t =
    let current = held reading t in
    let delta = cpu_delta reading t in
    let t1 = settle_cpu b delta wall (record t { last_cpu = current }) in
    let t2 = settle_wall b delta wall t1 in
    if t1.killed
    then t1
    else if t2.killed
    then t2
    else close_cycle now current alive (record t2 { last_step_seen = step })

-- The body of the loop of `_poll_loop` for a seat that is neither killed, nor in startup, nor has
-- responded: rules 1 and 2.
unfoldable pub poll_tracker : Budgets → ℤ → ℤ → Tracker → Tracker
unfolding is_busy
poll_tracker b now current t =
    let cpu_in_step = current -ℤ t.step_start_cpu in
    let wall_in_step : ℤ = elim t.step_start_wall [
      | pos ℕ.zero ↦ pos 0
      | _ ↦ now -ℤ t.step_start_wall
    ] in
    let busy = is_busy cpu_in_step wall_in_step in
    if ltb_ℤ current (pos 0)
    then t
    else if ltb_ℤ b.per_step_cpu cpu_in_step && busy
    then mark_killed per_step t
    else if ltb_ℤ b.per_step_wall wall_in_step && not busy
    then mark_killed wall_clock t
    else t

-- The registration of a seat that passed the startup check.
abbrev pub register : Budgets → ℤ → String → Tracker → Tracker
register b now tag t = record t {
  name = tag;
  step_start_wall = now;
  step_start_cpu = t.last_cpu;
  cpu_bank = b.cpu_initial;
  wall_bank = b.wall_initial;
  responded = false;
  response_wall = pos 0;
  last_step_seen = negsuc 0;
  in_startup = false;
}

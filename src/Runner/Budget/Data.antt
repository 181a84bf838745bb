-- ===== src/Runner/Budget/Data.antt =====
-- services/runner/runner/agent_container_manager.py: the state of `AgentContainerManager`.
-- Times are whole nanoseconds, as the class keeps them; what it divides for display (ms, s) is
-- kept undivided. Containers are their identities; tags are the gRPC target strings.
use Prim.Native.String.{String}
use snake_arena.Prelude.{ℕ, Bool, true, false, Option, none, List, []}
use snake_arena.Prelude.Int.{ℤ, pos, negsuc}
use snake_arena.Prelude.Dict.{Dict}

pub data KillReason : Type 0 where
  startup_cpu per_step sustained wall_clock sustained_wall init_failure dead : KillReason

-- `_AgentTracker`
pub record Tracker : Type 0 where
  pub container : ℕ
  pub name : String
  pub last_cpu : ℤ
  pub step_start_wall : ℤ
  pub step_start_cpu : ℤ
  pub cpu_bank : ℤ
  pub wall_bank : ℤ
  pub responded : Bool
  pub response_wall : ℤ
  pub last_step_seen : ℤ
  pub in_startup : Bool
  pub killed : Bool
  pub kill_reason : Option KillReason

-- `_AgentTracker(container=…, name=…, last_cpu_ns=…)`: the other fields have their defaults.
abbrev pub new_tracker : ℕ → String → ℤ → Tracker
new_tracker c tag baseline = record {
  container = c;
  name = tag;
  last_cpu = baseline;
  step_start_wall = pos 0;
  step_start_cpu = pos 0;
  cpu_bank = pos 0;
  wall_bank = pos 0;
  responded = false;
  response_wall = pos 0;
  last_step_seen = negsuc 0;
  in_startup = true;
  killed = false;
  kill_reason = none;
}

-- The budgets that `__init__` derives from its arguments.
pub record Budgets : Type 0 where
  pub per_step_cpu : ℤ
  pub per_step_wall : ℤ
  pub startup_cpu_budget : ℤ
  pub cpu_refill : ℤ
  pub cpu_initial : ℤ
  pub cpu_max : ℤ
  pub wall_refill : ℤ
  pub wall_initial : ℤ
  pub wall_max : ℤ

-- `AgentContainerManager`. `kills` lists the containers whose `kill()` was called, the last first;
-- `polling` says that the poll thread is alive.
pub record Manager : Type 0 where
  pub trackers : Dict ℕ Tracker
  pub exec_times : Dict ℕ (List ℤ)
  pub wall_step_times : Dict ℕ (List ℤ)
  pub seat_to_container : Dict ℕ ℕ
  pub target_by_seat : Dict ℕ String
  pub seat_by_target : Dict String ℕ
  pub snake_id_by_seat : Dict ℕ ℕ
  pub seat_by_snake_id : Dict ℕ ℕ
  pub kills : List ℕ
  pub polling : Bool

-- The manager that `__init__` leaves.
abbrev pub new_manager : Manager
new_manager = record {
  trackers = [];
  exec_times = [];
  wall_step_times = [];
  seat_to_container = [];
  target_by_seat = [];
  seat_by_target = [];
  snake_id_by_seat = [];
  seat_by_snake_id = [];
  kills = [];
  polling = false;
}

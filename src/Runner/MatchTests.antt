-- ===== src/Runner/MatchTests.antt =====
-- services/runner/runner/match.py: runs of a match against a docker that answers.
use snake_arena.Prelude.{
  ℕ, suc, ◌+◌, ◌*◌, ◌≤◌, length, ◌≡◌, ◌≢◌, refl, arith, Bool, true, false, Option, none, some, List,
  [], ◌∷◌, ◌++◌, All, nat_key, ◌==◌, if◌then◌else◌,
}
use snake_arena.Prelude.Int.{pos}
use snake_arena.Prelude.Result.{ok, err}
use snake_arena.Types.{Text}
use snake_arena.Runner.Budget.Data.{new_manager, Budgets}
use snake_arena.Runner.Match.Docker.{
  Error, other, api_error, run_container, start_observable, running, pending, Container, Call,
  Event, new_run, Daemon,
}
use snake_arena.Runner.Match.Resources.{container, not_handed_in, removed_in}
use snake_arena.Runner.Match.Router.{container_router}
use snake_arena.Runner.Match.Ready.{wait_for_agents_ready, read_probe}
use snake_arena.Runner.Match.Ready.Ends.{earliest, readings, wait_for_agents_ready-Ends}
use snake_arena.Runner.Match.Ready.Probe.{probe_line, read_probe-probe_line}
use snake_arena.Runner.Match.Args.{Match, codes}
use snake_arena.Runner.Match.Parts.{Outside}
use snake_arena.Runner.Match.Play.{run_match}
use snake_arena.Runner.Match.Sweep.{Listed, sweep_orphan_resources}
use snake_arena.Runner.Match.Sweep.Live.{IsLeftover, sweep_orphan_resources-IsLeftover}
use snake_arena.Runner.Match.Play.Reported.{IsReported, run_match-IsReported}

abbrev count_events : List Event → ℕ
count_events [] = 0
count_events (e ∷ es) = suc (count_events es)

-- A docker that does what it is asked, with a clock that only the sleeps move; a call raises where
-- `fails` says so.
abbrev docker : (Call → Option Error) → Daemon
docker fails es c = record {
  error = fails c;
  id = count_events es;
  status = running;
  exit_code = 0;
  output = codes "NOT_READY " ++ 10 ∷ [];
  time = earliest es;
}

abbrev sound : Call → Option Error
sound c = none

abbrev no_budget : Budgets
no_budget = record {
  per_step_cpu = pos 50;
  per_step_wall = pos 50;
  startup_cpu_budget = pos 50;
  cpu_refill = pos 50;
  cpu_initial = pos 50;
  cpu_max = pos 50;
  wall_refill = pos 50;
  wall_initial = pos 50;
  wall_max = pos 50;
}

abbrev outside : Outside
outside = record {
  str = λ n. n ∷ [];
  full_log = λ es i. [];
  manager = λ es. new_manager;
  banners = record { notice = []; earlier = []; failed = []; wording = λ n. codes "killed" };
  errors = λ e. codes "failed";
}

abbrev duel : Match
duel = record {
  sim_image = codes "sim";
  agents =
      record { image = codes "a"; name = codes "x" }
      ∷ record { image = codes "b"; name = codes "y" }
      ∷ [];
  sim_args = [];
  router = container_router 0;
  match_id = codes "m";
  budgets = no_budget;
  mem_limit = codes "512m";
  nano_cpus = 1_000_000_000;
  pids_limit = 128;
  grpc_ready_timeout = 10;
  reports = true;
  end_on_last_standing_when_longest = true;
  end_on_last_standing_buffer_steps = some 5;
  end_when_dead_buffer_steps = 0;
  dev_seat = none;
}

abbrev succeeded : Bool
succeeded = elim (run_match (docker sound) outside duel new_run).0 [
  | ok r ↦ r.success
  | err e ↦ false
]

duel_succeeds : succeeded ≡ true
unfolding run_match earliest
duel_succeeds = refl

-- The observer of the simulation cannot be started.
abbrev broken : Call → Option Error
broken start_observable = some other
broken _ = none

-- The second agent's container cannot be started: it was created, and nothing removes it.
abbrev is_second : List Event → Call → Bool
is_second es (run_container a) = 4 == count_events es
is_second es _ = false

abbrev unstartable : Daemon
unstartable es c = docker (λ call. if is_second es call then some api_error else none) es c

second_left :
    let es = (run_match unstartable outside duel new_run).1.events in
    (not_handed_in (container 4) es ≡ true) × (removed_in (container 4) es ≡ false)
unfolding run_match not_handed_in removed_in earliest
second_left = (refl, refl)

-- A docker that never gets a container to run.
abbrev slow : Daemon
slow es c = record (docker sound es c) { status = pending }

abbrev two_agents : List Container
two_agents = record { id = 1; name = codes "x" } ∷ record { id = 2; name = codes "y" } ∷ []

wait_for_agents_ready-Ends_example :
    let r = wait_for_agents_ready slow two_agents 3 new_run in
    (r.0 ≢ ok none)
    × (readings r.1.events ≤ readings new_run.events + 10 * 3 + length two_agents + 1)
wait_for_agents_ready-Ends_example =
    wait_for_agents_ready-Ends slow (λ es. omega arith) two_agents 3 new_run

abbrev silent : List Text
silent = codes "x:50051" ∷ codes "y:50051" ∷ []

read_probe-probe_line_example : read_probe (probe_line silent) ≡ some silent
read_probe-probe_line_example = read_probe-probe_line silent (
  ((λ h. cc), (refl, (refl, (refl, (refl, (refl, (refl, (refl, tt)))))))),
  (((λ h. cc), (refl, (refl, (refl, (refl, (refl, (refl, (refl, tt)))))))), tt),
)

-- One container of a runner that is there, one of a runner that is gone.
abbrev peers : List Text
peers = codes "0123456789abcdef" ∷ codes "match-container" ∷ []

abbrev labelled : List Listed
labelled =
    record { id = codes "a"; owner = some (codes "0123456789ab") }
    ∷ record { id = codes "b"; owner = some (codes "fedcba987654") }
    ∷ []

sweep_orphan_resources-IsLeftover_example :
    let r = sweep_orphan_resources (λ i. none) peers labelled [] in
    All (IsLeftover peers) r.0.asked × All (IsLeftover peers) r.1.asked
sweep_orphan_resources-IsLeftover_example =
    sweep_orphan_resources-IsLeftover (λ i. none) peers labelled []

run_match-IsReported_example :
    let r = run_match (docker sound) outside duel new_run in IsReported r.0 r.1
run_match-IsReported_example = run_match-IsReported (docker sound) outside duel refl

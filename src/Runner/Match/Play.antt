-- ===== src/Runner/Match/Play.antt =====
-- services/runner/runner/match.py: `run_match`. What the streamers keep, what the events of the simulation
-- make of the manager, and the decimal texts are given. The runner's own log is left out.
pub mod Quiet
pub mod Tracked
pub mod Steps
pub mod Swept
pub mod Reported
use snake_arena.Prelude.{
  ℕ, zero, suc, Bool, true, false, Option, none, some, List, [], ◌∷◌, ◌++◌, nat_key, ◌==◌, length,
  take, if◌then◌else◌,
}
use snake_arena.Prelude.Int.{ℤ, pos, negsuc}
use snake_arena.Prelude.Dict.{Dict, lookup, insert}
use snake_arena.Prelude.Result.{ok, err}
use snake_arena.Types.{Text, text_key}
use snake_arena.Runner.Budget.Data.{KillReason, Manager}
use snake_arena.Runner.Budget.Setup.{get_kill_reason, get_init_failed_seats}
use snake_arena.Runner.Match.Docker.{
  Error, other, stuck, is_api_error, is_exception, Container, Network, AgentOptions, Call,
  create_network, run_container, create_container, connect, start, reload, wait, kill, read_logs,
  start_streamer, set_agent_containers, new_observable, add_observers, start_observable, on_result,
  Reply, Event, Run, Daemon, M, return, raise, try, finally, ◌>>=◌, ◌>>◌, perform, do_call, attempt,
  for_each,
}
use snake_arena.Runner.Match.Router.{attach, address_for}
use snake_arena.Runner.Match.Cleanup.{cleanup}
use snake_arena.Runner.Match.Ready.{wait_for_grpc_ready, wait_for_agents_ready}
use snake_arena.Runner.Match.Console.{
  Note, Banners, budget_kill_note, with_note, collect_agent_logs, dev_logs_of,
}
use snake_arena.Runner.Match.Args.{
  AgentSpec, Match, codes, named, target_of, targets_of, full_sim_args,
}
use snake_arena.Runner.Match.Parts.{
  Outcome, Failure, no_image, not_running, exited_early, not_listening, Outside, failed_result, get,
  push_network, push_agent, push_streamer, set_sim, set_observable, is_image_not_found, is_over,
  all_but_last, seats_from, unless_empty, names_of, reasons_from, steps_seen,
}

module _ (d : Daemon) (o : Outside) (m : Match) where
  -- `networks.append(d_client.networks.create(…))`
  unfoldable pub create_net : Text → Bool → M Network
  unfolding ◌>>=◌ return perform push_network
  create_net name internal = do
    r ← perform d (create_network name internal)
    let net : Network = record { id = r.id; name = name }
    push_network net
    return net

  abbrev pub agent_network : AgentSpec → M (Unit {0})
  agent_network a = create_net (named m a.name) true >> return tt

  abbrev pub options_of : AgentSpec → Network → AgentOptions
  options_of a net = record {
    image = a.image;
    name = named m a.name;
    network = net.name;
    hostname = a.name;
    mem_limit = m.mem_limit;
    memswap_limit = m.mem_limit;
    nano_cpus = m.nano_cpus;
    pids_limit = m.pids_limit;
  }

  -- The `try` of one agent.
  unfoldable pub start_agent : AgentSpec → Network → M Bool
  unfolding ◌>>=◌ return perform push_agent do_call push_streamer
  start_agent a net = do
    r ← perform d (run_container (options_of a net))
    let c : Container = record { id = r.id; name = named m a.name }
    push_agent c
    do_call d (start_streamer c.id)
    push_streamer c
    return true

  -- The loop over `zip(agents, networks)`: the image that there is none of.
  unfoldable pub start_agents : List AgentSpec → List Network → M (Option Text)
  unfolding ◌>>=◌ return try start_agent
  start_agents [] nets = return none
  start_agents (a ∷ rest) [] = return none
  start_agents (a ∷ rest) (net ∷ nets) = do
    started ← try (start_agent a net) is_image_not_found (λ e. return false)
    if started then start_agents rest nets else return (some a.image)

  -- The check again of every agent; false where one is gone or over.
  unfoldable pub still_up : List Container → M Bool
  unfolding ◌>>=◌ return try perform
  still_up [] = return true
  still_up (c ∷ cs) = do
    up ←
        try (perform d (reload c.id) >>= λ r. return (if is_over r.status then false else true))
          is_api_error (λ e. return false)
    if up then still_up cs else return false

  -- `_finish`
  unfoldable pub finish : Outcome → M Outcome
  unfolding ◌>>=◌ return try do_call
  finish result =
      if m.reports
      then (try (do_call d on_result) is_exception (λ e. return tt) >> return result)
      else return result

  -- `_init_failure`
  unfoldable pub init_failure : Failure → Option (List ℕ) → M Outcome
  unfolding ◌>>=◌ get collect_agent_logs finish
  init_failure e seats = do
    s ← get
    logs ← collect_agent_logs d o.full_log o.banners s.streamed s.agents []
    finish record (failed_result e o.errors) {
      agent_logs = some logs;
      dev_agent_step_logs = dev_logs_of d o.full_log o.banners s.agents logs;
      init_failed_seats = seats;
    }

  -- The console with the note on a kill of the dev agent.
  unfoldable pub console : Manager → List Container → Option (List Text) → Option (List Text)
  unfolding budget_kill_note get_kill_reason with_note
  console manager [] logs = logs
  console manager (c ∷ cs) logs = elim m.dev_seat [
    | none ↦ logs
    | some seat ↦ elim (budget_kill_note (get_kill_reason seat manager) m.budgets) [
      | none ↦ logs
      | some note ↦ some (with_note (o.banners.wording note) (steps_seen seat manager) logs)
    ]
  ]

  -- The results of a match that was played, whose simulation ended with a code.
  abbrev pub played : ℤ → Text → Dict Text Text → List Event → List Container → Outcome
  played exit_code sim_logs logs events agents =
      let manager = o.manager events in
      record {
        success = elim exit_code [ pos n ↦ n == 0 | negsuc n ↦ false ];
        error = none;
        sim_logs = sim_logs;
        agent_logs = some logs;
        tags_to_names = some (names_of m.agents []);
        dev_agent_step_logs =
            console manager agents (dev_logs_of d o.full_log o.banners agents logs);
        exec_times = some manager.exec_times;
        wall_step_times = some manager.wall_step_times;
        kill_reasons = some (reasons_from manager 0 m.agents);
        init_failed_seats = unless_empty (get_init_failed_seats manager);
        seat_by_snake_id = unless_empty manager.seat_by_snake_id;
      }

  -- `sim_container.wait()` with its handler; -1 where it raised.
  unfoldable pub wait_sim : ℕ → M ℤ
  unfolding ◌>>=◌ return try perform attempt
  wait_sim sim =
      try (perform d (wait sim) >>= λ r. return (pos r.exit_code)) is_exception
        (λ e. attempt d (kill sim) >> return (negsuc 0))

  -- From the start of the simulation to the result.
  unfoldable pub run_sim : ℕ → M Outcome
  unfolding ◌>>=◌ do_call wait_sim perform get collect_agent_logs finish
  run_sim sim = do
    do_call d (start sim)
    exit_code ← wait_sim sim
    r ← perform d (read_logs sim)
    s ← get
    logs ← collect_agent_logs d o.full_log o.banners s.streamed s.agents []
    t ← get
    finish (played exit_code r.output logs t.events t.agents)

  abbrev pub or_raise : Option (List Text) → M (List Text)
  or_raise none = raise other
  or_raise (some args) = return args

  -- The observers, the simulation's network and the way to it: the network's name and the command line.
  unfoldable pub prepare_sim : M (Text × List Text)
  unfolding ◌>>=◌ return raise do_call perform create_net attach address_for set_observable
      full_sim_args
  prepare_sim = do
    do_call d set_agent_containers
    net ← create_net (named m (codes "sim")) false
    attach d m.router net
    port ← perform d new_observable
    set_observable
    address ← address_for d m.router net port.output
    args ← or_raise (full_sim_args o.str m address)
    do_call d add_observers
    do_call d start_observable
    return (net.name, args)

  unfoldable pub create_sim : Text × List Text → M ℕ
  unfolding ◌>>=◌ return perform set_sim
  create_sim (network, args) = do
    r ← perform d (create_container m.sim_image (named m (codes "sim")) network args)
    set_sim record { id = r.id; name = named m (codes "sim") }
    return r.id

  -- The simulation's container joins the agents' networks before it starts.
  unfoldable pub connect_sim : ℕ → M (Unit {0})
  unfolding ◌>>=◌ do_call get for_each
  connect_sim sim = do
    s ← get
    for_each (λ n. do_call d (connect n.id sim)) (all_but_last s.networks)

  abbrev pub play_sim : M Outcome
  play_sim = do made ← prepare_sim; sim ← create_sim made; connect_sim sim; run_sim sim

  abbrev pub after_probe : List Text → M Outcome
  after_probe [] = play_sim
  after_probe (f ∷ fs) = init_failure not_listening (some (seats_from 0 (targets_of m) (f ∷ fs)))

  -- The probe of the ports, and what follows.
  unfoldable pub probe_and_play : M Outcome
  unfolding ◌>>=◌ get wait_for_grpc_ready prepare_sim create_sim connect_sim run_sim init_failure
      seats_from
  probe_and_play = do
    s ← get
    failed ←
        wait_for_grpc_ready d m.sim_image (named m (codes "grpc-probe"))
          (o.str m.grpc_ready_timeout ++ codes ".0") (targets_of m)
          (take (length s.agents) s.networks)
    after_probe failed

  abbrev pub after_wait : Option Bool → M Outcome
  after_wait none = raise stuck
  after_wait (some false) = init_failure not_running none
  after_wait (some true) = do
    s ← get
    up ← still_up s.agents
    if up then probe_and_play else init_failure exited_early none

  abbrev pub after_start : Option Text → M Outcome
  after_start (some image) = finish (failed_result (no_image image) o.errors)
  after_start none = do
    s ← get
    ready ← wait_for_agents_ready d s.agents m.grpc_ready_timeout
    after_wait ready

  -- The body of the `try`.
  unfoldable pub play : M Outcome
  unfolding ◌>>=◌ return raise for_each create_net get start_agents wait_for_agents_ready still_up
      probe_and_play init_failure finish
  play = do
    for_each agent_network m.agents
    s ← get
    missing ← start_agents m.agents s.networks
    after_start missing

  -- `run_match`
  unfoldable pub run_match : M Outcome
  unfolding finally play cleanup
  run_match = finally play (cleanup d m.router)

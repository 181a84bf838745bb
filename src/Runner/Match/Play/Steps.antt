-- ===== src/Runner/Match/Play/Steps.antt =====
-- services/runner/runner/match.py: the steps of a match and a predicate that the quiet calls leave.
use snake_arena.Prelude.{ℕ, refl, Bool, true, false, Option, none, some, List, [], ◌∷◌}
use snake_arena.Types.{Text}
use snake_arena.Runner.Match.Docker.{
  Network, connect, start, set_agent_containers, new_observable, add_observers, start_observable,
  read_logs, on_result, is_exception, Reply, Run, Daemon, recorded,
}
use snake_arena.Runner.Match.Keeps.{
  Keeps, Keeps-bind, Keeps-try, Keeps-return, Keeps-if, Keeps-for_each, Keeps-perform,
  Keeps-do_call,
}
use snake_arena.Runner.Match.Resources.{Survives}
use snake_arena.Runner.Match.Args.{AgentSpec, Match, named, full_sim_args}
use snake_arena.Runner.Match.Parts.{
  Outcome, Failure, Outside, set_observable, is_image_not_found, all_but_last,
}
use snake_arena.Runner.Match.Play.{
  played, agent_network, create_net, start_agent, start_agents, finish, init_failure, prepare_sim,
  connect_sim, run_sim,
}
use snake_arena.Runner.Match.Play.Quiet

module _ {ℓ} (d : Daemon) (o : Outside) (m : Match) (P : Run → Type ℓ) (each : Survives P) where
  pub connect_sim-Keeps : (sim : ℕ) → Keeps P (connect_sim d o m sim)
  unfolding connect_sim
  connect_sim-Keeps sim = Keeps-bind P (Quiet.get-Keeps d P each) λ s.
      Keeps-for_each P (λ n. Keeps-do_call P d _ (each (connect n.id sim) refl))
        (all_but_last s.networks)

-- What every match does with a predicate that the quiet calls and the report of a result leave.
module _ {ℓ} (d : Daemon) (o : Outside) (m : Match) (P : Run → Type ℓ) (each : Survives P)
    (reported : (r : Reply) (s : Run) → P s → P (recorded on_result r s)) where
  pub finish-Keeps : (result : Outcome) → Keeps P (finish d o m result)
  unfolding finish
  finish-Keeps result =
      Keeps-if P m.reports
        (Keeps-bind P
          (Keeps-try P is_exception (Keeps-do_call P d _ reported) λ e. Keeps-return P tt)
          λ _. Keeps-return P result)
        (Keeps-return P result)

  pub init_failure-Keeps :
      (e : Failure) (seats : Option (List ℕ)) → Keeps P (init_failure d o m e seats)
  unfolding init_failure
  init_failure-Keeps e seats = Keeps-bind P (Quiet.get-Keeps d P each) λ s.
      Keeps-bind P
        (Quiet.collect_agent_logs-Keeps d P each o.full_log o.banners s.streamed s.agents [])
        λ logs. finish-Keeps _

  pub run_sim-Keeps : (sim : ℕ) → Keeps P (run_sim d o m sim)
  unfolding run_sim
  run_sim-Keeps sim = Keeps-bind P (Keeps-do_call P d _ (each (start sim) refl)) λ _.
      Keeps-bind P (Quiet.wait_sim-Keeps d P each o m sim) λ exit_code.
        Keeps-bind P (Keeps-perform P d _ (each (read_logs sim) refl)) λ r.
          Keeps-bind P (Quiet.get-Keeps d P each) λ s.
            Keeps-bind P
              (Quiet.collect_agent_logs-Keeps d P each o.full_log o.banners s.streamed s.agents [])
              λ logs.
                Keeps-bind P (Quiet.get-Keeps d P each)
                  λ t. finish-Keeps (played d o m exit_code r.output logs t.events t.agents)

-- The steps that create, where the predicate survives a network and an agent.
module _ {ℓ} (d : Daemon) (o : Outside) (m : Match) (P : Run → Type ℓ) (each : Survives P)
    (made_net : (name : Text) (internal : Bool) → Keeps P (create_net d o m name internal)) where
  pub agent_network-Keeps : (a : AgentSpec) → Keeps P (agent_network d o m a)
  agent_network-Keeps a = Keeps-bind P (made_net (named m a.name) true) λ _. Keeps-return P tt

  pub prepare_sim-Keeps : Keeps P set_observable → Keeps P (prepare_sim d o m)
  unfolding prepare_sim
  prepare_sim-Keeps observed =
      Keeps-bind P (Keeps-do_call P d _ (each set_agent_containers refl)) λ _.
        Keeps-bind P (made_net _ false) λ net.
          Keeps-bind P (Quiet.attach-Keeps d P each m.router net) λ _.
            Keeps-bind P (Keeps-perform P d _ (each new_observable refl)) λ port.
              Keeps-bind P (observed) λ _.
                Keeps-bind P (Quiet.address_for-Keeps d P each m.router net port.output) λ address.
                  Keeps-bind P (Quiet.or_raise-Keeps d P each o m (full_sim_args o.str m address))
                    λ args. Keeps-bind P (Keeps-do_call P d _ (each add_observers refl)) λ _.
                      Keeps-bind P (Keeps-do_call P d _ (each start_observable refl))
                        λ _. Keeps-return P (net.name, args)

  pub start_agents-Keeps :
      (started_agent : (a : AgentSpec) (net : Network) → Keeps P (start_agent d o m a net))
      (agents : List AgentSpec) (nets : List Network)
      → Keeps P (start_agents d o m agents nets)
  unfolding start_agents
  start_agents-Keeps started_agent [] nets = Keeps-return P none
  start_agents-Keeps started_agent (a ∷ rest) [] = Keeps-return P none
  start_agents-Keeps started_agent (a ∷ rest) (net ∷ nets) =
      Keeps-bind P (Keeps-try P is_image_not_found (started_agent a net) λ e. Keeps-return P false)
        λ started.
          Keeps-if P started (start_agents-Keeps started_agent rest nets)
            (Keeps-return P (some a.image))

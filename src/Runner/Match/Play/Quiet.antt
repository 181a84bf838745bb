-- ===== src/Runner/Match/Play/Quiet.antt =====
-- services/runner/runner/match.py: the parts of a match that make nothing and report no result.
use snake_arena.Prelude.{
  ℕ, zero, suc, refl, Bool, true, false, Option, none, some, List, [], ◌∷◌, ltb, if◌then◌else◌,
}
use snake_arena.Prelude.Int.{pos, negsuc}
use snake_arena.Prelude.Dict.{Dict, insert}
use snake_arena.Types.{Text, text_key}
use snake_arena.Runner.Match.Docker.{
  other, is_api_error, is_exception, Status, running, exited, dead, pending, Container, Network,
  create_container, remove, recorded, connect, start, reload, wait, kill, read_logs, resolve_host,
  get_container, clock, sleep, Reply, Event, Run, Daemon, M,
}
use snake_arena.Runner.Match.Keeps.{
  Keeps, Keeps-bind, Keeps-finally, Keeps-try, Keeps-return, Keeps-raise, Keeps-if, Keeps-perform,
  Keeps-do_call, Keeps-attempt,
}
use snake_arena.Runner.Match.Resources.{Survives}
use snake_arena.Runner.Match.Router.{
  Router, host_router, container_router, attach, get_docker_host_ip, address_for,
}
use snake_arena.Runner.Match.Ready.{
  create_probe, probe_or, probe_targets, wait_for_grpc_ready, connect_all, or_all, read_probe,
  probe_output, run_probe, on_status, wait_running, on_wait, wait_all, rounds,
  wait_for_agents_ready,
}
use snake_arena.Runner.Match.Console.{Banners, is_streamed, log_of, collect_agent_logs}
use snake_arena.Runner.Match.Args.{Match}
use snake_arena.Runner.Match.Parts.{Outside, is_over, get}
use snake_arena.Runner.Match.Play.{still_up, wait_sim, or_raise}

module _ {ℓ} (d : Daemon) (P : Run → Type ℓ) (each : Survives P) where
  pub get-Keeps : Keeps P get
  unfolding get
  get-Keeps = record { keep = λ s p. p }

  on_status-Keeps :
      (st : Status) (again : M (Option Bool)) → Keeps P again → Keeps P (on_status d st again)
  unfolding on_status
  on_status-Keeps running again h = Keeps-return P (some true)
  on_status-Keeps exited again h = Keeps-return P (some false)
  on_status-Keeps dead again h = Keeps-return P (some false)
  on_status-Keeps pending again h = Keeps-bind P (Keeps-do_call P d _ (each sleep refl)) λ _. h

  wait_running-Keeps :
      (deadline : ℕ) (c : Container) (fuel : ℕ) → Keeps P (wait_running d deadline c fuel)
  unfolding wait_running
  wait_running-Keeps deadline c zero = Keeps-return P none
  wait_running-Keeps deadline c (suc fuel) =
      Keeps-bind P (Keeps-perform P d _ (each clock refl)) λ now.
        Keeps-if P (ltb now.time deadline)
          (Keeps-bind P (Keeps-perform P d _ (each (reload c.id) refl))
            λ r. on_status-Keeps r.status _ (wait_running-Keeps deadline c fuel))
          (Keeps-return P (some false))

  on_wait-Keeps :
      (r : Option Bool) (next : M (Option Bool)) → Keeps P next → Keeps P (on_wait d r next)
  on_wait-Keeps (some true) next h = h
  on_wait-Keeps (some false) next h = Keeps-return P (some false)
  on_wait-Keeps none next h = Keeps-return P none

  wait_all-Keeps : (fuel deadline : ℕ) (cs : List Container) → Keeps P (wait_all d fuel deadline cs)
  unfolding wait_all
  wait_all-Keeps fuel deadline [] = Keeps-return P (some true)
  wait_all-Keeps fuel deadline (c ∷ cs) =
      Keeps-bind P (wait_running-Keeps deadline c fuel)
        λ r. on_wait-Keeps r _ (wait_all-Keeps fuel deadline cs)

  pub wait_for_agents_ready-Keeps :
      (cs : List Container) (timeout : ℕ) → Keeps P (wait_for_agents_ready d cs timeout)
  unfolding wait_for_agents_ready
  wait_for_agents_ready-Keeps cs timeout =
      Keeps-bind P (Keeps-perform P d _ (each clock refl))
        λ now. wait_all-Keeps (rounds timeout) _ cs

  pub connect_all-Keeps : (probe : ℕ) (nets : List Network) → Keeps P (connect_all d probe nets)
  unfolding connect_all
  connect_all-Keeps probe [] = Keeps-return P true
  connect_all-Keeps probe (net ∷ nets) =
      Keeps-bind P
        (Keeps-try P is_api_error
          (Keeps-bind P (Keeps-do_call P d _ (each (connect net.id probe) refl))
            λ _. Keeps-return P true)
          λ e. Keeps-return P false)
        λ connected. Keeps-if P connected (connect_all-Keeps probe nets) (Keeps-return P false)

  probe_output-Keeps : (probe : ℕ) → Keeps P (probe_output d probe)
  unfolding probe_output
  probe_output-Keeps probe =
      Keeps-try P is_exception
        (Keeps-bind P (Keeps-perform P d _ (each (read_logs probe) refl))
          λ r. Keeps-return P r.output)
        λ e. Keeps-return P []

  pub run_probe-Keeps : (probe : ℕ) (targets : List Text) → Keeps P (run_probe d probe targets)
  unfolding run_probe
  run_probe-Keeps probe targets = Keeps-bind P (Keeps-do_call P d _ (each (start probe) refl)) λ _.
      Keeps-bind P
        (Keeps-try P is_exception
          (Keeps-bind P (Keeps-do_call P d _ (each (wait probe) refl)) λ _. Keeps-return P true)
          λ e. Keeps-return P false)
        λ ended.
          Keeps-if P ended
            (Keeps-bind P (probe_output-Keeps probe)
              λ stdout. Keeps-return P (or_all d targets (read_probe stdout)))
            (Keeps-return P targets)

  pub attach-Keeps : (router : Router) (n : Network) → Keeps P (attach d router n)
  unfolding attach
  attach-Keeps host_router n = Keeps-return P tt
  attach-Keeps (container_router own) n = Keeps-do_call P d _ (each (connect n.id own) refl)

  get_docker_host_ip-Keeps : Keeps P (get_docker_host_ip d)
  unfolding get_docker_host_ip
  get_docker_host_ip-Keeps =
      Keeps-try P _
        (Keeps-bind P (Keeps-perform P d _ (each resolve_host refl)) λ r. Keeps-return P r.output)
        λ e. Keeps-return P _

  pub address_for-Keeps :
      (router : Router) (n : Network) (port : Text) → Keeps P (address_for d router n port)
  unfolding address_for
  address_for-Keeps host_router n port =
      Keeps-bind P get_docker_host_ip-Keeps λ ip. Keeps-return P _
  address_for-Keeps (container_router own) n port =
      Keeps-bind P (Keeps-perform P d _ (each (get_container own) refl))
        λ _. Keeps-bind P (Keeps-perform P d _ (each (reload own) refl)) λ r. Keeps-return P _

  module _ (full_log : List Event → ℕ → Text) (b : Banners) where
    log_of-Keeps :
        (streamed : List Container) (c : Container) → Keeps P (log_of d full_log b streamed c)
    unfolding log_of
    log_of-Keeps streamed c =
        Keeps-if P (is_streamed streamed c) (record { keep = λ s p. p })
          (Keeps-try P is_api_error
            (Keeps-bind P (Keeps-perform P d _ (each (read_logs c.id) refl))
              λ r. Keeps-return P r.output)
            λ e. Keeps-return P b.failed)

    pub collect_agent_logs-Keeps :
        (streamed cs : List Container) (acc : Dict Text Text)
        → Keeps P (collect_agent_logs d full_log b streamed cs acc)
    unfolding collect_agent_logs
    collect_agent_logs-Keeps streamed [] acc = Keeps-return P acc
    collect_agent_logs-Keeps streamed (c ∷ cs) acc =
        Keeps-bind P (log_of-Keeps streamed c)
          λ text. collect_agent_logs-Keeps streamed cs (insert c.name text acc)

  module _ (o : Outside) (m : Match) where
    pub still_up-Keeps : (cs : List Container) → Keeps P (still_up d o m cs)
    unfolding still_up
    still_up-Keeps [] = Keeps-return P true
    still_up-Keeps (c ∷ cs) =
        Keeps-bind P
          (Keeps-try P is_api_error
            (Keeps-bind P (Keeps-perform P d _ (each (reload c.id) refl))
              λ r. Keeps-return P (if is_over r.status then false else true))
            λ e. Keeps-return P false)
          λ up. Keeps-if P up (still_up-Keeps cs) (Keeps-return P false)

    pub wait_sim-Keeps : (sim : ℕ) → Keeps P (wait_sim d o m sim)
    unfolding wait_sim
    wait_sim-Keeps sim =
        Keeps-try P is_exception
          (Keeps-bind P (Keeps-perform P d _ (each (wait sim) refl))
            λ r. Keeps-return P (pos r.exit_code))
          λ e.
            Keeps-bind P (Keeps-attempt P d _ (each (kill sim) refl)) λ _. Keeps-return P (negsuc 0)

    pub or_raise-Keeps : (args : Option (List Text)) → Keeps P (or_raise d o m args)
    or_raise-Keeps none = Keeps-raise P (List Text) other
    or_raise-Keeps (some args) = Keeps-return P args

  -- The probe for the ports, where the creation of its container is survived too.
  module _
      (made : (i n c : Text) (args : List Text) (r : Reply) (s : Run)
        → P s
        → P (recorded (create_container i n c args) r s)) where
    create_probe-Keeps : (i n c : Text) (args : List Text) → Keeps P (create_probe d i n c args)
    unfolding create_probe
    create_probe-Keeps i n c args =
        Keeps-try P is_api_error
          (Keeps-bind P (Keeps-perform P d _ (made i n c args)) λ r. Keeps-return P (some r.id))
          λ e. Keeps-return P none

    probe_or-Keeps :
        (nets : List Network) (targets : List Text) (found : Option ℕ)
        → Keeps P (probe_or d found nets targets)
    unfolding probe_targets
    probe_or-Keeps nets targets none = Keeps-return P targets
    probe_or-Keeps nets targets (some probe) =
        Keeps-finally P
          (Keeps-bind P (connect_all-Keeps probe nets) λ connected.
            Keeps-if P connected (run_probe-Keeps probe targets) (Keeps-return P targets))
          (Keeps-attempt P d _ (each (remove probe) refl))

    pub wait_for_grpc-Keeps :
        (image name limit : Text) (targets : List Text) (nets : List Network)
        → Keeps P (wait_for_grpc_ready d image name limit targets nets)
    unfolding wait_for_grpc_ready
    wait_for_grpc-Keeps image name limit [] nets = Keeps-return P []
    wait_for_grpc-Keeps image name limit (t ∷ ts) [] = Keeps-raise P (List Text) other
    wait_for_grpc-Keeps image name limit (t ∷ ts) (net ∷ nets) =
        Keeps-bind P (create_probe-Keeps image name net.name (limit ∷ t ∷ ts))
          (probe_or-Keeps nets (t ∷ ts))

-- ===== src/Runner/Match/Play/Reported.antt =====
-- services/runner/runner/match.py: how often a match calls `on_result`.
use snake_arena.Prelude.{
  ℕ, subst, sym, suc, ◌≤◌, ◌≡◌, refl, arith, Bool, true, false, Option, none, some, List, [], ◌∷◌,
  if◌then◌else◌,
}
use snake_arena.Prelude.Result.{Result, ok, err, by_result}
use snake_arena.Types.{Text}
use snake_arena.Runner.Match.Docker.{
  Error, Container, Network, Call, start, read_logs, on_result, Event, Run, new_run, Daemon, M,
  return, raise, try, ◌>>=◌, recorded, answer, perform, do_call,
}
use snake_arena.Runner.Match.Keeps.{
  Keeps, Keeps-for_each, Keeps-perform, Keeps-do_call, finally_result,
}
use snake_arena.Runner.Match.Resources.{Survives}
use snake_arena.Runner.Match.Cleanup.{cleanup}
use snake_arena.Runner.Match.Cleanup.Attempts.{cleanup-Keeps, cleanup_ends}
use snake_arena.Runner.Match.Args.{AgentSpec, Match, targets_of}
use snake_arena.Runner.Match.Parts.{
  Outcome, Failure, no_image, not_running, exited_early, not_listening, Outside, failed_result,
  seats_from, push_network, push_agent, push_streamer, set_sim, set_observable, get,
}
use snake_arena.Runner.Match.Play.{
  played, create_net, start_agent, finish, init_failure, prepare_sim, create_sim, run_sim,
  after_probe, probe_and_play, after_wait, after_start, play, run_match,
}
use snake_arena.Runner.Match.Play.Quiet
use snake_arena.Runner.Match.Play.Steps
use snake_arena.Runner.Match.Ready.{wait_for_grpc_ready}
use snake_arena.Runner.Match.Console.{collect_agent_logs, dev_logs_of}

abbrev is_report : Call → Bool
is_report on_result = true
is_report _ = false

-- The number of calls of `on_result`.
unfoldable pub reports_in : List Event → ℕ
reports_in [] = 0
reports_in (e ∷ es) = let rest = reports_in es in if is_report e.call then suc rest else rest

abbrev Silent : Run → Type 0
Silent s = reports_in s.events ≡ 0

-- Exactly one with a result, at most one with an exception.
abbrev pub IsReported : Result Error Outcome → Run → Type 0
IsReported (ok result) s = reports_in s.events ≡ 1
IsReported (err e) s = reports_in s.events ≤ 1

Silent-survives : Survives Silent
unfolding reports_in recorded
Silent-survives _ q r s p = ground (arith, p)

IsReported-survives : (r : Result Error Outcome) → Survives (IsReported r)
unfolding reports_in recorded
IsReported-survives (ok result) _ q r s p = ground (arith, p)
IsReported-survives (err e) _ q r s p = ground (arith, p)

record Reports (m : M Outcome) : Type 0 where
  report : (s : Run) → Silent s → IsReported (m s).0 (m s).1

Reports-after {κ} :
    {A : Type κ} {m : M A} {f : A → M Outcome}
    → Keeps Silent m
    → ((a : A) → Reports (f a))
    → Reports (m >>= f)
unfolding ◌>>=◌
Reports-after {m} {f} hm hf = record {
  report = λ s p.
      let q = hm.keep s p in
      by_result (λ (x : Result Error Outcome × Run). IsReported x.0 x.1) (m s).0 (λ a. f a (m s).1)
        (λ e. (err e, (m s).1)) (λ a _. (hf a).report (m s).1 q) λ e _. omega (arith, q);
}

Reports-if : (b : Bool) {m n : M Outcome} → Reports m → Reports n → Reports (if b then m else n)
Reports-if true hm hn = hm
Reports-if false hm hn = hn

module _ (d : Daemon) (o : Outside) (m : Match) (told : m.reports ≡ true) where
  finish-Reports : (result : Outcome) → Reports (finish d o m result)
  unfolding finish ◌>>=◌ try return do_call perform answer recorded reports_in
  finish-Reports result = record { report = λ s p. ground (arith, p, told) }

  abbrev get_silent : Keeps Silent get
  get_silent = Quiet.get-Keeps d Silent Silent-survives

  collect_silent :
      (streamed cs : List Container)
      → Keeps Silent (collect_agent_logs d o.full_log o.banners streamed cs [])
  collect_silent streamed cs =
      Quiet.collect_agent_logs-Keeps d Silent Silent-survives o.full_log o.banners streamed cs []

  init_failure-Reports :
      (e : Failure) (seats : Option (List ℕ)) → Reports (init_failure d o m e seats)
  unfolding init_failure
  init_failure-Reports e seats = Reports-after get_silent λ s.
      Reports-after (collect_silent s.streamed s.agents) λ logs.
        finish-Reports (record (failed_result e o.errors) {
          agent_logs = some logs;
          dev_agent_step_logs = dev_logs_of d o.full_log o.banners s.agents logs;
          init_failed_seats = seats;
        })

  run_sim-Reports : (sim : ℕ) → Reports (run_sim d o m sim)
  unfolding run_sim
  run_sim-Reports sim =
      Reports-after (Keeps-do_call Silent d _ (Silent-survives (start sim) refl)) λ _.
        Reports-after (Quiet.wait_sim-Keeps d Silent Silent-survives o m sim) λ exit_code.
          Reports-after (Keeps-perform Silent d _ (Silent-survives (read_logs sim) refl)) λ r.
            Reports-after get_silent λ s. Reports-after (collect_silent s.streamed s.agents) λ logs.
              Reports-after get_silent
                λ t. finish-Reports (played d o m exit_code r.output logs t.events t.agents)

  observable_silent : Keeps Silent set_observable
  unfolding set_observable
  observable_silent = record { keep = λ s p. p }

  net_silent : (name : Text) (internal : Bool) → Keeps Silent (create_net d o m name internal)
  unfolding create_net perform answer push_network ◌>>=◌ return recorded reports_in
  net_silent name internal = record { keep = λ s p. ground (arith, p) }

  agent_silent : (a : AgentSpec) (net : Network) → Keeps Silent (start_agent d o m a net)
  unfolding start_agent perform answer push_agent push_streamer do_call ◌>>=◌ return recorded
      reports_in
  agent_silent a net = record { keep = λ s p. ground (arith, p) }

  sim_silent : (made : Text × List Text) → Keeps Silent (create_sim d o m made)
  unfolding create_sim perform answer set_sim ◌>>=◌ return recorded reports_in
  sim_silent (network, args) = record { keep = λ s p. ground (arith, p) }

  prepare_silent : Keeps Silent (prepare_sim d o m)
  prepare_silent = Steps.prepare_sim-Keeps d o m Silent Silent-survives net_silent observable_silent

  probe_silent :
      (image name limit : Text) (targets : List Text) (nets : List Network)
      → Keeps Silent (wait_for_grpc_ready d image name limit targets nets)
  unfolding reports_in recorded
  probe_silent image name limit targets nets =
      Quiet.wait_for_grpc-Keeps d Silent Silent-survives (λ i n c args r s p. p) image name limit
        targets nets

  after_probe-Reports : (failed : List Text) → Reports (after_probe d o m failed)
  after_probe-Reports [] = Reports-after prepare_silent λ made.
      Reports-after (sim_silent made) λ sim.
        Reports-after (Steps.connect_sim-Keeps d o m Silent Silent-survives sim)
          λ _. run_sim-Reports sim
  after_probe-Reports (f ∷ fs) =
      init_failure-Reports not_listening (some (seats_from 0 (targets_of m) (f ∷ fs)))

  probe_and_play-Reports : Reports (probe_and_play d o m)
  unfolding probe_and_play
  probe_and_play-Reports =
      Reports-after get_silent
        λ s. Reports-after (probe_silent _ _ _ (targets_of m) _) after_probe-Reports

  after_wait-Reports : (ready : Option Bool) → Reports (after_wait d o m ready)
  unfolding raise
  after_wait-Reports none = record { report = λ s p. omega (arith, p) }
  after_wait-Reports (some false) = init_failure-Reports not_running none
  after_wait-Reports (some true) = Reports-after get_silent λ s.
      Reports-after (Quiet.still_up-Keeps d Silent Silent-survives o m s.agents)
        λ up. Reports-if up probe_and_play-Reports (init_failure-Reports exited_early none)

  after_start-Reports : (missing : Option Text) → Reports (after_start d o m missing)
  after_start-Reports (some image) = finish-Reports (failed_result (no_image image) o.errors)
  after_start-Reports none = Reports-after get_silent λ s.
      Reports-after
        (Quiet.wait_for_agents_ready-Keeps d Silent Silent-survives s.agents m.grpc_ready_timeout)
        after_wait-Reports

  play-Reports : Reports (play d o m)
  unfolding play
  play-Reports =
      Reports-after
        (Keeps-for_each Silent (Steps.agent_network-Keeps d o m Silent Silent-survives net_silent)
          m.agents)
        λ _. Reports-after get_silent λ s.
          Reports-after
            (Steps.start_agents-Keeps d o m Silent Silent-survives net_silent agent_silent m.agents
              s.networks)
            after_start-Reports

  -- Whatever docker does, a match that returns a result has called `on_result` exactly once, and one
  -- that raises has called it once at most.
  pub run_match-IsReported : let r = run_match d o m new_run in IsReported r.0 r.1
  unfolding run_match reports_in
  run_match-IsReported =
      let r = play d o m new_run in
      let c = cleanup d m.router r.1 in
      let kept : IsReported r.0 c.1 =
        (cleanup-Keeps d (IsReported r.0) (IsReported-survives r.0) m.router).keep r.1
          (play-Reports.report new_run refl) in
      subst (λ x. IsReported x.0 x.1)
        (sym (
          finally_result (play d o m) (cleanup d m.router) tt new_run
            (cleanup_ends d m.router r.1)))
        kept

-- ===== src/Runner/Match/Cleanup.antt =====
-- services/runner/runner/match.py: the removal of what a match has created.
pub mod Attempts
use snake_arena.Prelude.{ℕ, Bool, true, false, Option, none, some, List, [], ◌∷◌, if◌then◌else◌}
use snake_arena.Prelude.Result.{ok, err}
use snake_arena.Runner.Match.Docker.{
  Error, is_api_error, Status, running, exited, dead, pending, Container, Network, Call, reload,
  kill, remove, remove_network, stop_observable, Reply, Run, Daemon, M, return, try, ◌>>=◌, ◌>>◌,
  perform, do_call, attempt, safe, for_each,
}
use snake_arena.Runner.Match.Router.{Router, detach}

abbrev pub is_running : Status → Bool
is_running running = true
is_running _ = false

abbrev pub containers_of : Option Container → List Container → List Container
containers_of none agents = agents
containers_of (some c) agents = c ∷ agents

module _ (d : Daemon) where
  -- The rest of `_stop_and_remove_container`; none where the reload raised
  unfoldable pub kill_and_remove : Container → Option Reply → M (Unit {0})
  unfolding return try ◌>>=◌ perform do_call attempt safe
  kill_and_remove c none = return tt
  kill_and_remove c (some r) =
      (if is_running r.status then attempt d (kill c.id) else return tt) >> attempt d (remove c.id)

  -- `_stop_and_remove_container`
  unfoldable pub stop_and_remove_container : Container → M (Unit {0})
  unfolding kill_and_remove return try ◌>>=◌ perform do_call attempt safe
  stop_and_remove_container c = do
    found ← try (perform d (reload c.id) >>= λ r. return (some r)) is_api_error (λ e. return none)
    kill_and_remove c found

  -- `_cleanup`
  unfoldable pub cleanup_network : Router → Network → M (Unit {0})
  unfolding detach return try ◌>>=◌ perform do_call attempt safe
  cleanup_network router net =
      safe (detach d router net) >> safe (do_call d (remove_network net.id))

  unfoldable pub cleanup : Router → M (Unit {0})
  unfolding stop_and_remove_container cleanup_network for_each return try ◌>>=◌ perform do_call
      attempt safe
  cleanup router s =
      (do
        for_each (λ c. safe (stop_and_remove_container c)) (containers_of s.sim s.agents)
        for_each (cleanup_network router) s.networks
        if s.observable then safe (do_call d stop_observable) else return tt)
        s

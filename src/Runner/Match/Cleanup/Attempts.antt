-- ===== src/Runner/Match/Cleanup/Attempts.antt =====
-- services/runner/runner/match.py: the calls that `_cleanup` makes, whatever docker answers.
use snake_arena.Prelude.{
  ◌≡◌, refl, arith, Bool, true, Option, none, some, List, [], ◌∷◌, nat_key, if◌then◌else◌,
}
use snake_arena.Prelude.Result.{ok}
use snake_arena.Runner.Match.Docker.{
  Reply, reload, kill, disconnect, stop_observable, is_api_error, Daemon, Container, Network, Run,
  M, for_each, safe, return, ◌>>=◌, recorded, answer, do_call, attempt, remove, remove_network,
}
use snake_arena.Runner.Match.Keeps.{
  Keeps, Keeps-bind, Keeps-return, Keeps-attempt, Keeps-safe, Keeps-try, Keeps-perform,
  Keeps-do_call, Keeps-if, Keeps-for_each,
}
use snake_arena.Runner.Match.Resources.{
  Resource, any_of, is_of, is_net, held, Survives, removed_in, removed_in-recorded,
}
use snake_arena.Runner.Match.Router.{Router, host_router, container_router, detach}
use snake_arena.Runner.Match.Cleanup.{
  is_running, containers_of, kill_and_remove, stop_and_remove_container, cleanup_network, cleanup,
}

abbrev pub Removed : Resource → Run → Type 0
Removed x s = removed_in x s.events ≡ true

module _ (x : Resource) where
  -- A loop over what it removes, each round ending without an exception.
  module _ {ℓ} {A : Type ℓ} (has : A → Resource → Bool) (f : A → M (Unit {0}))
      (ends : (a : A) (s : Run) → (f a s).0 ≡ ok tt)
      (gone : (a : A) (s : Run) → has a x ≡ true → Removed x (f a s).1)
      (keeps : (a : A) → Keeps (Removed x) (f a)) where
    for_each-Removed :
        (xs : List A) (s : Run) → any_of has xs x ≡ true → Removed x (for_each f xs s).1
    unfolding for_each ◌>>=◌
    for_each-Removed [] s h = cc
    for_each-Removed (a ∷ rest) s h = ground (
      arith,
      ends a s,
      gone a s,
      for_each-Removed rest (f a s).1,
      (Keeps-for_each (Removed x) keeps rest).keep (f a s).1,
    )

for_each_ends {ℓ} :
    {A : Type ℓ} (f : A → M (Unit {0})) (ends : (a : A) (s : Run) → (f a s).0 ≡ ok tt) (xs : List A)
    (s : Run)
    → (for_each f xs s).0 ≡ ok tt
unfolding for_each ◌>>=◌ return
for_each_ends f ends [] s = refl
for_each_ends f ends (a ∷ rest) s = ground (arith, ends a s, for_each_ends f ends rest (f a s).1)

safe_ends : (m : M (Unit {0})) (s : Run) → (safe m s).0 ≡ ok tt
unfolding safe
safe_ends m s = ground arith

module _ (d : Daemon) (x : Resource) where
  stop_and_remove-Removed :
      (c : Container) (s : Run)
      → is_of c x ≡ true
      → Removed x (safe (stop_and_remove_container d c) s).1
  unfolding stop_and_remove_container ◌>>=◌ attempt removed_in recorded answer return safe
  stop_and_remove-Removed c s h = ground arith

  cleanup_network-Removed :
      (router : Router) (n : Network) (s : Run)
      → is_net n x ≡ true
      → Removed x (cleanup_network d router n s).1
  unfolding cleanup_network detach ◌>>=◌ attempt removed_in recorded answer return safe
  cleanup_network-Removed host_router n s h = ground arith
  cleanup_network-Removed (container_router own) n s h = ground arith

cleanup_network_ends :
    (d : Daemon) (router : Router) (n : Network) (s : Run)
    → (cleanup_network d router n s).0 ≡ ok tt
unfolding cleanup_network ◌>>=◌
cleanup_network_ends d router n s = ground (
  arith,
  safe_ends (detach d router n) s,
  safe_ends (do_call d (remove_network n.id)) (safe (detach d router n) s).1,
)

-- What survives quiet calls survives the whole of it.
module _ {ℓ} (d : Daemon) (P : Run → Type ℓ) (each : Survives P) where
  pub detach-Keeps : (router : Router) (n : Network) → Keeps P (detach d router n)
  unfolding detach
  detach-Keeps host_router n = Keeps-return P tt
  detach-Keeps (container_router own) n = Keeps-attempt P d _ (each (disconnect n.id own) refl)

  kill_and_remove-Keeps :
      (c : Container) (found : Option Reply) → Keeps P (kill_and_remove d c found)
  unfolding kill_and_remove
  kill_and_remove-Keeps c none = Keeps-return P tt
  kill_and_remove-Keeps c (some r) =
      Keeps-bind P
        (Keeps-if P (is_running r.status) (Keeps-attempt P d _ (each (kill c.id) refl))
          (Keeps-return P tt))
        λ _. Keeps-attempt P d _ (each (remove c.id) refl)

  stop_and_remove-Keeps : (c : Container) → Keeps P (stop_and_remove_container d c)
  unfolding stop_and_remove_container
  stop_and_remove-Keeps c =
      Keeps-bind P
        (Keeps-try P is_api_error
          (Keeps-bind P (Keeps-perform P d _ (each (reload c.id) refl))
            λ r. Keeps-return P (some r))
          λ e. Keeps-return P none)
        (kill_and_remove-Keeps c)

  cleanup_network-Keeps : (router : Router) (n : Network) → Keeps P (cleanup_network d router n)
  unfolding cleanup_network
  cleanup_network-Keeps router n =
      Keeps-bind P (Keeps-safe P (detach-Keeps router n))
        λ _. Keeps-safe P (Keeps-do_call P d _ (each (remove_network n.id) refl))

  pub cleanup-Keeps : (router : Router) → Keeps P (cleanup d router)
  unfolding cleanup
  cleanup-Keeps router = record {
    keep = λ s.
        (Keeps-bind P
            (Keeps-for_each P (λ c. Keeps-safe P (stop_and_remove-Keeps c))
              (containers_of s.sim s.agents))
            λ _. Keeps-bind P (Keeps-for_each P (cleanup_network-Keeps router) s.networks) λ _.
              Keeps-if P s.observable
                (Keeps-safe P (Keeps-do_call P d _ (each stop_observable refl)))
                (Keeps-return P tt)).keep
          s;
  }

Removed-survives : (x : Resource) → Survives (Removed x)
Removed-survives x c q r s = removed_in-recorded c r x s

-- Everything that the run holds is removed, or docker raised at the container's reload or kill.
module _ (d : Daemon) (x : Resource) where
  containers-Removed :
      (s : Run)
      → any_of is_of (containers_of s.sim s.agents) x ≡ true
      → Removed x
          (for_each (λ c. safe (stop_and_remove_container d c)) (containers_of s.sim s.agents) s).1
  containers-Removed s =
      for_each-Removed x is_of (λ c. safe (stop_and_remove_container d c))
        (λ c t. safe_ends (stop_and_remove_container d c) t) (stop_and_remove-Removed d x)
        (λ c. Keeps-safe (Removed x) (stop_and_remove-Keeps d (Removed x) (Removed-survives x) c)) _
        s

  networks-Removed :
      (router : Router) (ns : List Network) (s : Run)
      → any_of is_net ns x ≡ true
      → Removed x (for_each (cleanup_network d router) ns s).1
  networks-Removed router =
      for_each-Removed x is_net (cleanup_network d router) (cleanup_network_ends d router)
        (cleanup_network-Removed d x router)
        (λ n. cleanup_network-Keeps d (Removed x) (Removed-survives x) router n)

  networks_keep :
      (router : Router) (ns : List Network)
      → Keeps (Removed x) (for_each (cleanup_network d router) ns)
  networks_keep router =
      Keeps-for_each (Removed x) (cleanup_network-Keeps d (Removed x) (Removed-survives x) router)

  observable_keep :
      (b : Bool) → Keeps (Removed x) (if b then safe (do_call d stop_observable) else return tt)
  observable_keep b =
      Keeps-if (Removed x) b
        (Keeps-safe (Removed x)
          (Keeps-do_call (Removed x) d _ (Removed-survives x stop_observable refl)))
        (Keeps-return (Removed x) tt)

  -- Whatever docker answers, the clean-up tries to remove every container and network that the run
  -- holds; a container is passed over only if docker raised when it was looked at or killed.
  pub cleanup-Removed :
      (router : Router) (s : Run) → held s x ≡ true → Removed x (cleanup d router s).1
  unfolding cleanup held ◌>>=◌
  cleanup-Removed router s h =
      let cs = containers_of s.sim s.agents in
      let f = λ (c : Container). safe (stop_and_remove_container d c) in
      let a = (for_each f cs s).1 in
      let b = (for_each (cleanup_network d router) s.networks a).1 in
      let keep = λ (t : Run). (networks_keep router s.networks).keep t in
      let last = λ (t : Run). (observable_keep s.observable).keep t in
      ground (
        arith,
        for_each_ends f (λ c t. safe_ends (stop_and_remove_container d c) t) cs s,
        for_each_ends (cleanup_network d router) (cleanup_network_ends d router) s.networks a,
        containers-Removed s,
        networks-Removed router s.networks a,
        keep a,
        last b,
      )

-- The clean-up raises nothing.
pub cleanup_ends : (d : Daemon) (router : Router) (s : Run) → (cleanup d router s).0 ≡ ok tt
unfolding cleanup ◌>>=◌ return
cleanup_ends d router s =
    let cs = containers_of s.sim s.agents in
    let f = λ (c : Container). safe (stop_and_remove_container d c) in
    let a = (for_each f cs s).1 in
    let b = (for_each (cleanup_network d router) s.networks a).1 in
    ground (
      arith,
      for_each_ends f (λ c t. safe_ends (stop_and_remove_container d c) t) cs s,
      for_each_ends (cleanup_network d router) (cleanup_network_ends d router) s.networks a,
      safe_ends (do_call d stop_observable) b,
    )

-- ===== src/Runner/Match/Router.antt =====
-- services/runner/runner/router.py: the way from a container back to the daemon.
use snake_arena.Prelude.{ℕ, Bool, true, false, [], ◌∷◌, ◌++◌}
use snake_arena.Types.{Text}
use snake_arena.Runner.Match.Docker.{
  Error, other, connect, disconnect, resolve_host, get_container, reload, Network, Daemon, M,
  return, try, ◌>>=◌, ◌>>◌, perform, do_call, attempt,
}

-- `HostRouter`, and `ContainerRouter` with the container that the daemon runs in.
pub data Router : Type 0 where
  host_router : Router
  container_router : ℕ → Router

-- "172.17.0.1"
abbrev pub default_ip : Text
default_ip = b'1' ∷ b'7' ∷ b'2' ∷ b'.' ∷ b'1' ∷ b'7' ∷ b'.' ∷ b'0' ∷ b'.' ∷ b'1' ∷ []

-- `socket.gaierror`, of the resolver: neither docker's nor an interrupt.
abbrev is_gaierror : Error → Bool
is_gaierror other = true
is_gaierror _ = false

module _ (d : Daemon) where
  -- `_get_docker_host_ip`
  unfoldable pub get_docker_host_ip : M Text
  unfolding return try ◌>>=◌ perform do_call attempt
  get_docker_host_ip =
      try (perform d resolve_host >>= λ r. return r.output) is_gaierror (λ e. return default_ip)

  unfoldable pub attach : Router → Network → M (Unit {0})
  unfolding return try ◌>>=◌ perform do_call attempt
  attach host_router net = return tt
  attach (container_router own) net = do_call d (connect net.id own)

  unfoldable pub detach : Router → Network → M (Unit {0})
  unfolding return try ◌>>=◌ perform do_call attempt
  detach host_router net = return tt
  detach (container_router own) net = attempt d (disconnect net.id own)

  -- `f"{ip}:{port}"`; after `reload` the attributes hold the address on the network.
  unfoldable pub address_for : Router → Network → Text → M Text
  unfolding get_docker_host_ip return try ◌>>=◌ perform do_call attempt
  address_for host_router net port = get_docker_host_ip >>= λ ip. return (ip ++ (b':' ∷ port))
  address_for (container_router own) net port = do
    perform d (get_container own)
    r ← perform d (reload own)
    return (r.output ++ (b':' ∷ port))

-- `router_from_env`: whether IS_DOCKER_CONTAINER is set, and the container's own id.
unfoldable pub router_from_env : Bool → ℕ → Router
router_from_env true own = container_router own
router_from_env false own = host_router

-- ===== src/Runner/Match/Ready.antt =====
-- services/runner/runner/match.py: the waits before the simulation starts. Times are milliseconds.
pub mod Ends
pub mod Probe
use snake_arena.Prelude.{
  ℕ, zero, suc, ◌+◌, ◌*◌, Bool, true, false, ◌&&◌, ◌||◌, Option, none, some, List, [], ◌∷◌, ◌++◌,
  nat_key, ◌==◌, leb, ltb, if◌then◌else◌,
}
use snake_arena.Prelude.Result.{ok, err}
use snake_arena.Types.{Text}
use snake_arena.Runner.StepLog.{starts_with}
use snake_arena.Runner.Match.Docker.{
  Error, is_api_error, is_exception, other, Status, running, exited, dead, pending, Container,
  Network, Call, create_container, connect, start, reload, wait, read_logs, remove, clock, sleep,
  Reply, Daemon, M, return, raise, try, finally, ◌>>=◌, ◌>>◌, perform, do_call, attempt,
}

-- "NOT_READY"
abbrev pub not_ready : Text
not_ready = b'N' ∷ b'O' ∷ b'T' ∷ b'_' ∷ b'R' ∷ b'E' ∷ b'A' ∷ b'D' ∷ b'Y' ∷ []

-- The ends of lines of `str.splitlines`, and the blanks of `str.split`, in ASCII.
abbrev pub is_break : ℕ → Bool
is_break c = (leb 10 c && leb c 13) || (leb 28 c && leb c 30)

abbrev pub is_space : ℕ → Bool
is_space c = (leb 9 c && leb c 13) || (leb 28 c && leb c 32)

-- `stdout.splitlines()`, and the empty lines between "\r" and "\n" or at the end.
unfoldable pub lines_from : Text → Text → List Text
lines_from acc [] = acc ∷ []
lines_from acc (c ∷ cs) = elim (is_break c) [
  | true ↦ acc ∷ lines_from [] cs
  | false ↦ lines_from (acc ++ c ∷ []) cs
]

abbrev pub word_then : Text → List Text → List Text
word_then [] words = words
word_then (c ∷ cs) words = (c ∷ cs) ∷ words

-- `line.split()`
unfoldable pub words_from : Text → Text → List Text
words_from acc [] = word_then acc []
words_from acc (c ∷ cs) = elim (is_space c) [
  | true ↦ word_then acc (words_from [] cs)
  | false ↦ words_from (acc ++ c ∷ []) cs
]

abbrev pub tail_of {ℓ} : {A : Type ℓ} → List A → List A
tail_of [] = []
tail_of (x ∷ xs) = xs

-- The loop over the lines: the last that starts with NOT_READY is kept.
unfoldable pub last_not_ready : List Text → Option (List Text) → Option (List Text)
unfolding words_from
last_not_ready [] failed = failed
last_not_ready (line ∷ rest) failed =
    last_not_ready rest
      (if starts_with not_ready line then some (tail_of (words_from [] line)) else failed)

unfoldable pub read_probe : Text → Option (List Text)
unfolding lines_from last_not_ready
read_probe stdout = last_not_ready (lines_from [] stdout) none

-- The rounds for one agent: ten a second, and the one that sees the deadline.
abbrev pub rounds : ℕ → ℕ
rounds timeout = suc (10 * timeout)

module _ (d : Daemon) where
  -- `net.connect(probe)` for the other networks; false where docker refused one.
  unfoldable pub connect_all : ℕ → List Network → M Bool
  unfolding ◌>>=◌ try return do_call
  connect_all probe [] = return true
  connect_all probe (net ∷ nets) = do
    connected ←
        try (do_call d (connect net.id probe) >> return true) is_api_error (λ e. return false)
    if connected then connect_all probe nets else return false

  abbrev pub or_all : List Text → Option (List Text) → List Text
  or_all targets none = targets
  or_all targets (some failed) = failed

  -- The rest of the probe once it waits for its end.
  unfoldable pub probe_output : ℕ → M Text
  unfolding ◌>>=◌ try return perform
  probe_output probe =
      try (perform d (read_logs probe) >>= λ r. return r.output) is_exception (λ e. return [])

  unfoldable pub run_probe : ℕ → List Text → M (List Text)
  unfolding ◌>>=◌ try return do_call probe_output read_probe
  run_probe probe targets = do
    do_call d (start probe)
    ended ← try (do_call d (wait probe) >> return true) is_exception (λ e. return false)
    if ended
        then (probe_output probe >>= λ stdout. return (or_all targets (read_probe stdout)))
        else (return targets)

  -- The `try` with its `finally`.
  unfoldable pub probe_targets : ℕ → List Network → List Text → M (List Text)
  unfolding ◌>>=◌ return finally attempt connect_all run_probe
  probe_targets probe nets targets =
      finally
        (do
          connected ← connect_all probe nets
          if connected then run_probe probe targets else return targets)
        (attempt d (remove probe))

  abbrev pub probe_or : Option ℕ → List Network → List Text → M (List Text)
  probe_or none nets targets = return targets
  probe_or (some probe) nets targets = probe_targets probe nets targets

  -- The probe's container; none where docker refuses it.
  unfoldable pub create_probe : Text → Text → Text → List Text → M (Option ℕ)
  unfolding ◌>>=◌ try return perform
  create_probe image name network args =
      try (perform d (create_container image name network args) >>= λ r. return (some r.id))
        is_api_error (λ e. return none)

  -- `_wait_for_grpc_ready`: `name` is `probe_name`, `limit` the text of `timeout_s`. Without a network
  -- the index 0 raises.
  unfoldable pub wait_for_grpc_ready : Text → Text → Text → List Text → List Network → M (List Text)
  unfolding ◌>>=◌ return raise create_probe probe_targets
  wait_for_grpc_ready image name limit [] nets = return []
  wait_for_grpc_ready image name limit (t ∷ ts) [] = raise other
  wait_for_grpc_ready image name limit (t ∷ ts) (net ∷ nets) =
      create_probe image name net.name (limit ∷ t ∷ ts) >>= λ probe. probe_or probe nets (t ∷ ts)

  -- A round after its reload: `again` is the rest of the loop.
  unfoldable pub on_status : Status → M (Option Bool) → M (Option Bool)
  unfolding ◌>>=◌ return do_call
  on_status running again = return (some true)
  on_status exited again = return (some false)
  on_status dead again = return (some false)
  on_status pending again = do_call d sleep >> again

  -- The rounds of the `while`, on fuel: none when it runs out.
  unfoldable pub wait_running : ℕ → Container → ℕ → M (Option Bool)
  unfolding ◌>>=◌ return perform on_status
  wait_running deadline c zero = return none
  wait_running deadline c (suc fuel) = do
    now ← perform d clock
    if ltb now.time deadline
        then (perform d (reload c.id) >>= λ r. on_status r.status (wait_running deadline c fuel))
        else (return (some false))

  abbrev pub on_wait : Option Bool → M (Option Bool) → M (Option Bool)
  on_wait (some true) next = next
  on_wait r next = return r

  unfoldable pub wait_all : ℕ → ℕ → List Container → M (Option Bool)
  unfolding ◌>>=◌ return wait_running
  wait_all fuel deadline [] = return (some true)
  wait_all fuel deadline (c ∷ cs) = do
    r ← wait_running deadline c fuel
    on_wait r (wait_all fuel deadline cs)

  -- `_wait_for_agents_ready`
  unfoldable pub wait_for_agents_ready : List Container → ℕ → M (Option Bool)
  unfolding ◌>>=◌ perform wait_all
  wait_for_agents_ready cs timeout = do
    now ← perform d clock
    wait_all (rounds timeout) (now.time + 1000 * timeout) cs

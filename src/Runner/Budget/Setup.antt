-- ===== src/Runner/Budget/Setup.antt =====
-- services/runner/runner/agent_container_manager.py: `set_agent_containers`, the shutdown and the
-- accessors that `run_match` reads after a match.
use Prim.Native.String.{String}
use snake_arena.Prelude.{
  ℕ, Bool, true, false, ◌&&◌, Option, none, some, List, [], ◌∷◌, nat_key, string_key, if◌then◌else◌,
}
use snake_arena.Prelude.Int.{pos, max_ℤ}
use snake_arena.Prelude.Dict.{Dict, lookup, insert, contains}
use snake_arena.Prelude.Result.{ok, err}
use snake_arena.Runner.Cgroup.{Host, ReadError, read_cpu_ns}
use snake_arena.Runner.Budget.Data.{Tracker, new_tracker, Manager, KillReason, init_failure}
use snake_arena.Runner.Budget.Handlers.{Outcome, for_each}

-- The exceptions of `set_agent_containers`.
pub data SetError : Type 0 where
  seats_differ : SetError
  reading : ReadError → SetError

covers {ℓ κ} : {V : Type ℓ} {W : Type κ} → Dict ℕ V → Dict ℕ W → Bool
covers [] e = true
covers ((k, v) ∷ d) e = contains k e && covers d e

-- `set(a) == set(b)` on the keys of two dicts
unfoldable pub same_seats : Dict ℕ ℕ → Dict ℕ String → Bool
unfolding covers
same_seats d e = covers d e && covers e d

-- `{t: s for s, t in target_by_seat.items()}`
unfoldable pub inverted : Dict ℕ String → Dict String ℕ → Dict String ℕ
inverted [] acc = acc
inverted ((s, t) ∷ d) acc = inverted d (insert t s acc)

-- `target_by_seat[seat]`; the seats are known to be the same.
abbrev target_of : Dict ℕ String → ℕ → String
target_of targets seat = elim (lookup seat targets) [ none ↦ "" | some t ↦ t ]

-- One container's tracker, with its baseline.
unfoldable pub track : Host → ℕ × ℕ → Manager → Outcome
track h (seat, container) m = elim (read_cpu_ns h container) [
  | ok baseline ↦ (
    record m {
      trackers =
          insert seat
            (new_tracker container (target_of m.target_by_seat seat) (max_ℤ baseline (pos 0)))
            m.trackers;
    },
    none,
  )
  | err e ↦ (m, some e)
]

abbrev pub start_thread : Outcome → Manager × Option SetError
start_thread (m, none) = (record m { polling = true }, none)
start_thread (m, some e) = (m, some (reading e))

-- The state that the trackers are built from: the mappings installed, the earlier thread stopped.
abbrev pub installed : Dict ℕ ℕ → Dict ℕ String → Manager → Manager
installed containers targets m = record m {
  trackers = [];
  seat_to_container = containers;
  target_by_seat = targets;
  seat_by_target = inverted targets [];
  snake_id_by_seat = [];
  seat_by_snake_id = [];
  polling = false;
}

unfoldable pub set_agent_containers :
    Host → Dict ℕ ℕ → Dict ℕ String → Manager → Manager × Option SetError
unfolding for_each track same_seats
set_agent_containers h containers targets m =
    if same_seats containers targets
    then start_thread (for_each (track h) containers (installed containers targets m))
    else (m, some seats_differ)

-- `_shutdown`, which `notify_stop` and `close` call: the thread ends at its next round.
unfoldable pub shutdown : Manager → Manager
shutdown m = record m { polling = false }

-- `reset`
unfoldable pub reset : Manager → Manager
unfolding shutdown
reset m = record (shutdown m) { trackers = []; seat_to_container = [] }

-- `get_kill_reason`
unfoldable pub get_kill_reason : ℕ → Manager → Option KillReason
get_kill_reason seat m = elim (lookup seat m.trackers) [ none ↦ none | some t ↦ t.kill_reason ]

abbrev is_init_failure : Option KillReason → Bool
is_init_failure (some init_failure) = true
is_init_failure _ = false

failed_seats : Dict ℕ Tracker → List ℕ
failed_seats [] = []
failed_seats ((seat, t) ∷ d) =
    if is_init_failure t.kill_reason then seat ∷ failed_seats d else failed_seats d

-- `get_init_failed_seats`
unfoldable pub get_init_failed_seats : Manager → List ℕ
unfolding failed_seats
get_init_failed_seats m = failed_seats m.trackers

-- ===== src/Runner/Budget/Handlers.antt =====
-- services/runner/runner/agent_container_manager.py: the handlers of `AgentContainerManager`. Each
-- holds the lock for its whole loop, so an event is one step; a raised reading ends the loop where
-- it stands. Logging and the `on_exec_times` callback change no state and are left out.
use Prim.Native.String.{String}
use snake_arena.Prelude.{
  ℕ, Bool, true, false, ◌&&◌, not, Option, none, some, List, [], ◌∷◌, nat_key, string_key,
  if◌then◌else◌,
}
use snake_arena.Prelude.Int.{ℤ, pos, ◌-ℤ◌, ltb_ℤ, max_ℤ}
use snake_arena.Prelude.Dict.{Dict, lookup, insert, contains, push, keys}
use snake_arena.Prelude.Result.{ok, err}
use snake_arena.Runner.Cgroup.{Host, ReadError, read_cpu_ns}
use snake_arena.Runner.Budget.Data.{Tracker, Budgets, Manager, startup_cpu, init_failure}
use snake_arena.Runner.Budget.Cycle.{
  mark_killed, answered, wall_step_ns, cpu_delta, step_tracker, poll_tracker, register,
}

-- A handler's outcome: the state that it leaves, and the exception that ended it, if any.
abbrev pub Outcome : Type 0
Outcome = Manager × Option ReadError

-- `for k in ks: body`, ended by the first exception.
unfoldable pub for_each {ℓ} : {K : Type ℓ} → (K → Manager → Outcome) → List K → Manager → Outcome
for_each body [] m = (m, none)
for_each body (k ∷ ks) m =
    let (m', raised) = body k m in
    elim raised [ none ↦ for_each body ks m' | some e ↦ (m', some e) ]

-- The tracker of a seat takes a new value; a kill is sent where that is what the body decided.
unfoldable pub put_tracker : ℕ → Tracker → Tracker → Manager → Manager
put_tracker seat old t m = record m {
  trackers = insert seat t m.trackers;
  kills = if t.killed && not old.killed then old.container ∷ m.kills else m.kills;
}

-- What `notify_step` is given, with the host and the clock at that time.
pub record StepData : Type 0 where
  pub host : Host
  pub now : ℤ
  pub step : ℤ
  pub total_time : ℤ
  pub alive_states : Dict ℕ Bool

-- `self._snake_id_by_seat.get(seat)`, then `data.alive_states.get(snake_id, False)`
abbrev pub alive_of : StepData → ℕ → Manager → Option Bool
alive_of d seat m = elim (lookup seat m.snake_id_by_seat) [
  | none ↦ none
  | some id ↦ elim (lookup id d.alive_states) [ none ↦ some false | some a ↦ some a ]
]

abbrev pub after_step : Budgets → StepData → ℕ → Manager → Tracker → ℤ → Manager
after_step b d seat m t reading =
    let wall = wall_step_ns d.total_time in
    let t' = step_tracker b wall d.now d.step (alive_of d seat m) reading t in
    put_tracker seat t t' (record m {
      exec_times = push seat (cpu_delta reading t) m.exec_times;
      wall_step_times = push seat wall m.wall_step_times;
    })

unfoldable pub step_seat : Budgets → StepData → ℕ → Manager → Outcome
step_seat b d seat m = elim (lookup seat m.trackers) [
  | none ↦ (m, none)
  | some t ↦ if t.killed then (m, none) else elim (read_cpu_ns d.host t.container) [
    | ok reading ↦ (after_step b d seat m t reading, none)
    | err e ↦ (m, some e)
  ]
]

unfoldable pub notify_step : Budgets → StepData → Manager → Outcome
unfolding for_each step_seat put_tracker
notify_step b d m = for_each (step_seat b d) (keys m.trackers) m

-- `notify_decision`
unfoldable pub notify_decision : ℕ → ℤ → Manager → Manager
notify_decision snake_id wall_time m = elim (lookup snake_id m.seat_by_snake_id) [
  | none ↦ m
  | some seat ↦ elim (lookup seat m.trackers) [
    | none ↦ m
    | some t ↦
        if t.killed
        then m
        else record m { trackers = insert seat (answered wall_time t) m.trackers }
  ]
]

-- One round of `_poll_loop` over the seats; `clock seat` is the time when the seat is looked at.
unfoldable pub poll_seat : Budgets → Host → (ℕ → ℤ) → ℕ → Manager → Outcome
poll_seat b h clock seat m = elim (lookup seat m.trackers) [
  | none ↦ (m, none)
  | some t ↦
      if t.killed
      then (m, none)
      else if t.in_startup
      then (m, none)
      else if t.responded
      then (m, none)
      else elim (read_cpu_ns h t.container) [
        | ok current ↦ (put_tracker seat t (poll_tracker b (clock seat) current t) m, none)
        | err e ↦ (m, some e)
      ]
]

-- An exception in the thread's function ends the thread.
abbrev pub end_poll : Outcome → Manager
end_poll (m, none) = m
end_poll (m, some e) = record m { polling = false }

unfoldable pub poll_tick : Budgets → Host → (ℕ → ℤ) → Manager → Manager
unfolding for_each poll_seat put_tracker
poll_tick b h clock m =
    if m.polling then end_poll (for_each (poll_seat b h clock) (keys m.trackers) m) else m

-- What `notify_start` is given: `env_meta_data.snake_tags` in order, with the host and the clock.
pub record StartData : Type 0 where
  pub host : Host
  pub now : ℤ
  pub snake_tags : Dict ℕ String

abbrev pub start_tracker : Budgets → StartData → ℕ × String → ℕ → Tracker → ℤ → Manager → Manager
start_tracker b d (snake_id, tag) seat t current m =
    let fresh : Tracker = if ltb_ℤ current (pos 0) then t else record t { last_cpu = current } in
    if (not (ltb_ℤ current (pos 0)))
      && ltb_ℤ b.startup_cpu_budget (max_ℤ (pos 0) (current -ℤ t.last_cpu))
    then record m {
      trackers = insert seat (mark_killed startup_cpu t) m.trackers;
      kills = t.container ∷ m.kills;
    }
    else record m {
      trackers = insert seat (register b d.now tag fresh) m.trackers;
      snake_id_by_seat = insert seat snake_id m.snake_id_by_seat;
      seat_by_snake_id = insert snake_id seat m.seat_by_snake_id;
    }

-- The first loop of `notify_start`, over the snakes of the sim.
unfoldable pub start_snake : Budgets → StartData → ℕ × String → Manager → Outcome
start_snake b d (snake_id, tag) m = elim (lookup tag m.seat_by_target) [
  | none ↦ (m, none)
  | some seat ↦ elim (lookup seat m.trackers) [
    | none ↦ (m, none)
    | some t ↦ elim (read_cpu_ns d.host t.container) [
      | ok current ↦ (start_tracker b d (snake_id, tag) seat t current m, none)
      | err e ↦ (m, some e)
    ]
  ]
]

-- The second loop: `active_seats` holds the keys of `snake_id_by_seat`, which are cleared and
-- filled together.
unfoldable pub drop_absent : ℕ → Manager → Outcome
unfolding put_tracker
drop_absent seat m = elim (lookup seat m.trackers) [
  | none ↦ (m, none)
  | some t ↦
      if not (contains seat m.snake_id_by_seat) && not t.killed
      then (put_tracker seat t (mark_killed init_failure t) m, none)
      else (m, none)
]

abbrev pub cleared : Manager → Manager
cleared m = record m {
  exec_times = [];
  wall_step_times = [];
  snake_id_by_seat = [];
  seat_by_snake_id = [];
}

abbrev pub restart_poll : Outcome → Outcome
restart_poll (m, none) = (record m { polling = true }, none)
restart_poll (m, some e) = (m, some e)

abbrev pub then_drop : Outcome → Outcome
then_drop (m, none) = for_each drop_absent (keys m.trackers) m
then_drop (m, some e) = (m, some e)

unfoldable pub notify_start : Budgets → StartData → Manager → Outcome
unfolding for_each start_snake drop_absent
notify_start b d m = restart_poll (then_drop (for_each (start_snake b d) d.snake_tags (cleared m)))

-- ===== src/Runner/Match/Ready/Ends.antt =====
-- services/runner/runner/match.py: the rounds of `_wait_for_agents_ready`, on a clock that does not go back.
use snake_arena.Prelude.{
  ℕ, zero, suc, ◌+◌, ◌-◌, ◌*◌, ◌≤◌, ◌≢◌, arith, Bool, Option, none, List, [], ◌∷◌, length,
}
use snake_arena.Prelude.Result.{Result, ok}
use snake_arena.Runner.Match.Docker.{
  Error, Container, Call, clock, sleep, reload, Reply, Event, Run, Daemon, recorded, answer, return,
  ◌>>=◌, perform,
}
use snake_arena.Runner.Match.Ready.{wait_running, wait_all, wait_for_agents_ready}

-- The least that the clock can show: its last reading, and 100 ms for each `time.sleep(0.1)` since.
abbrev after_call : Call → Reply → ℕ → ℕ
after_call clock r t = r.time
after_call sleep r t = t + 100
after_call _ r t = t

unfoldable pub earliest : List Event → ℕ
earliest [] = 0
earliest (e ∷ es) = after_call e.call e.reply (earliest es)

-- A round reads the clock once, and so does the start of the wait.
abbrev is_reading : Call → ℕ
is_reading clock = 1
is_reading _ = 0

unfoldable pub readings : List Event → ℕ
readings [] = 0
readings (e ∷ es) = is_reading e.call + readings es

-- `time.monotonic()` cannot go backwards, and `time.sleep` takes at least its argument.
abbrev pub IsMonotonic : Daemon → Type 0
IsMonotonic d = (es : List Event) → earliest es ≤ (d es clock).time

module _ (d : Daemon) (ticks : IsMonotonic d) where
  -- What a wait leaves: an answer or an exception, no earlier a time, and the time that is left before
  -- the deadline, less 100 ms for every round but `extra` of them.
  abbrev pub Ends : ℕ → ℕ → Run → Result Error (Option Bool) × Run → Type 0
  Ends deadline extra s r =
      (r.0 ≢ ok none)
      × (earliest s.events ≤ earliest r.1.events)
      × (100 * readings r.1.events + (deadline + 99 - earliest r.1.events)
          ≤ 100 * readings s.events + (deadline + 99 - earliest s.events) + 100 * extra)

  wait_running-Ends :
      (deadline : ℕ) (c : Container) (fuel : ℕ) (s : Run)
      → deadline ≤ earliest s.events + 100 * fuel
      → Ends deadline 1 s (wait_running d deadline c (suc fuel) s)
  unfolding wait_running earliest readings recorded answer
  wait_running-Ends deadline c zero s h = ground (arith, ticks s.events)
  wait_running-Ends deadline c (suc fuel) s h =
      let a = (perform d clock s).1 in
      let b = (perform d (reload c.id) a).1 in
      let t = (perform d sleep b).1 in
      ground
        (arith, ticks s.events, ticks a.events, ticks b.events, wait_running-Ends deadline c fuel t)

  wait_all-Ends :
      (deadline fuel : ℕ) (cs : List Container) (s : Run)
      → deadline ≤ earliest s.events + 100 * fuel
      → Ends deadline (length cs) s (wait_all d (suc fuel) deadline cs s)
  unfolding wait_all ◌>>=◌ return
  wait_all-Ends deadline fuel [] s h = ground arith
  wait_all-Ends deadline fuel (c ∷ cs) s h = ground (
    arith,
    wait_running-Ends deadline c fuel s h,
    wait_all-Ends deadline fuel cs (wait_running d deadline c (suc fuel) s).1,
  )

  -- On a clock that does not go back and is moved at least 100 ms by each sleep, the wait for the agents
  -- ends with an answer or with an exception, never out of its fuel, and reads the clock at most ten
  -- times for each second of its limit, once more for each agent, and once at its start.
  pub wait_for_agents_ready-Ends :
      (cs : List Container) (timeout : ℕ) (s : Run)
      → let r = wait_for_agents_ready d cs timeout s in
        (r.0 ≢ ok none) × (readings r.1.events ≤ readings s.events + 10 * timeout + length cs + 1)
  unfolding wait_for_agents_ready ◌>>=◌ perform answer earliest recorded readings
  wait_for_agents_ready-Ends cs timeout s =
      let now = (d s.events clock).time in
      ground (arith, wait_all-Ends (now + 1000 * timeout) (10 * timeout) cs (perform d clock s).1)

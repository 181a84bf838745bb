-- ===== src/Runner/Match/Console.antt =====
-- services/runner/runner/match.py: the logs of a match, and the note on a kill for the dev agent's console.
-- Budgets are nanoseconds; how a note is worded is given.
pub mod Banner
use snake_arena.Prelude.{
  ℕ, zero, suc, ◌-◌, Bool, true, false, Option, none, some, List, [], ◌∷◌, ◌++◌, nat_key, ◌==◌,
  length, max, if◌then◌else◌,
}
use snake_arena.Prelude.Int.{ℤ}
use snake_arena.Prelude.Dict.{Dict, lookup, insert}
use snake_arena.Prelude.Result.{ok, err}
use snake_arena.Types.{Text, text_key}
use snake_arena.Runner.StepLog.{step_sep, dev_step_logs}
use snake_arena.Runner.Budget.Data.{
  KillReason, startup_cpu, per_step, sustained, wall_clock, sustained_wall, init_failure, dead,
  Budgets,
}
use snake_arena.Runner.Match.Docker.{
  Error, is_api_error, Container, Call, read_logs, Event, Reply, Run, Daemon, M, return, try, ◌>>=◌,
  perform,
}

-- The banners, with the budgets that each quotes.
pub data Note : Type 0 where
  over_step_cpu : ℤ → Note
  over_sustained_cpu : ℤ → ℤ → Note
  over_step_wall : ℤ → Note
  over_sustained_wall : ℤ → ℤ → Note
  over_startup_cpu : ℤ → Note
  no_answer : Note

-- `_budget_kill_note`
unfoldable pub budget_kill_note : Option KillReason → Budgets → Option Note
budget_kill_note (some per_step) b = some (over_step_cpu b.per_step_cpu)
budget_kill_note (some sustained) b = some (over_sustained_cpu b.cpu_refill b.cpu_max)
budget_kill_note (some wall_clock) b = some (over_step_wall b.per_step_wall)
budget_kill_note (some sustained_wall) b = some (over_sustained_wall b.wall_refill b.wall_max)
budget_kill_note (some startup_cpu) b = some (over_startup_cpu b.startup_cpu_budget)
budget_kill_note (some init_failure) b = some no_answer
budget_kill_note (some dead) b = none
budget_kill_note none b = none

-- `while len(logs) < n: logs.append("")`
abbrev pub blanks : ℕ → List Text
blanks zero = []
blanks (suc n) = [] ∷ blanks n

abbrev pub logs_or : Option (List Text) → List Text
logs_or none = []
logs_or (some logs) = logs

-- The banner after `seen` steps at the least.
unfoldable pub with_note : Text → ℕ → Option (List Text) → List Text
with_note note seen dev_logs =
    let logs = logs_or dev_logs in
    let kill_step = max seen (length logs) in
    (logs ++ blanks (kill_step - length logs)) ++ note ∷ []

-- `streamer_by_container`, which is read by the container's identity
abbrev pub is_streamed : List Container → Container → Bool
is_streamed [] c = false
is_streamed (t ∷ ts) c = if t.id == c.id then true else is_streamed ts c

-- The texts of the constants.
pub record Banners : Type 0 where
  pub notice : Text
  pub earlier : Text
  pub failed : Text
  pub wording : Note → Text

module _ (d : Daemon) (full_log : List Event → ℕ → Text) (b : Banners) where
  -- One container's log; `full_log` is what the streamer has kept when it is asked.
  unfoldable pub log_of : List Container → Container → M Text
  unfolding ◌>>=◌ return try perform
  log_of streamed c =
      if is_streamed streamed c
      then (λ s. return (full_log s.events c.id) s)
      else try (perform d (read_logs c.id) >>= λ r. return r.output) is_api_error
          (λ e. return b.failed)

  -- `_collect_agent_logs`
  unfoldable pub collect_agent_logs :
      List Container → List Container → Dict Text Text → M (Dict Text Text)
  unfolding ◌>>=◌ return log_of
  collect_agent_logs streamed [] acc = return acc
  collect_agent_logs streamed (c ∷ cs) acc = do
    text ← log_of streamed c
    collect_agent_logs streamed cs (insert c.name text acc)

  -- `_dev_step_logs(agent_logs.get(agent_containers[0].name)) if agent_containers else None`
  unfoldable pub dev_logs_of : List Container → Dict Text Text → Option (List Text)
  unfolding dev_step_logs
  dev_logs_of [] logs = none
  dev_logs_of (c ∷ cs) logs = dev_step_logs step_sep b.notice b.earlier (lookup c.name logs)

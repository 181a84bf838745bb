-- ===== src/Orchestrator/TestRunnerTests.antt =====
-- Runs of the model of test_runner_daemon.py at concrete inputs.
use snake_arena.Prelude.{
  ℕ, ◌≡◌, refl, true, false, ◌==◌, nat_key, none, some, [], ◌∷◌, map, arith, if◌then◌else◌,
}
use snake_arena.Prelude.Result.{ok}
use snake_arena.Scoring.Tests.{hundredths}
use snake_arena.Db.ScoreTests.{contestants, played}
use snake_arena.Db.MatchJobs.{queued, running}
use snake_arena.Orchestrator.RunnerDaemon.{escaped}
use snake_arena.Db.TestJobs.{TestMatchJob}
use snake_arena.Db.Projects.Builds.{image}
use snake_arena.Runner.ResultTests.{duel_analysis, duel_result}
use snake_arena.Db.AgentScores.{scored_rows}
use snake_arena.Orchestrator.TestRunner.Scores.{test_iteration-scored_rows}
use snake_arena.Orchestrator.TestRunner.{Store, Outside, run_one_iteration}

abbrev trial : TestMatchJob
trial = record {
  id = 5;
  status = queued;
  player_project_id = 11;
  opponent_project_ids = 12 ∷ [];
  sim_args = "{}";
  requested_by = none;
  requested_at = 1;
  started_at = none;
  finished_at = none;
  match_id = none;
  error = none;
  bundle_key = none;
  pinned = false;
  mode_id = none;
  avg_budget_ms = 50;
  score = none;
  score_breakdown = none;
}

abbrev store : Store ℕ
store = record {
  jobs = record { next_id = 6; rows = trial ∷ [] };
  tables = played;
  projects = contestants;
  modes = [];
  deleted = [];
}

abbrev outside : Outside ℕ
outside = record {
  claimed_at = 10;
  built_at = 10;
  started_at = 11;
  finished_at = 12;
  marked_at = 13;
  locked = λ i. false;
  match_uuid = "test-1";
  bundle_key = λ i. "test-matches/5/bundle.zip";
  validated = λ s. some s;
  build_run = λ p. image 3;
  prepared = true;
  run_match = λ s setup. record {
    reported = true;
    outcome = ok (record {
      success = true;
      error = none;
      init_failed_seats = [];
      replay_written = true;
      result = duel_result;
    });
  };
  dev_reached_start = true;
  step_count = 9;
  verdict_stored = true;
  close_error = none;
  analyze = ok duel_analysis;
  bundle_stored = true;
  budget_of = λ n. n;
  stored_score = λ s. (s.score, "");
  text = λ e. "failed";
  agent_name = λ i. if i == 0 then "agent_0" else "agent_1";
}

-- The job points at its match.
stored_trial :
    map (λ j. j.match_id) (run_one_iteration hundredths outside store).1.jobs.rows ≡ some 4 ∷ []
unfolding run_one_iteration
stored_trial = refl

-- A redis client that cannot be made leaves the job running.
left_running :
    let r = run_one_iteration hundredths (record outside { prepared = false }) store in
    (r.0 ≡ escaped) × (map (λ j. j.status) r.1.jobs.rows ≡ running ∷ [])
unfolding run_one_iteration
left_running = (refl, refl)

-- The match of the test is stored beside the ranked ones.
test_iteration-scored_rows_example :
    let v = (run_one_iteration hundredths outside store).1 in
    scored_rows 7 v.projects v.tables ≡ scored_rows 7 contestants played
test_iteration-scored_rows_example =
    test_iteration-scored_rows ℕ hundredths outside 7 store
      (omega arith, (omega arith, (omega arith, tt)))

-- ===== src/Orchestrator/DaemonTests.antt =====
-- Runs of the models of runner_daemon.py and of the queries of matchmaker.py at concrete inputs.
use snake_arena.Prelude.{
  ℕ, ◌≡◌, refl, true, false, ◌==◌, nat_key, none, some, [], ◌∷◌, map, All, if◌then◌else◌,
}
use snake_arena.Prelude.Result.{ok, err}
use snake_arena.Scoring.Tests.{hundredths}
use snake_arena.Db.Rows.Sorted.{IsSorted}
use snake_arena.Db.ScoreTests.{contestants, played, owned_by}
use snake_arena.Db.Projects.{Projects}
use snake_arena.Db.MatchJobs.{MatchJob, queued, running}
use snake_arena.Runner.ResultTests.{duel_analysis, duel_result}
use snake_arena.Orchestrator.Matchmaker.Queries.{
  list_underplayed_versions, list_all_submitted_versions,
}
use snake_arena.Orchestrator.Matchmaker.Queries.Underplayed.{
  IsWanted, fewer, list_underplayed_versions-IsWanted,
}
use snake_arena.Orchestrator.RunnerDaemon.{Store, Outside, interrupt, escaped, run_one_iteration}

abbrev duel_job : MatchJob
duel_job = record {
  id = 5;
  status = queued;
  mode_id = 7;
  project_ids = 11 ∷ 12 ∷ [];
  sim_args = "{}";
  requested_by = none;
  requested_at = 1;
  started_at = none;
  finished_at = none;
  match_id = none;
  error = none;
}

abbrev store : Store ℕ
store = record {
  jobs = record { next_id = 6; rows = duel_job ∷ [] };
  tables = played;
  projects = contestants;
  modes = 7 ∷ [];
}

abbrev outside : Outside ℕ
outside = record {
  claimed_at = 10;
  started_at = 11;
  finished_at = 12;
  marked_at = 13;
  locked = λ i. false;
  match_uuid = "match-1";
  bundle_key = "matches/match-1/bundle.zip";
  validated = λ s. some s;
  prepared = true;
  run_match = λ s setup. ok (record {
    success = true;
    error = none;
    init_failed_seats = [];
    replay_written = true;
    result = duel_result;
  });
  close_error = none;
  analyze = ok duel_analysis;
  bundle_stored = true;
  text = λ e. "failed";
  agent_name = λ i. if i == 0 then "agent_0" else "agent_1";
}

-- The match is stored, with its two participants, and the job points at it.
stored_duel :
    map (λ j. j.match_id) (run_one_iteration hundredths outside store).1.jobs.rows ≡ some 4 ∷ []
unfolding run_one_iteration
stored_duel = refl

-- Ctrl-C in the match leaves the job running.
abbrev stopped : Outside ℕ
stopped = record outside { run_match = λ s setup. err interrupt }

left_running :
    let r = run_one_iteration hundredths stopped store in
    (r.0 ≡ escaped) × (map (λ j. j.status) r.1.jobs.rows ≡ running ∷ [])
unfolding run_one_iteration
left_running = (refl, refl)

abbrev with_crashed : Projects
with_crashed = record (owned_by 1 14 1) { submitted_crashed = true } ∷ contestants

list_underplayed_versions-IsWanted_example :
    let found = list_underplayed_versions 7 2 10 with_crashed played store.jobs in
    All (IsWanted 7 10 with_crashed played store.jobs with_crashed) found
    × IsSorted (fewer 7 10 with_crashed played store.jobs) found
list_underplayed_versions-IsWanted_example =
    list_underplayed_versions-IsWanted 7 10 with_crashed played store.jobs 2

underplayed_of_duel :
    map (λ s. s.matches_played) (list_underplayed_versions 7 2 10 with_crashed played store.jobs)
    ≡ 1 ∷ 3 ∷ 3 ∷ []
unfolding list_underplayed_versions
underplayed_of_duel = refl

-- The version that crashed is among those that a group is filled from.
crashed_is_listed :
    map (λ v. v.project_id) (list_all_submitted_versions with_crashed) ≡ 14 ∷ 11 ∷ 12 ∷ 13 ∷ []
unfolding list_all_submitted_versions
crashed_is_listed = refl

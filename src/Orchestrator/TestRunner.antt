-- ===== src/Orchestrator/TestRunner.antt =====
-- services/orchestrator/orchestrator/test_runner_daemon.py: one cycle of claiming and running a test job. The
-- build, the match, the analyzer, the storage of the bundle and the reading of the arguments are given; what
-- is published to live viewers is left out.
pub mod Escapes
pub mod Settles
pub mod Scores
use Prim.Native.String.{String}
use snake_arena.Prelude.{
  ℕ, zero, suc, Bool, true, false, ◌&&◌, not, Option, none, some, List, [], ◌∷◌, ◌++◌, ◌==◌,
  nat_key, string_key, ltb, if◌then◌else◌,
}
use snake_arena.Prelude.Dict.{lookup}
use snake_arena.Prelude.Result.{Result, ok, err, ◌>>=◌}
use snake_arena.Scoring.Numbers.{Float}
use snake_arena.Types.{ParticipantRow}
use snake_arena.Db.TestJobs.{
  TestMatchJob, TestTable, claim_one_queued_test_job, mark_test_job_success, mark_test_job_failure,
  prune_unpinned_test_jobs,
}
use snake_arena.Db.Matches.{MatchTables, success, failure, record_match_result}
use snake_arena.Db.AgentScores.{ModeScoring}
use snake_arena.Db.AgentScores.TestScores.{TestScore, score_test_match}
use snake_arena.Db.Projects.{
  Project, Projects, BuildStatus, saved, building, built, ready, crashed, failed,
  record_dev_build_validated, record_dev_build_crashed, mark_submitted_crashed,
}
use snake_arena.Db.Projects.Reads.{get_project_meta}
use snake_arena.Db.Projects.Builds.{BuildRun, BuildResult, succeeded, build_project}
use snake_arena.Runner.Results.{Analysis, MatchResult, ResultError, build_participants}
use snake_arena.Orchestrator.Agents.{AgentSetup, SetupError, not_found, resolve_test_agents}
use snake_arena.Orchestrator.RunnerDaemon.{
  Played, Raised, exception, interrupt, Ending, idle, worked, escaped, spec_at,
}

-- The tables that an iteration writes, the modes, and the bundles that it has asked to delete.
pub record Store (W : Type 0) : Type 0 where
  pub jobs : TestTable
  pub tables : MatchTables W
  pub projects : Projects
  pub modes : List (ModeScoring W)
  pub deleted : List String

-- How `run_match` ends: whether it called `on_match_result`, and what it returned or raised.
pub record Ran (W : Type 0) : Type 0 where
  pub reported : Bool
  pub outcome : Result Raised (Played W)

-- What ends the body of the `try`.
pub data Failure : Type 0 where
  bad_sim_args no_such_seat interrupted : Failure
  setup : SetupError → Failure
  build_failed : BuildResult → Failure
  raised : String → Failure
  no_rows : ResultError → Failure

-- What is outside: the clock, names, the observer, and the calls of other programs.
pub record Outside (W : Type 0) : Type 0 where
  pub claimed_at : ℕ
  pub built_at : ℕ
  pub started_at : ℕ
  pub finished_at : ℕ
  pub marked_at : ℕ
  pub locked : ℕ → Bool
  pub match_uuid : String
  pub bundle_key : ℕ → String
  pub validated : String → Option String
  pub build_run : Project → BuildRun
  -- whether the directory, the redis client and the observers, which stand before the `try`, can be made
  pub prepared : Bool
  pub run_match : String → AgentSetup → Ran W
  -- `observer.dev_reached_start` and `observer.step_count` at the end of the match
  pub dev_reached_start : Bool
  pub step_count : ℕ
  -- whether the verdict on the build could be written
  pub verdict_stored : Bool
  pub close_error : Option Raised
  pub analyze : Result Raised Analysis
  pub bundle_stored : Bool
  pub budget_of : ℕ → W
  pub stored_score : TestScore W → ℕ × String
  pub text : Failure → String
  pub agent_name : ℕ → String

-- `dev_build_status in ("built", "ready", "crashed")`
abbrev pub is_compiled : Option BuildStatus → Bool
is_compiled (some built) = true
is_compiled (some ready) = true
is_compiled (some crashed) = true
is_compiled _ = false

-- The quarantine of the opponents whose image failed the probe; seat 0 is the player's.
unfoldable pub quarantine_opponents : AgentSetup → List ℕ → Projects → Projects × Option Failure
unfolding mark_submitted_crashed
quarantine_opponents s [] projects = (projects, none)
quarantine_opponents s (zero ∷ seats) projects = quarantine_opponents s seats projects
quarantine_opponents s (suc seat ∷ seats) projects = elim (spec_at (suc seat) s.specs) [
  | none ↦ (projects, some no_such_seat)
  | some spec ↦ elim (lookup spec.name s.project_by_name) [
    | none ↦ quarantine_opponents s seats projects
    | some project ↦ quarantine_opponents s seats (mark_submitted_crashed project projects)
  ]
]

abbrev pub is_built : BuildResult → Bool
is_built (succeeded tag) = true
is_built _ = false

module _ {W : Type 0} (f : Float W) (o : Outside W) where
  -- `result.run_analysis = run_analysis`
  abbrev pub analyzed : Analysis → MatchResult W → MatchResult W
  analyzed a r = record r { run_analysis = some a }

  abbrev pub raise : Raised → Failure
  raise (exception e) = raised e
  raise interrupt = interrupted

  abbrev pub raises {ℓ} : {A : Type ℓ} → Result Raised A → Result Failure A
  raises (ok a) = ok a
  raises (err e) = err (raise e)

  abbrev sets_up : Result SetupError AgentSetup → Result Failure AgentSetup
  sets_up (ok s) = ok s
  sets_up (err e) = err (setup e)

  abbrev pub rows_or :
      Result ResultError (List (ParticipantRow W)) → Result Failure (List (ParticipantRow W))
  rows_or (ok rows) = ok rows
  rows_or (err e) = err (no_rows e)

  -- The player's image, built unless there is one of the current code; an error keeps what was written.
  unfoldable pub ensure_built : ℕ → Projects → Projects × Option Failure
  unfolding get_project_meta build_project
  ensure_built player projects = elim (get_project_meta player projects) [
    | none ↦ (projects, some (setup (not_found player)))
    | some meta ↦
        if is_compiled meta.dev_build_status
        then (projects, none)
        else let b = build_project o.built_at player o.build_run projects in
          if is_built b.0 then (b.1, none) else (b.1, some (build_failed b.0))
  ]

  -- `on_match_result`, as far as it writes to the database.
  unfoldable pub on_match_result : ℕ → Projects → Projects
  unfolding record_dev_build_validated record_dev_build_crashed
  on_match_result player projects =
      if o.verdict_stored
      then if o.dev_reached_start
        then record_dev_build_validated player projects
        else record_dev_build_crashed player projects
      else projects

  -- From the end of the match to the participants.
  unfoldable pub participants_of :
      AgentSetup → Played W → Option Failure → Result Failure (List (ParticipantRow W))
  unfolding build_participants
  participants_of s played (some e) = err e
  participants_of s played none = elim o.close_error [
    | some e ↦ err (raise e)
    | none ↦
        if played.success && (ltb 0 o.step_count && played.replay_written)
        then (do
          a ← raises o.analyze
          rows_or (
              build_participants f (analyzed a played.result) s.project_by_name s.version_by_name
                s.seat_by_name))
        else ok []
  ]

  -- The score; an exception leaves the job without one.
  unfoldable pub score_of : TestMatchJob → List (ParticipantRow W) → Store W → Option (ℕ × String)
  unfolding score_test_match
  score_of job [] w = none
  score_of job (r ∷ rows) w =
      elim (score_test_match f (r ∷ rows) 0 (o.budget_of job.avg_budget_ms) job.mode_id w.modes
        w.projects w.tables) [
          | err e ↦ none
          | ok scored ↦ elim scored [ none ↦ none | some s ↦ some (o.stored_score s) ]
        ]

  -- A prune of the player's jobs, and the deletion of the bundles that it frees.
  unfoldable pub prune : TestMatchJob → Store W → Store W
  unfolding prune_unpinned_test_jobs
  prune job w =
      let pruned = prune_unpinned_test_jobs job.player_project_id w.jobs in
      record w { jobs = pruned.1; deleted = w.deleted ++ pruned.0 }

  -- The last atomic block and the deletion after it.
  unfoldable pub persist :
      TestMatchJob → String → Played W → List (ParticipantRow W) → Store W → Store W
  unfolding record_match_result mark_test_job_success score_of prune
  persist job sim_args played rows w =
      let key = if o.bundle_stored then some (o.bundle_key job.id) else none in
      let stored =
        record_match_result W
          record {
            match_uuid = o.match_uuid;
            status = if played.success then success else failure;
            mode_id = none;
            sim_args = sim_args;
            started_at = o.started_at;
            finished_at = o.finished_at;
            bundle_key = key;
            error = played.error;
            is_test = true;
          }
          rows w.tables in
      prune job (record w {
        tables = stored.1;
        jobs = mark_test_job_success o.marked_at job.id stored.0 key (score_of job rows w) w.jobs;
      })

  -- The handlers of the exceptions.
  unfoldable pub fail : TestMatchJob → Failure → Store W → Store W
  unfolding mark_test_job_failure prune
  fail job e w =
      prune job (record w { jobs = mark_test_job_failure o.marked_at job.id (o.text e) w.jobs })

  -- An interrupt passes the handlers and leaves the tables as they are.
  unfoldable pub handle : TestMatchJob → Failure → Store W → Ending × Store W
  unfolding fail
  handle job interrupted w = (escaped, w)
  handle job e w = (worked, fail job e w)

  -- What follows a match that returned.
  unfoldable pub finish_match :
      TestMatchJob → String → AgentSetup → Played W → Store W → Ending × Store W
  unfolding quarantine_opponents participants_of persist handle
  finish_match job sim_args s played w =
      let q = quarantine_opponents s played.init_failed_seats w.projects in
      let w' = record w { projects = q.0 } in
      elim (participants_of s played q.1) [
        | err e ↦ handle job e w'
        | ok rows ↦ (worked, persist job sim_args played rows w')
      ]

  -- The match, with the verdict that is written while it runs.
  unfoldable pub play_match : TestMatchJob → String → AgentSetup → Store W → Ending × Store W
  unfolding on_match_result finish_match handle
  play_match job sim_args s w =
      let ran = o.run_match sim_args s in
      let w' = record w {
        projects =
            if ran.reported then on_match_result job.player_project_id w.projects else w.projects;
      } in
      elim ran.outcome [
        | err e ↦ handle job (raise e) w'
        | ok played ↦ finish_match job sim_args s played w'
      ]

  abbrev pub built_then :
      TestMatchJob → String → Projects × Option Failure → Store W → Ending × Store W
  built_then job sim_args (projects, some e) w = handle job e (record w { projects = projects })
  built_then job sim_args (projects, none) w =
      elim (sets_up (
        resolve_test_agents o.agent_name projects job.player_project_id job.opponent_project_ids)) [
          | err e ↦ handle job e (record w { projects = projects })
          | ok s ↦ play_match job sim_args s (record w { projects = projects })
        ]

  -- The body of the `try` with its handlers, for a job that is claimed.
  unfoldable pub run_job : TestMatchJob → Store W → Ending × Store W
  unfolding ensure_built resolve_test_agents play_match handle
  run_job job w = elim (o.validated job.sim_args) [
    | none ↦ handle job bad_sim_args w
    | some sim_args ↦ built_then job sim_args (ensure_built job.player_project_id w.projects) w
  ]

  -- `run_one_iteration`
  unfoldable pub run_one_iteration : Store W → Ending × Store W
  unfolding claim_one_queued_test_job run_job
  run_one_iteration w =
      let c = claim_one_queued_test_job o.claimed_at o.locked w.jobs in
      let w' = record w { jobs = c.1 } in
      elim c.0 [
        | none ↦ (idle, w)
        | some job ↦ if o.prepared then run_job job w' else (escaped, w')
      ]

-- ===== src/Orchestrator/RunnerDaemon.antt =====
-- services/orchestrator/orchestrator/runner_daemon.py: one cycle of claiming and running a ranked job. The
-- match itself, the analyzer, the storage of the bundle and the reading of the arguments are given.
pub mod Escapes
pub mod Settles
use Prim.Native.String.{String}
use snake_arena.Prelude.{
  ℕ, zero, suc, Bool, true, false, ◌&&◌, not, Option, none, some, List, [], ◌∷◌, ◌==◌, nat_key,
  string_key, if◌then◌else◌,
}
use snake_arena.Prelude.Dict.{Dict, lookup}
use snake_arena.Prelude.Result.{Result, ok, err, ◌>>=◌}
use snake_arena.Scoring.Numbers.{Float}
use snake_arena.Types.{ParticipantRow}
use snake_arena.Db.MatchJobs.{
  MatchJob, JobTable, claim_one_queued_job, mark_job_success, mark_job_failure,
}
use snake_arena.Db.Matches.{MatchTables, MatchData, success, failure, record_match_result}
use snake_arena.Db.Projects.{Projects, mark_submitted_crashed}
use snake_arena.Runner.Results.{MatchResult, Analysis, ResultError, build_participants}
use snake_arena.Orchestrator.Agents.{AgentSetup, AgentSpec, SetupError, resolve_agents}

-- The tables that an iteration writes, and the modes that there are.
pub record Store (W : Type 0) : Type 0 where
  pub jobs : JobTable
  pub tables : MatchTables W
  pub projects : Projects
  pub modes : List ℕ

-- What `run_match` returns, and whether a replay was written.
pub record Played (W : Type 0) : Type 0 where
  pub success : Bool
  pub error : Option String
  pub init_failed_seats : List ℕ
  pub replay_written : Bool
  pub result : MatchResult W

-- What a call raises: an `Exception`, or the interrupt, which `except Exception` does not catch.
pub data Raised : Type 0 where
  exception : String → Raised
  interrupt : Raised

-- How an iteration ends: no job to claim, a job worked on, or an exception that leaves it.
pub data Ending : Type 0 where
  idle worked escaped : Ending

-- What ends the body of the `try`.
pub data Failure : Type 0 where
  bad_sim_args missing_mode no_replay no_such_seat interrupted : Failure
  setup : SetupError → Failure
  crashed : String → Failure
  no_rows : ResultError → Failure

-- What is outside: the clock, names, and the calls of other programs.
pub record Outside (W : Type 0) : Type 0 where
  pub claimed_at : ℕ
  pub started_at : ℕ
  pub finished_at : ℕ
  pub marked_at : ℕ
  pub locked : ℕ → Bool
  pub match_uuid : String
  pub bundle_key : String
  -- the JSON of the arguments that `model_validate` makes of a job's
  pub validated : String → Option String
  -- whether the directory and the observer of the replay, which stand before the `try`, can be made
  pub prepared : Bool
  pub run_match : String → AgentSetup → Result Raised (Played W)
  -- the exception of `file_observer.close()`
  pub close_error : Option Raised
  pub analyze : Result Raised Analysis
  pub bundle_stored : Bool
  pub text : Failure → String
  pub agent_name : ℕ → String

abbrev pub has_mode : ℕ → List ℕ → Bool
has_mode i [] = false
has_mode i (m ∷ ms) = if m == i then true else has_mode i ms

-- `setup.specs[seat].name`
abbrev pub spec_at : ℕ → List AgentSpec → Option AgentSpec
spec_at i [] = none
spec_at zero (s ∷ ss) = some s
spec_at (suc i) (s ∷ ss) = spec_at i ss

-- The quarantine of the images that failed the probe; an exception keeps what is marked so far.
unfoldable pub quarantine : AgentSetup → List ℕ → Projects → Projects × Option Failure
unfolding mark_submitted_crashed
quarantine s [] projects = (projects, none)
quarantine s (seat ∷ seats) projects = elim (spec_at seat s.specs) [
  | none ↦ (projects, some no_such_seat)
  | some spec ↦ elim (lookup spec.name s.project_by_name) [
    | none ↦ quarantine s seats projects
    | some project ↦ quarantine s seats (mark_submitted_crashed project projects)
  ]
]

module _ {W : Type 0} (f : Float W) (o : Outside W) where
  abbrev pub with_analysis : Analysis → MatchResult W → MatchResult W
  with_analysis a r = record r { run_analysis = some a }

  abbrev pub crash : Raised → Failure
  crash (exception e) = crashed e
  crash interrupt = interrupted

  abbrev pub crashes {ℓ} : {A : Type ℓ} → Result Raised A → Result Failure A
  crashes (ok a) = ok a
  crashes (err e) = err (crash e)

  abbrev pub sets_up : Result SetupError AgentSetup → Result Failure AgentSetup
  sets_up (ok s) = ok s
  sets_up (err e) = err (setup e)

  abbrev pub rows_or :
      Result ResultError (List (ParticipantRow W)) → Result Failure (List (ParticipantRow W))
  rows_or (ok rows) = ok rows
  rows_or (err e) = err (no_rows e)

  -- Up to the end of the match: the setup and what was played.
  unfoldable pub play : Store W → MatchJob → Result Failure (String × (AgentSetup × Played W))
  unfolding resolve_agents
  play w job = elim (o.validated job.sim_args) [
    | none ↦ err bad_sim_args
    | some sim_args ↦
        if has_mode job.mode_id w.modes
        then (do
          s ← sets_up (resolve_agents o.agent_name w.projects job.project_ids)
          played ← crashes (o.run_match sim_args s)
          ok (sim_args, (s, played)))
        else err missing_mode
  ]

  -- From the quarantine to the participants.
  unfoldable pub participants_of :
      AgentSetup → Played W → Option Failure → Result Failure (List (ParticipantRow W))
  unfolding build_participants
  participants_of s played (some e) = err e
  participants_of s played none = elim o.close_error [
    | some e ↦ err (crash e)
    | none ↦
        if played.success && played.replay_written
        then (do
          a ← crashes o.analyze
          rows_or (
              build_participants f (with_analysis a played.result) s.project_by_name
                s.version_by_name s.seat_by_name))
        else err no_replay
  ]

  -- The second atomic block: the match with its participants, and the job's status.
  unfoldable pub persist :
      MatchJob → String → Played W → List (ParticipantRow W) → Store W → Store W
  unfolding record_match_result mark_job_success
  persist job sim_args played rows w =
      let stored =
        record_match_result W
          record {
            match_uuid = o.match_uuid;
            status = if played.success then success else failure;
            mode_id = some job.mode_id;
            sim_args = sim_args;
            started_at = o.started_at;
            finished_at = o.finished_at;
            bundle_key = if o.bundle_stored then some o.bundle_key else none;
            error = played.error;
            is_test = false;
          }
          rows w.tables in
      record w { tables = stored.1; jobs = mark_job_success o.marked_at job.id stored.0 w.jobs }

  -- The handlers of the exceptions.
  unfoldable pub fail : MatchJob → Failure → Store W → Store W
  unfolding mark_job_failure
  fail job e w = record w { jobs = mark_job_failure o.marked_at job.id (o.text e) w.jobs }

  -- An interrupt passes the handlers and leaves the tables as they are.
  unfoldable pub handle : MatchJob → Failure → Store W → Ending × Store W
  unfolding fail
  handle job interrupted w = (escaped, w)
  handle job e w = (worked, fail job e w)

  -- The body of the `try` with its handlers, for a job that is claimed.
  unfoldable pub run_job : MatchJob → Store W → Ending × Store W
  unfolding play quarantine participants_of persist handle
  run_job job w = elim (play w job) [
    | err e ↦ handle job e w
    | ok (sim_args, (s, played)) ↦
        let q = quarantine s played.init_failed_seats w.projects in
        let w' = record w { projects = q.0 } in
        elim (participants_of s played q.1) [
          | err e ↦ handle job e w'
          | ok rows ↦ (worked, persist job sim_args played rows w')
        ]
  ]

  -- `run_one_iteration`
  unfoldable pub run_one_iteration : Store W → Ending × Store W
  unfolding claim_one_queued_job run_job
  run_one_iteration w =
      let c = claim_one_queued_job o.claimed_at o.locked w.jobs in
      let w' = record w { jobs = c.1 } in
      elim c.0 [
        | none ↦ (idle, w)
        | some job ↦ if o.prepared then run_job job w' else (escaped, w')
      ]

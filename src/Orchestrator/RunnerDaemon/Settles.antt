-- ===== src/Orchestrator/RunnerDaemon/Settles.antt =====
-- services/orchestrator/orchestrator/runner_daemon.py: how an iteration ends.
use snake_arena.Prelude.{ℕ, ◌≡◌, ◌⊎◌, true, Option, none, some, [], ◌∷◌, ◌++◌, All}
use snake_arena.Scoring.Numbers.{Float}
use Prim.Native.String.{String}
use snake_arena.Db.Matches.{Match, success as match_success}
use snake_arena.Db.MatchJobs.{MatchJob, JobTable, success, failure, has_id}
use snake_arena.Orchestrator.RunnerDaemon.{Store, Outside, Ending, idle, worked, escaped}
use snake_arena.Orchestrator.RunnerDaemon.Escapes.{Escape}

module _ {W : Type 0} where
  -- The job has failed and no match is stored, or it has succeeded and points at the one new match.
  pub record HasFailed (i : ℕ) (w w' : Store W) : Type 0 where
    pub same_tables : w'.tables ≡ w.tables
    pub failed : All (λ j. has_id i j ≡ true → j.status ≡ failure) w'.jobs.rows

  pub record HasSucceeded (i : ℕ) (w w' : Store W) : Type 0 where
    pub match : Match
    pub one_more : w'.tables.matches ≡ w.tables.matches ++ match ∷ []
    pub is_success : match.status ≡ match_success
    pub fresh : match.id ≡ w.tables.next_id
    pub succeeded :
        All
          (λ j. has_id i j ≡ true → (j.status ≡ success) × (j.match_id ≡ some match.id))
          w'.jobs.rows

  abbrev pub IsSettled : ℕ → Store W → Store W → Type 0
  IsSettled i w w' = HasFailed i w w' ⊎ HasSucceeded i w w'

  module _ (f : Float W) (o : Outside W) where
    -- The job is as it was claimed and no match is stored.
    pub record IsLeft (w w' : Store W) : Type 0 where
      pub cause : Escape o
      pub same_jobs : w'.jobs ≡ w.jobs
      pub same_matches : w'.tables ≡ w.tables

    -- The iteration comes to its end with the job settled, or is left.
    abbrev pub IsEnded : ℕ → Store W → Ending × Store W → Type 0
    IsEnded i w r = ((r.0 ≡ worked) × IsSettled i w r.1) ⊎ ((r.0 ≡ escaped) × IsLeft w r.1)

    -- What one iteration is to have done with the job that it claims.
    abbrev pub IsDone : Option MatchJob × JobTable → Store W → Ending × Store W → Type 0
    IsDone (none, jobs) w result = result ≡ (idle, w)
    IsDone (some job, jobs) w result = IsEnded job.id (record w { jobs = jobs }) result

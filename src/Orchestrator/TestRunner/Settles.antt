-- ===== src/Orchestrator/TestRunner/Settles.antt =====
-- services/orchestrator/orchestrator/test_runner_daemon.py: how an iteration ends.
use Prim.Native.String.{String}
use snake_arena.Prelude.{ℕ, ◌≡◌, ◌⊎◌, true, Option, none, some, [], ◌∷◌, ◌++◌, All}
use snake_arena.Scoring.Numbers.{Float}
use snake_arena.Db.Projects.{Projects}
use snake_arena.Db.Matches.{Match, MatchTables}
use snake_arena.Db.MatchJobs.{success, failure}
use snake_arena.Db.TestJobs.{TestMatchJob, TestTable, has_id}
use snake_arena.Orchestrator.RunnerDaemon.{Ending, idle, worked, escaped}
use snake_arena.Orchestrator.TestRunner.{Store, Outside}
use snake_arena.Orchestrator.TestRunner.Escapes.{Escape}

module _ {W : Type 0} where
  -- The job is gone or has failed, and no match is stored.
  pub record HasFailed (i : ℕ) (t : MatchTables W) (w : Store W) : Type 0 where
    pub same_tables : w.tables ≡ t
    pub failed : All (λ j. has_id i j ≡ true → j.status ≡ failure) w.jobs.rows

  -- The job is gone or a success that points at the one new match, which is marked as a test.
  pub record HasSucceeded (i : ℕ) (t : MatchTables W) (w : Store W) : Type 0 where
    pub match : Match
    pub one_more : w.tables.matches ≡ t.matches ++ match ∷ []
    pub of_test : match.is_test ≡ true
    pub no_mode : match.mode_id ≡ none
    pub fresh : match.id ≡ t.next_id
    pub succeeded :
        All
          (λ j. has_id i j ≡ true → (j.status ≡ success) × (j.match_id ≡ some match.id))
          w.jobs.rows

  abbrev pub IsSettled : ℕ → MatchTables W → Store W → Type 0
  IsSettled i t w = HasFailed i t w ⊎ HasSucceeded i t w

  module _ (f : Float W) (o : Outside W) where
    -- The jobs are as they were claimed and no match is stored.
    pub record IsLeft (jobs : TestTable) (t : MatchTables W) (w : Store W) : Type 0 where
      pub cause : Escape o
      pub same_jobs : w.jobs ≡ jobs
      pub same_matches : w.tables ≡ t

    -- The iteration comes to its end with the job settled, or is left.
    abbrev pub IsEnded : ℕ → TestTable → MatchTables W → Ending × Store W → Type 0
    IsEnded i jobs t r =
        ((r.0 ≡ worked) × IsSettled i t r.1) ⊎ ((r.0 ≡ escaped) × IsLeft jobs t r.1)

    -- What one iteration is to have done with the job that it claims.
    abbrev pub IsDone : Option TestMatchJob × TestTable → Store W → Ending × Store W → Type 0
    IsDone (none, jobs) w result = result ≡ (idle, w)
    IsDone (some job, jobs) w result = IsEnded job.id jobs w.tables result

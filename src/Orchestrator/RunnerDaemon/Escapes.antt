-- ===== src/Orchestrator/RunnerDaemon/Escapes.antt =====
-- services/orchestrator/orchestrator/runner_daemon.py: the exceptions that no handler of an iteration catches.
use Prim.Native.String.{String}
use snake_arena.Prelude.{
  ℕ, ◌≡◌, ◌≢◌, ◌∙◌, refl, ap, arith, by_if, by_found, by_option, false, ◌&&◌, Option, none, some,
  List, [], ◌∷◌, nat_key, string_key,
}
use snake_arena.Prelude.Dict.{lookup}
use snake_arena.Prelude.Result.{Result, ok, err, by_result}
use snake_arena.Scoring.Numbers.{Float}
use snake_arena.Types.{ParticipantRow}
use snake_arena.Db.MatchJobs.{MatchJob}
use snake_arena.Db.Projects.{Projects, mark_submitted_crashed}
use snake_arena.Runner.Results.{ResultError}
use snake_arena.Orchestrator.Agents.{AgentSetup, SetupError, resolve_agents}
use snake_arena.Orchestrator.RunnerDaemon.{
  Store, Played, Raised, exception, interrupt, Failure, interrupted, Outside, crash, crashes,
  sets_up, rows_or, has_mode, spec_at, play, quarantine, participants_of,
}

-- What lets an exception leave the iteration: the preparation, or an interrupt in one of the calls.
pub data Escape {W : Type 0} (o : Outside W) : Type 0 where
  in_preparation : o.prepared ≡ false → Escape o
  in_match :
      (sim_args : String) (s : AgentSetup) → o.run_match sim_args s ≡ err interrupt → Escape o
  in_close : o.close_error ≡ some interrupt → Escape o
  in_analysis : o.analyze ≡ err interrupt → Escape o

pub quarantine_safe :
    (s : AgentSetup) (seats : List ℕ) (projects : Projects)
    → (quarantine s seats projects).1 ≢ some interrupted
unfolding quarantine
quarantine_safe s [] projects = ground arith
quarantine_safe s (seat ∷ seats) projects =
    by_option (λ (r : Projects × Option Failure). r.1 ≢ some interrupted) (spec_at seat s.specs) _ _
      (λ h. cc)
      λ spec _.
        by_option (λ (r : Projects × Option Failure). r.1 ≢ some interrupted)
          (lookup spec.name s.project_by_name) _ _ (quarantine_safe s seats projects)
          λ i _. quarantine_safe s seats (mark_submitted_crashed i projects)

module _ {W : Type 0} (f : Float W) (o : Outside W) where
  crash_interrupted : (r : Raised) → crash f o r ≡ interrupted → r ≡ interrupt
  crash_interrupted (exception e) h = cc
  crash_interrupted interrupt h = refl

  crashes_interrupted {ℓ} :
      {A : Type ℓ} (r : Result Raised A) (e : Failure)
      → crashes f o r ≡ err e
      → e ≡ interrupted
      → r ≡ err interrupt
  crashes_interrupted (ok a) e h i = cc
  crashes_interrupted (err (exception x)) e h i = cc
  crashes_interrupted (err interrupt) e h i = refl

  sets_up_safe :
      (r : Result SetupError AgentSetup) (e : Failure) → sets_up f o r ≡ err e → e ≢ interrupted
  sets_up_safe (ok s) e h i = cc
  sets_up_safe (err x) e h i = cc

  rows_or_safe :
      (r : Result ResultError (List (ParticipantRow W))) → rows_or f o r ≢ err interrupted
  rows_or_safe (ok rows) h = cc
  rows_or_safe (err x) h = cc

  -- An interrupt that ends the body of the `try` has a cause.
  abbrev Explained {ℓ} : {A : Type ℓ} → Result Failure A → Type ℓ
  Explained r = r ≡ err interrupted → Escape o

  pub play-Explained : (w : Store W) (job : MatchJob) → play f o w job ≡ err interrupted → Escape o
  unfolding play
  play-Explained w job =
      let P : Result Failure (String × (AgentSetup × Played W)) → Type 0 = Explained in
      by_option P (o.validated job.sim_args) _ _ (λ h. cc)
        λ sim_args _.
          by_if P (has_mode job.mode_id w.modes) _ _
            (λ _.
              by_result P (sets_up f o (resolve_agents o.agent_name w.projects job.project_ids)) _ _
                (λ s _.
                  by_result P (crashes f o (o.run_match sim_args s)) _ _ (λ played _ h. cc)
                    λ e h i. in_match sim_args s (crashes_interrupted _ e h (ground arith)))
                λ e h i. absurd (sets_up_safe _ e h (ground arith)))
            λ _ h. cc

  pub participants_of-Explained :
      (s : AgentSetup) (played : Played W) (q : Option Failure)
      → q ≢ some interrupted
      → participants_of f o s played q ≡ err interrupted
      → Escape o
  unfolding participants_of
  participants_of-Explained s played (some e) safe = λ h. absurd (safe (ground arith))
  participants_of-Explained s played none safe =
      let P : Result Failure (List (ParticipantRow W)) → Type 0 = Explained in
      by_found P o.close_error _ _
        (λ closed.
          by_if P (played.success && played.replay_written) _ _
            (λ _.
              by_result P (crashes f o o.analyze) _ _ (λ a _ h. absurd (rows_or_safe _ h))
                λ e h i. in_analysis (crashes_interrupted _ e h (ground arith)))
            λ _ h. cc)
        λ e found h. in_close (found ∙ ap some (crash_interrupted e (ground arith)))

-- ===== src/Orchestrator/TestRunner/Escapes.antt =====
-- services/orchestrator/orchestrator/test_runner_daemon.py: the exceptions that no handler of an iteration
-- catches.
use Prim.Native.String.{String}
use snake_arena.Prelude.{
  ℕ, zero, suc, ltb, ◌≡◌, ◌≢◌, ◌∙◌, refl, ap, arith, by_if, by_found, by_option, false, ◌&&◌,
  Option, none, some, List, [], ◌∷◌, string_key,
}
use snake_arena.Prelude.Dict.{lookup}
use snake_arena.Prelude.Result.{Result, ok, err, by_result}
use snake_arena.Scoring.Numbers.{Float}
use snake_arena.Types.{ParticipantRow}
use snake_arena.Db.Projects.{Projects, mark_submitted_crashed}
use snake_arena.Db.Projects.Reads.{get_project_meta}
use snake_arena.Db.Projects.Builds.{build_project}
use snake_arena.Runner.Results.{ResultError}
use snake_arena.Orchestrator.Agents.{AgentSetup, SetupError}
use snake_arena.Orchestrator.RunnerDaemon.{Played, Raised, exception, interrupt, spec_at}
use snake_arena.Orchestrator.TestRunner.{
  Failure, interrupted, Outside, raise, raises, sets_up, rows_or, is_compiled, is_built,
  ensure_built, quarantine_opponents, participants_of,
}

-- What lets an exception leave the iteration: the preparation, or an interrupt in one of the calls.
pub data Escape {W : Type 0} (o : Outside W) : Type 0 where
  in_preparation : o.prepared ≡ false → Escape o
  in_match :
      (sim_args : String) (s : AgentSetup)
      → (o.run_match sim_args s).outcome ≡ err interrupt
      → Escape o
  in_close : o.close_error ≡ some interrupt → Escape o
  in_analysis : o.analyze ≡ err interrupt → Escape o

abbrev IsSafe : Projects × Option Failure → Type 0
IsSafe r = r.1 ≢ some interrupted

pub quarantine_safe :
    (s : AgentSetup) (seats : List ℕ) (projects : Projects)
    → (quarantine_opponents s seats projects).1 ≢ some interrupted
unfolding quarantine_opponents
quarantine_safe s [] projects = ground arith
quarantine_safe s (zero ∷ seats) projects = quarantine_safe s seats projects
quarantine_safe s (suc seat ∷ seats) projects =
    by_option IsSafe (spec_at (suc seat) s.specs) _ _ (λ h. cc)
      λ spec _.
        by_option IsSafe (lookup spec.name s.project_by_name) _ _ (quarantine_safe s seats projects)
          λ i _. quarantine_safe s seats (mark_submitted_crashed i projects)

module _ {W : Type 0} (f : Float W) (o : Outside W) where
  pub raise_interrupted : (r : Raised) → raise f o r ≡ interrupted → r ≡ interrupt
  raise_interrupted (exception e) h = cc
  raise_interrupted interrupt h = refl

  raises_interrupted {ℓ} :
      {A : Type ℓ} (r : Result Raised A) (e : Failure)
      → raises f o r ≡ err e
      → e ≡ interrupted
      → r ≡ err interrupt
  raises_interrupted (ok a) e h i = cc
  raises_interrupted (err (exception x)) e h i = cc
  raises_interrupted (err interrupt) e h i = refl

  pub sets_up_safe :
      (r : Result SetupError AgentSetup) (e : Failure) → sets_up f o r ≡ err e → e ≢ interrupted
  sets_up_safe (ok s) e h i = cc
  sets_up_safe (err x) e h i = cc

  rows_or_safe :
      (r : Result ResultError (List (ParticipantRow W))) → rows_or f o r ≢ err interrupted
  rows_or_safe (ok rows) h = cc
  rows_or_safe (err x) h = cc

  pub ensure_built_safe :
      (player : ℕ) (projects : Projects) → (ensure_built f o player projects).1 ≢ some interrupted
  unfolding ensure_built
  ensure_built_safe player projects =
      by_option IsSafe (get_project_meta player projects) _ _ (λ h. cc)
        λ m _.
          by_if IsSafe (is_compiled m.dev_build_status) _ _ (λ _ h. cc)
            λ _.
              by_if IsSafe (is_built (build_project o.built_at player o.build_run projects).0) _ _
                (λ _ h. cc) λ _ h. cc

  -- An interrupt that ends the body of the `try` has a cause.
  pub participants_of-Explained :
      (s : AgentSetup) (played : Played W) (q : Option Failure)
      → q ≢ some interrupted
      → participants_of f o s played q ≡ err interrupted
      → Escape o
  unfolding participants_of
  participants_of-Explained s played (some e) safe = λ h. absurd (safe (ground arith))
  participants_of-Explained s played none safe =
      let P : Result Failure (List (ParticipantRow W)) → Type 0 =
        λ r. r ≡ err interrupted → Escape o in
      by_found P o.close_error _ _
        (λ closed.
          by_if P (played.success && (ltb 0 o.step_count && played.replay_written)) _ _
            (λ _.
              by_result P (raises f o o.analyze) _ _ (λ a _ h. absurd (rows_or_safe _ h))
                λ e h i. in_analysis (raises_interrupted _ e h (ground arith)))
            λ _ h. cc)
        λ e found h. in_close (found ∙ ap some (raise_interrupted e (ground arith)))

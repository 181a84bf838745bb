-- ===== src/Orchestrator/TestRunner/Scores.antt =====
-- services/orchestrator/orchestrator/test_runner_daemon.py with sa_common/db/agent_scores.py: what an
-- iteration of the test runner does to the rows that the scores are computed from.
use Prim.Native.String.{String}
use snake_arena.Prelude.{
  ℕ, zero, suc, ◌≡◌, refl, ap, ◌∙◌, Bool, ◌&&◌, Option, none, some, List, [], ◌∷◌, arith, nat_key,
  string_key, by_if, by_option, if◌then◌else◌,
}
use snake_arena.Prelude.Dict.{lookup}
use snake_arena.Prelude.Result.{by_result}
use snake_arena.Scoring.Numbers.{Float}
use snake_arena.Types.{ParticipantRow}
use snake_arena.Db.Rows.{select_where, update_where, order_by}
use snake_arena.Db.Matches.{Participant, MatchTables}
use snake_arena.Db.Projects.{
  Project, Projects, is_browser, get_project, record_dev_build_start, record_dev_build_success,
  record_dev_build_failure, record_dev_build_validated, record_dev_build_crashed,
  mark_submitted_crashed,
}
use snake_arena.Db.Projects.Builds.{
  BuildResult, not_found, external_project, BuildRun, image, build_error, raises as build_raises,
  record_run, build_project,
}
use snake_arena.Db.Projects.Reads.{get_project_meta}
use snake_arena.Db.TestJobs.{TestMatchJob, claim_one_queued_test_job}
use snake_arena.Db.AgentScores.{any_ranked, is_latest, by_seat, scored_rows}
use snake_arena.Db.AgentScores.TestMatches.{IsBelow, scored_rows-record_test}
use snake_arena.Orchestrator.Agents.{AgentSetup, resolve_test_agents}
use snake_arena.Orchestrator.RunnerDaemon.{Played, spec_at}
use snake_arena.Orchestrator.RunnerDaemon.{Ending, idle, worked, escaped}
use snake_arena.Orchestrator.TestRunner.{
  Store, Failure, bad_sim_args, no_such_seat, build_failed, raised, no_rows, setup, interrupted,
  raise, handle, Outside, is_compiled, is_built, sets_up, on_match_result, quarantine_opponents,
  participants_of, prune, persist, fail, finish_match, play_match, built_then, ensure_built,
  run_job, run_one_iteration,
}

module _ (W : Type 0) where
  -- The same participants play for the latest version of their project.
  abbrev Alike : Projects → Projects → Type 0
  Alike qs ps = (p : Participant W) → is_latest qs p ≡ is_latest ps p

  Alike-update :
      (c : Project → Bool) (f : Project → Project)
      → ((q : Project) → (f q).id ≡ q.id)
      → ((q : Project) → (f q).submitted_version ≡ q.submitted_version)
      → (rows : Projects) → Alike (update_where c f rows) rows
  unfolding update_where
  Alike-update c f same_id same_version [] p = refl
  Alike-update c f same_id same_version (q ∷ rows) p =
      ground (arith, same_id q, same_version q, Alike-update c f same_id same_version rows p)

  select_same :
      (c d : Participant W → Bool)
      → ((p : Participant W) → c p ≡ d p)
      → (ps : List (Participant W)) → select_where c ps ≡ select_where d ps
  unfolding select_where
  select_same c d same [] = refl
  select_same c d same (p ∷ ps) = ground (arith, same p, select_same c d same ps)

  scored_rows-Alike :
      (mode_id : ℕ) (qs ps : Projects) (t : MatchTables W)
      → Alike qs ps
      → scored_rows mode_id qs t ≡ scored_rows mode_id ps t
  unfolding scored_rows
  scored_rows-Alike mode_id qs ps t alike = ap (order_by by_seat) (
      select_same _ _ (λ p. ap (λ b. any_ranked mode_id p.match_id t.matches && b) (alike p))
        t.participants)

  record_run-Alike :
      (now i : ℕ) (r : BuildRun) (rows : Projects) → Alike (record_run now i r rows).1 rows
  unfolding record_dev_build_success record_dev_build_failure
  record_run-Alike now i (image tag) rows = Alike-update _ _ (λ q. refl) (λ q. refl) rows
  record_run-Alike now i build_error rows = Alike-update _ _ (λ q. refl) (λ q. refl) rows
  record_run-Alike now i build_raises rows = Alike-update _ _ (λ q. refl) (λ q. refl) rows

  build_project-Alike :
      (now i : ℕ) (run : Project → BuildRun) (rows : Projects)
      → Alike (build_project now i run rows).1 rows
  unfolding build_project record_dev_build_start
  build_project-Alike now i run rows p =
      by_option (λ (r : BuildResult × Projects). is_latest r.1 p ≡ is_latest rows p)
        (get_project i rows) (not_found, rows)
        (λ q.
          if is_browser q.source
          then record_run now i (run q) (record_dev_build_start i rows)
          else (external_project, record_dev_build_start i rows))
        refl
        λ q _.
          let start : is_latest (record_dev_build_start i rows) p ≡ is_latest rows p =
            Alike-update _ _ (λ r. refl) (λ r. refl) rows p in
          by_if (λ (r : BuildResult × Projects). is_latest r.1 p ≡ is_latest rows p)
            (is_browser q.source) _ (external_project, record_dev_build_start i rows)
            (λ _. record_run-Alike now i (run q) (record_dev_build_start i rows) p ∙ start)
            λ _. start

  quarantine-Alike :
      (s : AgentSetup) (seats : List ℕ) (rows : Projects)
      → Alike (quarantine_opponents s seats rows).0 rows
  unfolding quarantine_opponents mark_submitted_crashed
  quarantine-Alike s [] rows p = refl
  quarantine-Alike s (zero ∷ seats) rows p = quarantine-Alike s seats rows p
  quarantine-Alike s (suc seat ∷ seats) rows p =
      by_option (λ (r : Projects × Option Failure). is_latest r.0 p ≡ is_latest rows p)
        (spec_at (suc seat) s.specs) (rows, some no_such_seat) _ refl
        λ spec _.
          by_option (λ (r : Projects × Option Failure). is_latest r.0 p ≡ is_latest rows p)
            (lookup spec.name s.project_by_name) (quarantine_opponents s seats rows)
            (λ i. quarantine_opponents s seats (mark_submitted_crashed i rows))
            (quarantine-Alike s seats rows p)
            λ i _.
              quarantine-Alike s seats (mark_submitted_crashed i rows) p
              ∙ Alike-update _ _ (λ q. refl) (λ q. refl) rows p

  module _ (f : Float W) (o : Outside W) where
    on_match_result-Alike : (i : ℕ) (rows : Projects) → Alike (on_match_result f o i rows) rows
    unfolding on_match_result record_dev_build_validated record_dev_build_crashed
    on_match_result-Alike i rows p =
        by_if (λ (r : Projects). is_latest r p ≡ is_latest rows p) o.verdict_stored _ rows
          (λ _.
            by_if (λ (r : Projects). is_latest r p ≡ is_latest rows p) o.dev_reached_start
              (record_dev_build_validated i rows) (record_dev_build_crashed i rows)
              (λ _. Alike-update _ _ (λ q. refl) (λ q. refl) rows p)
              λ _. Alike-update _ _ (λ q. refl) (λ q. refl) rows p)
          λ _. refl

    ensure_built-Alike : (i : ℕ) (rows : Projects) → Alike (ensure_built f o i rows).0 rows
    unfolding ensure_built
    ensure_built-Alike i rows p =
        by_option (λ (r : Projects × Option Failure). is_latest r.0 p ≡ is_latest rows p)
          (get_project_meta i rows) _ _ refl
          λ m _.
            by_if (λ (r : Projects × Option Failure). is_latest r.0 p ≡ is_latest rows p)
              (is_compiled m.dev_build_status) (rows, none) _ (λ _. refl)
              λ _.
                let b = build_project o.built_at i o.build_run rows in
                let same = build_project-Alike o.built_at i o.build_run rows p in
                by_if (λ (r : Projects × Option Failure). is_latest r.0 p ≡ is_latest rows p)
                  (is_built b.0) (b.1, none) (b.1, some (build_failed b.0)) (λ _. same) λ _. same

    module _ (mode_id : ℕ) where
      -- What the scores of the mode are computed from.
      abbrev basis : Store W → List (Participant W)
      basis w = scored_rows mode_id w.projects w.tables

      abbrev HasRoom : Store W → Type 0
      HasRoom w = IsBelow w.tables.next_id w.tables.matches

      fail_same :
          (job : TestMatchJob) (e : Failure) (w : Store W) → basis (fail f o job e w) ≡ basis w
      unfolding fail prune
      fail_same job e w = refl

      persist_same :
          (job : TestMatchJob) (sim_args : String) (played : Played W)
          (rows : List (ParticipantRow W)) (w : Store W)
          → HasRoom w
          → basis (persist f o job sim_args played rows w) ≡ basis w
      unfolding persist prune
      persist_same job sim_args played rows w room =
          scored_rows-record_test mode_id w.projects _ rows w.tables refl room

      moved :
          (w : Store W) (qs : Projects)
          → Alike qs w.projects
          → basis (record w { projects = qs }) ≡ basis w
      moved w qs alike = scored_rows-Alike mode_id qs w.projects w.tables alike

      handle_same :
          (job : TestMatchJob) (e : Failure) (w : Store W) → basis (handle f o job e w).1 ≡ basis w
      unfolding handle
      handle_same job interrupted w = refl
      handle_same job bad_sim_args w = fail_same job bad_sim_args w
      handle_same job no_such_seat w = fail_same job no_such_seat w
      handle_same job (setup e) w = fail_same job (setup e) w
      handle_same job (build_failed b) w = fail_same job (build_failed b) w
      handle_same job (raised e) w = fail_same job (raised e) w
      handle_same job (no_rows e) w = fail_same job (no_rows e) w

      finish_same :
          (job : TestMatchJob) (sim_args : String) (s : AgentSetup) (played : Played W)
          (w : Store W)
          → HasRoom w
          → basis (finish_match f o job sim_args s played w).1 ≡ basis w
      unfolding finish_match
      finish_same job sim_args s played w room =
          let q = quarantine_opponents s played.init_failed_seats w.projects in
          let v = record w { projects = q.0 } in
          let same = moved w q.0 (quarantine-Alike s played.init_failed_seats w.projects) in
          by_result (λ (u : Ending × Store W). basis u.1 ≡ basis w)
            (participants_of f o s played q.1)
            (λ rows. (worked, persist f o job sim_args played rows v)) (λ e. handle f o job e v)
            (λ rows _. persist_same job sim_args played rows v room ∙ same)
            λ e _. handle_same job e v ∙ same

      play_same :
          (job : TestMatchJob) (sim_args : String) (s : AgentSetup) (w : Store W)
          → HasRoom w
          → basis (play_match f o job sim_args s w).1 ≡ basis w
      unfolding play_match
      play_same job sim_args s w room =
          let ran = o.run_match sim_args s in
          let i = job.player_project_id in
          let qs = if ran.reported then on_match_result f o i w.projects else w.projects in
          let v = record w { projects = qs } in
          let same = moved w qs (λ p.
            by_if (λ (r : Projects). is_latest r p ≡ is_latest w.projects p) ran.reported
              (on_match_result f o i w.projects) w.projects
              (λ _. on_match_result-Alike i w.projects p) λ _. refl) in
          by_result (λ (u : Ending × Store W). basis u.1 ≡ basis w) ran.outcome
            (λ played. finish_match f o job sim_args s played v)
            (λ e. handle f o job (raise f o e) v)
            (λ played _. finish_same job sim_args s played v room ∙ same)
            λ e _. handle_same job (raise f o e) v ∙ same

      built_same :
          (job : TestMatchJob) (sim_args : String) (b : Projects × Option Failure) (w : Store W)
          → HasRoom w
          → Alike b.0 w.projects
          → basis (built_then f o job sim_args b w).1 ≡ basis w
      built_same job sim_args (projects, some e) w room alike =
          handle_same job e (record w { projects = projects }) ∙ moved w projects alike
      built_same job sim_args (projects, none) w room alike =
          let v = record w { projects = projects } in
          by_result (λ (u : Ending × Store W). basis u.1 ≡ basis w)
            (sets_up f o (
              resolve_test_agents o.agent_name projects job.player_project_id
                job.opponent_project_ids))
            (λ s. play_match f o job sim_args s v) (λ e. handle f o job e v)
            (λ s _. play_same job sim_args s v room ∙ moved w projects alike)
            λ e _. handle_same job e v ∙ moved w projects alike

      run_job_same :
          (job : TestMatchJob) (w : Store W) → HasRoom w → basis (run_job f o job w).1 ≡ basis w
      unfolding run_job
      run_job_same job w room =
          let b = ensure_built f o job.player_project_id w.projects in
          by_option (λ (u : Ending × Store W). basis u.1 ≡ basis w) (o.validated job.sim_args)
            (handle f o job bad_sim_args w) (λ sim_args. built_then f o job sim_args b w)
            (handle_same job bad_sim_args w)
            λ sim_args _.
              built_same job sim_args b w room (ensure_built-Alike job.player_project_id w.projects)

      -- An iteration of the test runner, with its build, its verdict, its quarantine and the match that
      -- it stores, changes none of the rows that the scores of any mode are computed from, where every
      -- stored match has an id below the next one.
      pub test_iteration-scored_rows :
          (w : Store W)
          → IsBelow w.tables.next_id w.tables.matches
          → let v = (run_one_iteration f o w).1 in
            scored_rows mode_id v.projects v.tables ≡ scored_rows mode_id w.projects w.tables
      unfolding run_one_iteration
      test_iteration-scored_rows w room =
          let c = claim_one_queued_test_job o.claimed_at o.locked w.jobs in
          let v = record w { jobs = c.1 } in
          let P = λ (r : Ending × Store W). basis r.1 ≡ basis w in
          by_option P c.0 (idle, w) _ refl
            λ job _.
              by_if P o.prepared (run_job f o job v) (escaped, v) (λ _. run_job_same job v room)
                λ _. refl

-- ===== src/Db/Tests.antt =====
-- Runs of the models of services/sa_common/sa_common/db at concrete inputs.
use snake_arena.Prelude.{
  ℕ, ◌-◌, ◌≡◌, ◌≢◌, ◌≤◌, refl, Bool, true, false, not, Option, none, some, [], ◌∷◌, arith, nat_key,
  length, All,
}
use snake_arena.Db.Rows.{select_where, count_where}
use snake_arena.Db.MatchJobs.{MatchJob, JobTable, queued, running, success, claim_one_queued_job}
use snake_arena.Db.MatchJobs.Claims.{Answers, claim_one_queued_job-Answers, claims_differ}
use snake_arena.Db.TestJobs.{
  TestMatchJob, TestTable, any_id, bundle_limit, is_prunable, is_pinned, prune_unpinned_test_jobs,
}
use snake_arena.Db.TestJobs.Prune.{IsUnique, prune-fits, prune-spares}
use snake_arena.Db.Projects.{
  Project, browser, external_image, has_id, promote_to_submitted, record_dev_build_success,
  record_dev_build_start, record_dev_build_validated, get_project,
}
use snake_arena.Db.Quotas.{Promises, get_test_match_quota, get_test_match_quota-Promises}
use snake_arena.Db.Projects.Builds.{
  raises, build_project, stuck, build_project-settles, build_project-external,
}
use snake_arena.Db.Projects.Overlap.{save_during_build, submitted_pair, save_during_build-promotes}
use snake_arena.Db.Projects.Freshness.{
  Reach, empty, next, create, start, finish, validate, promote, IsConsistent, Reach-IsConsistent,
}

abbrev job : ℕ → ℕ → MatchJob
job i at = record {
  id = i;
  status = queued;
  mode_id = 4;
  project_ids = 1 ∷ 2 ∷ [];
  sim_args = "{}";
  requested_by = none;
  requested_at = at;
  started_at = none;
  finished_at = none;
  match_id = none;
  error = none;
}

-- Three queued jobs, the second of which is the oldest.
abbrev three_jobs : JobTable
three_jobs = record { next_id = 4; rows = job 1 30 ∷ job 2 10 ∷ job 3 20 ∷ [] }

abbrev unlocked : ℕ → Bool
unlocked i = false

abbrev second_taken : MatchJob
second_taken = record (job 2 10) { status = running; started_at = some 40 }

abbrev third_taken : MatchJob
third_taken = record (job 3 20) { status = running; started_at = some 50 }

abbrev after_first : JobTable
after_first = record { next_id = 4; rows = job 1 30 ∷ second_taken ∷ job 3 20 ∷ [] }

abbrev after_second : JobTable
after_second = record { next_id = 4; rows = job 1 30 ∷ second_taken ∷ third_taken ∷ [] }

first_claim : claim_one_queued_job 40 unlocked three_jobs ≡ (some second_taken, after_first)
unfolding claim_one_queued_job
first_claim = refl

second_claim : claim_one_queued_job 50 unlocked after_first ≡ (some third_taken, after_second)
unfolding claim_one_queued_job
second_claim = refl

claim_one_queued_job-Answers_example :
    Answers 40 unlocked three_jobs (claim_one_queued_job 40 unlocked three_jobs)
claim_one_queued_job-Answers_example = claim_one_queued_job-Answers 40 unlocked three_jobs

claims_differ_example : third_taken.id ≢ second_taken.id
claims_differ_example =
    claims_differ 40 50 unlocked unlocked three_jobs after_first after_second second_taken
      third_taken first_claim second_claim

abbrev test_job : ℕ → Bool → TestMatchJob
test_job i pin = record {
  id = i;
  status = success;
  player_project_id = 1;
  opponent_project_ids = [];
  sim_args = "{}";
  requested_by = none;
  requested_at = i;
  started_at = some i;
  finished_at = some i;
  match_id = some i;
  error = none;
  bundle_key = some "bundle";
  pinned = pin;
  mode_id = none;
  avg_budget_ms = 10;
  score = none;
  score_breakdown = none;
}

-- Eleven finished jobs, one of them pinned, and one that runs.
abbrev twelve_jobs : TestTable
twelve_jobs = record {
  next_id = 13;
  rows =
      test_job 1 false
      ∷ test_job 2 true
      ∷ test_job 3 false
      ∷ test_job 4 false
      ∷ test_job 5 false
      ∷ test_job 6 false
      ∷ test_job 7 false
      ∷ test_job 8 false
      ∷ test_job 9 false
      ∷ test_job 10 false
      ∷ test_job 11 false
      ∷ record (test_job 12 false) { status = running }
      ∷ [];
}

twelve_jobs-IsUnique : IsUnique twelve_jobs.rows
unfolding any_id
twelve_jobs-IsUnique = (
  refl,
  (refl, (refl, (refl, (refl, (refl, (refl, (refl, (refl, (refl, (refl, (refl, tt))))))))))),
)

prune-fits_example :
    count_where (is_prunable 1) (prune_unpinned_test_jobs 1 twelve_jobs).1.rows
    ≤ bundle_limit - count_where (is_pinned 1) twelve_jobs.rows
prune-fits_example = prune-fits 1 twelve_jobs

prune_run : length (prune_unpinned_test_jobs 1 twelve_jobs).1.rows ≡ 11
unfolding prune_unpinned_test_jobs
prune_run = refl

prune-spares_example :
    select_where (λ j. not (is_prunable 1 j)) (prune_unpinned_test_jobs 1 twelve_jobs).1.rows
    ≡ select_where (λ j. not (is_prunable 1 j)) twelve_jobs.rows
prune-spares_example = prune-spares 1 twelve_jobs twelve_jobs-IsUnique

abbrev new_project : Project
new_project = record {
  id = 1;
  user_id = some 5;
  guest_session_id = none;
  name = "mamba";
  language = "python";
  source = browser;
  dev_code_archive = some 100;
  dev_image_tag = none;
  dev_build_status = none;
  dev_built_at = none;
  submitted_code_archive = none;
  submitted_image_tag = none;
  submitted_version = 0;
  submitted_at = none;
  submitted_crashed = false;
  created_at = 1;
  updated_at = 1;
}

abbrev external_project : Project
external_project = record new_project { source = external_image }

build_project-settles_example :
    count_where (stuck 1) (build_project 9 1 (λ p. raises) (new_project ∷ [])).1 ≡ 0
unfolding get_project
build_project-settles_example =
    build_project-settles 9 1 (λ p. raises) (new_project ∷ []) new_project refl refl

build_project-external_example :
    count_where (stuck 1) (build_project 9 1 (λ p. raises) (external_project ∷ [])).1
    ≡ count_where (has_id 1) (external_project ∷ [])
unfolding get_project
build_project-external_example =
    build_project-external 9 1 (λ p. raises) (external_project ∷ []) external_project refl refl

save_during_build-promotes_example :
    let (version, rows) = save_during_build 1 20 101 30 7 (new_project ∷ []) in
    (version ≡ some 1) × (submitted_pair rows ≡ (some 101, some 7))
save_during_build-promotes_example =
    save_during_build-promotes new_project 20 101 30 7 refl (omega arith)

-- The image 7 is built from the code 100.
abbrev built_from : ℕ → Option ℕ
built_from tag = some 100

-- A project is created, built, validated and submitted.
submitted_history :
    Reach built_from 9
      (promote_to_submitted 9 1 (
        record_dev_build_validated 1
          (record_dev_build_success 7 1 7 (record_dev_build_start 1 (new_project ∷ []))))).1
unfolding record_dev_build_start
submitted_history =
    next
      (next
        (next
          (next (next empty (create new_project (omega arith) refl refl refl))
            (start {now = 3} 1 (omega arith)))
          (finish {now = 7} 1 7 (omega arith) ((λ e. refl), tt)))
        (validate {now = 8} 1 (omega arith)))
      (promote {now = 9} 1 (omega arith))

Reach-IsConsistent_example :
    All
      (IsConsistent built_from)
      (promote_to_submitted 9 1 (
        record_dev_build_validated 1
          (record_dev_build_success 7 1 7 (record_dev_build_start 1 (new_project ∷ []))))).1
Reach-IsConsistent_example = Reach-IsConsistent built_from submitted_history

abbrev requested_twice : TestTable
requested_twice = record {
  next_id = 13;
  rows =
      record (test_job 1 false) { requested_by = some 5; requested_at = 1_000_000 }
      ∷ record (test_job 2 false) { requested_by = some 5; requested_at = 9_000_000 }
      ∷ [];
}

get_test_match_quota-Promises_example :
    Promises 10_000_000 5 requested_twice
      (get_test_match_quota 10_000_000 5 requested_twice).next_slot_at
get_test_match_quota-Promises_example = get_test_match_quota-Promises 10_000_000 5 requested_twice

next_slot : (get_test_match_quota 10_000_000 5 requested_twice).next_slot_at ≡ some 3_601_000_000
unfolding get_test_match_quota
next_slot = refl

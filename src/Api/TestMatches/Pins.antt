-- ===== src/Api/TestMatches/Pins.antt =====
-- services/api/api/routers/test_matches.py: the pinned test matches of a project.
use snake_arena.Prelude.{
  ℕ, ◌+◌, ◌≤◌, ◌≡◌, refl, arith, Bool, false, ◌&&◌, some, List, [], ◌∷◌, nat_key, if◌then◌else◌,
  by_found,
}
use snake_arena.Prelude.Result.{IfOk}
use snake_arena.Db.Rows.{update_where, count_where}
use snake_arena.Db.TestJobs.{
  TestMatchJob, has_id, of_project, is_pinned, any_id, count_pinned_test_jobs, set_pinned,
}
use snake_arena.Db.TestJobs.Prune.{IsUnique}
use snake_arena.Api.TestMatches.{Store, max_pinned, find_job, get_test_job, update_pin}

abbrev pin : Bool → TestMatchJob → TestMatchJob
pin b j = record j { pinned = b }

absent_same :
    (i : ℕ) (b : Bool) (rs : List TestMatchJob)
    → any_id i rs ≡ false
    → update_where (has_id i) (pin b) rs ≡ rs
unfolding any_id update_where
absent_same i b [] h = refl
absent_same i b (r ∷ rs) h = ground (arith, absent_same i b rs)

pinned_after :
    (project i : ℕ) (b : Bool) (rs : List TestMatchJob) (job : TestMatchJob)
    → IsUnique rs
    → find_job i rs ≡ some job
    → count_where (is_pinned project) (update_where (has_id i) (pin b) rs)
        + (if is_pinned project job then 1 else 0)
      ≡ count_where (is_pinned project) rs + (if of_project project job && b then 1 else 0)
unfolding update_where count_where
pinned_after project i b [] job unique h = cc
pinned_after project i b (r ∷ rs) job unique h =
    ground (arith, absent_same i b rs, pinned_after project i b rs job unique.1, unique.0)

-- A request never makes a project have more than nine pinned test matches.
pub update_pin-bound :
    (i : ℕ) (pinned : Bool) (user project : ℕ) (w : Store)
    → IsUnique w.tests.rows
    → count_pinned_test_jobs project w.tests ≤ max_pinned
    → IfOk
        (λ after. count_pinned_test_jobs project after.tests ≤ max_pinned)
        (update_pin i pinned user w)
unfolding update_pin count_pinned_test_jobs set_pinned get_test_job
update_pin-bound i pinned user project w unique bound =
    by_found (IfOk (λ (after : Store). count_pinned_test_jobs project after.tests ≤ max_pinned))
      (find_job i w.tests.rows) _ _ (λ absent. tt)
      λ job found.
        let after = pinned_after project i pinned w.tests.rows job unique found in
        ground (arith, after)

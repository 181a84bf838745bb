-- ===== src/Db/TestJobs/Stale.antt =====
-- services/sa_common/sa_common/db/test_match_jobs.py: what `reset_stale_running_jobs` leaves.
use snake_arena.Prelude.{ℕ, ◌+◌, ◌≡◌, Bool, ◌&&◌, not, some, List, [], ◌∷◌, arith, if◌then◌else◌}
use snake_arena.Db.Rows.{update_where, count_where}
use snake_arena.Db.MatchJobs.{running, failure}
use snake_arena.Db.TestJobs.{
  TestMatchJob, TestTable, has_status, is_stale, reset_stale_running_jobs,
}

abbrev pub in_flight : ℕ → TestMatchJob → Bool
in_flight now j = has_status running j && not (is_stale now j)

abbrev failed : ℕ → TestMatchJob → TestMatchJob
failed now j = record j {
  status = failure;
  finished_at = some now;
  error = some "orchestrator restarted while job was running";
}

abbrev one : Bool → ℕ
one b = if b then 1 else 0

module _ (now : ℕ) where
  stale-one :
      (j : TestMatchJob)
      → let k : TestMatchJob = if is_stale now j then failed now j else j in
        (one (has_status running k) ≡ one (in_flight now j))
        × (one (in_flight now k) ≡ one (in_flight now j))
        × (one (has_status failure k) ≡ one (has_status failure j) + one (is_stale now j))
  stale-one j = ground arith

  stale-counts :
      (js : List TestMatchJob)
      → let ks = update_where (is_stale now) (failed now) js in
        (count_where (has_status running) ks ≡ count_where (in_flight now) js)
        × (count_where (in_flight now) ks ≡ count_where (in_flight now) js)
        × (count_where (has_status failure) ks
            ≡ count_where (has_status failure) js + count_where (is_stale now) js)
  unfolding update_where count_where
  stale-counts [] = ground arith
  stale-counts (j ∷ js) =
      let r = stale-counts js in
      let this = stale-one j in
      (omega (arith, r.0, this.0), omega (arith, r.1, this.1), omega (arith, r.2, this.2))

  -- A reset fails the jobs that have run for more than the interval, as many as it reports, and
  -- leaves every job that is still in flight running; no other job runs afterwards.
  pub reset_stale-counts :
      (t : TestTable)
      → let (n, u) = reset_stale_running_jobs now t in
        (count_where (has_status running) u.rows ≡ count_where (in_flight now) t.rows)
        × (count_where (in_flight now) u.rows ≡ count_where (in_flight now) t.rows)
        × (count_where (has_status failure) u.rows ≡ count_where (has_status failure) t.rows + n)
  unfolding reset_stale_running_jobs
  reset_stale-counts t = stale-counts t.rows

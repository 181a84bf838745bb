-- ===== src/Db/MatchJobs/Counts.antt =====
-- services/sa_common/sa_common/db/match_jobs.py: the counts of the queue.
use snake_arena.Prelude.{
  ℕ, ◌+◌, ◌≡◌, Bool, ◌&&◌, Option, none, some, List, [], ◌∷◌, arith, ◌==◌, nat_key, nat_beq_iff,
  length, if◌then◌else◌,
}
use snake_arena.Prelude.Dict.{Dict, lookup, lookup-insert}
use snake_arena.Db.Rows.{count_where}
use snake_arena.Db.MatchJobs.{
  Status, queued, running, success, failure, cancelled, MatchJob, JobTable, has_status, add_one,
  group_modes, count_jobs_by_status, count_queued_by_mode,
}

abbrev pub total : List (Status × ℕ) → ℕ
total [] = 0
total ((s, n) ∷ l) = n + total l

rows-total :
    (js : List MatchJob)
    → count_where (has_status queued) js
        + (count_where (has_status running) js
            + (count_where (has_status success) js
                + (count_where (has_status failure) js
                    + (count_where (has_status cancelled) js + 0))))
      ≡ length js
unfolding count_where
rows-total [] = omega arith
rows-total (j ∷ js) = ground (arith, rows-total js)

-- Every job of the table is counted under exactly one status.
pub count_jobs_by_status-total : (t : JobTable) → total (count_jobs_by_status t) ≡ length t.rows
unfolding count_jobs_by_status
count_jobs_by_status-total t = rows-total t.rows

abbrev pub in_mode : ℕ → MatchJob → Bool
in_mode mode j = has_status queued j && j.mode_id == mode

abbrev pub counted : Option ℕ → ℕ
counted none = 0
counted (some n) = n

lookup-add_one :
    (mode m : ℕ) (d : Dict ℕ ℕ)
    → counted (lookup mode (add_one m d)) ≡ counted (lookup mode d) + (if m == mode then 1 else 0)
unfolding add_one
lookup-add_one mode m d = grind (arith, lookup-insert {V = ℕ} m mode, nat_beq_iff m mode)

lookup-group_modes :
    (mode : ℕ) (js : List MatchJob) (d : Dict ℕ ℕ)
    → counted (lookup mode (group_modes js d))
      ≡ counted (lookup mode d) + count_where (in_mode mode) js
unfolding group_modes count_where
lookup-group_modes mode [] d = omega arith
lookup-group_modes mode (j ∷ js) d = ground (
  arith,
  lookup-group_modes mode js (if has_status queued j then add_one j.mode_id d else d),
  lookup-add_one mode j.mode_id d,
)

-- What the scheduler reads as the queue of a mode is the number of the mode's queued jobs; a mode
-- without an entry has none.
pub count_queued_by_mode-lookup :
    (mode : ℕ) (t : JobTable)
    → counted (lookup mode (count_queued_by_mode t)) ≡ count_where (in_mode mode) t.rows
unfolding count_queued_by_mode
count_queued_by_mode-lookup mode t = omega (arith, lookup-group_modes mode t.rows [])

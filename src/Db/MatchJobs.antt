-- ===== src/Db/MatchJobs.antt =====
-- services/sa_common/sa_common/db/match_jobs.py: the queue of ranked match jobs. The table
-- `match_jobs` is its rows and the next id of its BIGSERIAL column; `locked` says which rows other
-- transactions hold, which `FOR UPDATE SKIP LOCKED` passes over.
pub mod Claims
pub mod Counts
use Prim.Native.String.{String}
use snake_arena.Prelude.{
  ℕ, ◌+◌, ◌-◌, Bool, true, false, ◌&&◌, ◌||◌, not, Option, none, some, List, [], ◌∷◌, ◌++◌, map,
  ◌==◌, nat_key, ltb, take, if◌then◌else◌,
}
use snake_arena.Prelude.Dict.{Dict, lookup, insert}
use snake_arena.Db.Rows.{update_where, select_where, count_where, oldest, order_by}

-- `JOB_STATUSES`
pub data Status : Type 0 where
  queued running success failure cancelled : Status

abbrev pub status_beq : Status → Status → Bool
status_beq queued queued = true
status_beq running running = true
status_beq success success = true
status_beq failure failure = true
status_beq cancelled cancelled = true
status_beq _ _ = false

-- `sim_args` is the JSON text of the arguments.
pub record MatchJob : Type 0 where
  pub id : ℕ
  pub status : Status
  pub mode_id : ℕ
  pub project_ids : List ℕ
  pub sim_args : String
  pub requested_by : Option ℕ
  pub requested_at : ℕ
  pub started_at : Option ℕ
  pub finished_at : Option ℕ
  pub match_id : Option ℕ
  pub error : Option String

pub record JobTable : Type 0 where
  pub next_id : ℕ
  pub rows : List MatchJob

abbrev pub has_id : ℕ → MatchJob → Bool
has_id i j = j.id == i

abbrev pub has_status : Status → MatchJob → Bool
has_status s j = status_beq j.status s

-- `enqueue_match_job`
unfoldable pub enqueue_match_job : ℕ → ℕ → List ℕ → String → Option ℕ → JobTable → ℕ × JobTable
enqueue_match_job now mode_id project_ids sim_args requested_by t = (
  t.next_id,
  record {
    next_id = t.next_id + 1;
    rows =
        t.rows
        ++ record {
          id = t.next_id;
          status = queued;
          mode_id = mode_id;
          project_ids = project_ids;
          sim_args = sim_args;
          requested_by = requested_by;
          requested_at = now;
          started_at = none;
          finished_at = none;
          match_id = none;
          error = none;
        }
          ∷ [];
  },
)

-- `WHERE status = 'queued'` among the rows that are not locked
abbrev pub is_claimable : (ℕ → Bool) → MatchJob → Bool
is_claimable locked j = has_status queued j && not (locked j.id)

abbrev pub claimed : ℕ → MatchJob → MatchJob
claimed now j = record j { status = running; started_at = some now }

-- `claim_one_queued_job`
unfoldable pub claim_one_queued_job : ℕ → (ℕ → Bool) → JobTable → Option MatchJob × JobTable
unfolding oldest update_where
claim_one_queued_job now locked t =
    elim (oldest (is_claimable locked) (λ j. j.requested_at) t.rows) [
      | none ↦ (none, t)
      | some j ↦ (
        some (claimed now j),
        record t { rows = update_where (has_id j.id) (claimed now) t.rows },
      )
    ]

-- `mark_job_success`
unfoldable pub mark_job_success : ℕ → ℕ → ℕ → JobTable → JobTable
unfolding update_where
mark_job_success now job_id match_id t = record t {
  rows =
      update_where (has_id job_id)
        (λ j. record j {
          status = success;
          finished_at = some now;
          match_id = some match_id;
          error = none;
        })
        t.rows;
}

-- `mark_job_failure`
unfoldable pub mark_job_failure : ℕ → ℕ → String → JobTable → JobTable
unfolding update_where
mark_job_failure now job_id message t = record t {
  rows =
      update_where (has_id job_id)
        (λ j. record j { status = failure; finished_at = some now; error = some message }) t.rows;
}

abbrev pub is_cancellable : ℕ → MatchJob → Bool
is_cancellable job_id j = has_id job_id j && has_status queued j

-- `cancel_job`: the result is `cur.rowcount > 0`.
unfoldable pub cancel_job : ℕ → ℕ → JobTable → Bool × JobTable
unfolding update_where count_where
cancel_job now job_id t = (
  ltb 0 (count_where (is_cancellable job_id) t.rows),
  record t {
    rows =
        update_where (is_cancellable job_id)
          (λ j. record j { status = cancelled; finished_at = some now }) t.rows;
  },
)

-- `get_job`: `id` is the primary key.
abbrev pub first : List MatchJob → Option MatchJob
first [] = none
first (j ∷ js) = some j

unfoldable pub get_job : ℕ → JobTable → Option MatchJob
unfolding select_where
get_job job_id t = first (select_where (has_id job_id) t.rows)

-- `list_jobs`: newest first.
unfoldable pub list_jobs : Option Status → ℕ → JobTable → List MatchJob
unfolding select_where order_by
list_jobs status limit t = take limit (
    order_by (λ a b. not (ltb a.requested_at b.requested_at))
      (elim status [ none ↦ t.rows | some s ↦ select_where (has_status s) t.rows ]))

-- `count_jobs_by_status`: every status has an entry, in the order of `JOB_STATUSES`.
unfoldable pub count_jobs_by_status : JobTable → List (Status × ℕ)
unfolding count_where
count_jobs_by_status t =
    map (λ s. (s, count_where (has_status s) t.rows))
      (queued ∷ running ∷ success ∷ failure ∷ cancelled ∷ [])

-- `count_queued_by_mode`: the groups of the queued rows.
add_one : ℕ → Dict ℕ ℕ → Dict ℕ ℕ
add_one mode d = insert mode (elim (lookup mode d) [ none ↦ 1 | some n ↦ n + 1 ]) d

group_modes : List MatchJob → Dict ℕ ℕ → Dict ℕ ℕ
unfolding add_one
group_modes [] d = d
group_modes (j ∷ js) d = group_modes js (if has_status queued j then add_one j.mode_id d else d)

unfoldable pub count_queued_by_mode : JobTable → Dict ℕ ℕ
unfolding group_modes
count_queued_by_mode t = group_modes t.rows []

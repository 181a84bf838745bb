-- ===== src/Db/TestJobs.antt =====
-- services/sa_common/sa_common/db/test_match_jobs.py: the queue of test matches, their retention and
-- the recovery of stale jobs. Timestamps are in microseconds.
pub mod Prune
pub mod Stale
use Prim.Native.String.{String}
use snake_arena.Prelude.{
  ℕ, ◌+◌, ◌-◌, ◌*◌, Bool, true, false, ◌&&◌, ◌||◌, not, Option, none, some, List, [], ◌∷◌, ◌++◌,
  ◌==◌, nat_key, ltb, take, drop, if◌then◌else◌,
}
use snake_arena.Db.Rows.{update_where, select_where, count_where, oldest, order_by}
use snake_arena.Db.MatchJobs.{Status, queued, running, success, failure, cancelled, status_beq}

-- `TestMatchJob`. Scores and budgets are only stored and given back, so numbers stand for them.
pub record TestMatchJob : Type 0 where
  pub id : ℕ
  pub status : Status
  pub player_project_id : ℕ
  pub opponent_project_ids : List ℕ
  pub sim_args : String
  pub requested_by : Option ℕ
  pub requested_at : ℕ
  pub started_at : Option ℕ
  pub finished_at : Option ℕ
  pub match_id : Option ℕ
  pub error : Option String
  pub bundle_key : Option String
  pub pinned : Bool
  pub mode_id : Option ℕ
  pub avg_budget_ms : ℕ
  pub score : Option ℕ
  pub score_breakdown : Option String

pub record TestTable : Type 0 where
  pub next_id : ℕ
  pub rows : List TestMatchJob

abbrev pub has_id : ℕ → TestMatchJob → Bool
has_id i j = j.id == i

abbrev pub of_project : ℕ → TestMatchJob → Bool
of_project p j = j.player_project_id == p

abbrev pub has_status : Status → TestMatchJob → Bool
has_status s j = status_beq j.status s

-- `status IN ('success', 'failure', 'cancelled')`
abbrev pub is_terminal : TestMatchJob → Bool
is_terminal j = has_status success j || (has_status failure j || has_status cancelled j)

-- `enqueue_test_match_job`
unfoldable pub enqueue_test_match_job :
    ℕ → ℕ → List ℕ → String → ℕ → Option ℕ → Option ℕ → TestTable → ℕ × TestTable
enqueue_test_match_job now player opponents sim_args avg_budget_ms mode_id requested_by t = (
  t.next_id,
  record {
    next_id = t.next_id + 1;
    rows =
        t.rows
        ++ record {
          id = t.next_id;
          status = queued;
          player_project_id = player;
          opponent_project_ids = opponents;
          sim_args = sim_args;
          requested_by = requested_by;
          requested_at = now;
          started_at = none;
          finished_at = none;
          match_id = none;
          error = none;
          bundle_key = none;
          pinned = false;
          mode_id = mode_id;
          avg_budget_ms = avg_budget_ms;
          score = none;
          score_breakdown = none;
        }
          ∷ [];
  },
)

-- `claim_one_queued_test_job`
unfoldable pub claim_one_queued_test_job :
    ℕ → (ℕ → Bool) → TestTable → Option TestMatchJob × TestTable
unfolding oldest update_where
claim_one_queued_test_job now locked t =
    let start : TestMatchJob → TestMatchJob =
      λ j. record j { status = running; started_at = some now } in
    elim (oldest (λ j. has_status queued j && not (locked j.id)) (λ j. j.requested_at) t.rows) [
      | none ↦ (none, t)
      | some j ↦ (some (start j), record t { rows = update_where (has_id j.id) start t.rows })
    ]

-- `mark_test_job_success`; `score` is the score with its breakdown.
unfoldable pub mark_test_job_success :
    ℕ → ℕ → ℕ → Option String → Option (ℕ × String) → TestTable → TestTable
unfolding update_where
mark_test_job_success now job_id match_id bundle_key score t = record t {
  rows =
      update_where (has_id job_id)
        (λ j. record j {
          status = success;
          finished_at = some now;
          match_id = some match_id;
          bundle_key = bundle_key;
          error = none;
          score = elim score [ none ↦ none | some s ↦ some s.0 ];
          score_breakdown = elim score [ none ↦ none | some s ↦ some s.1 ];
        })
        t.rows;
}

-- `mark_test_job_failure`
unfoldable pub mark_test_job_failure : ℕ → ℕ → String → TestTable → TestTable
unfolding update_where
mark_test_job_failure now job_id message t = record t {
  rows =
      update_where (has_id job_id)
        (λ j. record j { status = failure; finished_at = some now; error = some message }) t.rows;
}

-- `set_pinned`
unfoldable pub set_pinned : ℕ → Bool → TestTable → TestTable
unfolding update_where
set_pinned job_id pin t = record t {
  rows = update_where (has_id job_id) (λ j. record j { pinned = pin }) t.rows;
}

-- `count_pinned_test_jobs`
abbrev pub is_pinned : ℕ → TestMatchJob → Bool
is_pinned project j = of_project project j && j.pinned

unfoldable pub count_pinned_test_jobs : ℕ → TestTable → ℕ
unfolding count_where
count_pinned_test_jobs project t = count_where (is_pinned project) t.rows

-- `cancel_queued_test_job`
unfoldable pub cancel_queued_test_job : ℕ → ℕ → TestTable → Bool × TestTable
unfolding update_where count_where
cancel_queued_test_job now job_id t =
    let p = λ (j : TestMatchJob). has_id job_id j && has_status queued j in
    (
      ltb 0 (count_where p t.rows),
      record t {
        rows = update_where p (λ j. record j { status = cancelled; finished_at = some now }) t.rows;
      },
    )

-- `count_active_test_jobs_for_project`
unfoldable pub count_active_test_jobs_for_project : ℕ → TestTable → ℕ
unfolding count_where
count_active_test_jobs_for_project project t =
    count_where (λ j. of_project project j && (has_status queued j || has_status running j)) t.rows

-- `STALE_RUNNING_INTERVAL`, 15 minutes
abbrev pub stale_running_interval : ℕ
stale_running_interval = 15 * 60 * 1_000_000

-- `status = 'running' AND started_at < NOW() - INTERVAL …`; a NULL is not less than anything.
abbrev pub is_stale : ℕ → TestMatchJob → Bool
is_stale now j =
    has_status running j
    && elim j.started_at [ none ↦ false | some s ↦ ltb (s + stale_running_interval) now ]

-- `reset_stale_running_jobs`, with its count
unfoldable pub reset_stale_running_jobs : ℕ → TestTable → ℕ × TestTable
unfolding update_where count_where
reset_stale_running_jobs now t = (
  count_where (is_stale now) t.rows,
  record t {
    rows =
        update_where (is_stale now)
          (λ j. record j {
            status = failure;
            finished_at = some now;
            error = some "orchestrator restarted while job was running";
          })
          t.rows;
  },
)

-- `_BUNDLE_LIMIT`
abbrev pub bundle_limit : ℕ
bundle_limit = 10

-- The terminal unpinned jobs of the project.
abbrev pub is_prunable : ℕ → TestMatchJob → Bool
is_prunable project j = of_project project j && (not j.pinned && is_terminal j)

-- `ORDER BY requested_at DESC, id DESC`
abbrev pub is_newer : TestMatchJob → TestMatchJob → Bool
is_newer a b =
    ltb b.requested_at a.requested_at || (b.requested_at == a.requested_at && not (ltb a.id b.id))

-- The subselect of the DELETE: `OFFSET GREATEST(0, limit - pinned)`.
unfoldable pub doomed : ℕ → List TestMatchJob → List TestMatchJob
unfolding order_by select_where count_where
doomed project rows =
    drop (bundle_limit - count_where (is_pinned project) rows)
      (order_by is_newer (select_where (is_prunable project) rows))

-- `id IN (SELECT id …)`
unfoldable pub any_id : ℕ → List TestMatchJob → Bool
any_id i [] = false
any_id i (j ∷ js) = j.id == i || any_id i js

-- The bundle keys that are not NULL.
abbrev pub keys_of : List TestMatchJob → List String
keys_of [] = []
keys_of (j ∷ js) = elim j.bundle_key [ none ↦ keys_of js | some k ↦ k ∷ keys_of js ]

-- `prune_unpinned_test_jobs`
unfoldable pub prune_unpinned_test_jobs : ℕ → TestTable → List String × TestTable
unfolding doomed any_id select_where
prune_unpinned_test_jobs project t =
    let gone = doomed project t.rows in
    (
      keys_of (select_where (λ j. any_id j.id gone) t.rows),
      record t { rows = select_where (λ j. not (any_id j.id gone)) t.rows },
    )

-- `recent_test_scores`: newest first.
abbrev scores_of : List TestMatchJob → List ℕ
scores_of [] = []
scores_of (j ∷ js) = elim j.score [ none ↦ scores_of js | some s ↦ s ∷ scores_of js ]

abbrev is_scored : ℕ → ℕ → TestMatchJob → Bool
is_scored project mode j =
    of_project project j
    && (elim j.mode_id [ none ↦ false | some m ↦ m == mode ]
        && elim j.score [ none ↦ false | some s ↦ true ])

unfoldable pub recent_test_scores : ℕ → ℕ → ℕ → TestTable → List ℕ
unfolding order_by select_where
recent_test_scores project mode limit t =
    scores_of (take limit (order_by is_newer (select_where (is_scored project mode) t.rows)))

-- `get_bundle_keys_for_project`
unfoldable pub get_bundle_keys_for_project : ℕ → TestTable → List String
unfolding select_where
get_bundle_keys_for_project project t = keys_of (select_where (of_project project) t.rows)

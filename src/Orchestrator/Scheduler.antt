-- ===== src/Orchestrator/Scheduler.antt =====
-- services/orchestrator/orchestrator/scheduler_daemon.py: one iteration of the scheduler on the queue
-- of match jobs. The connection commits each job, so an exception keeps the jobs before it.
pub mod QueueCap
use Prim.Native.String.{String}
use snake_arena.Prelude.{
  ℕ, zero, suc, ◌+◌, ◌-◌, Bool, true, false, Option, none, some, List, [], ◌∷◌, map, ◌==◌, nat_key,
  if◌then◌else◌,
}
use snake_arena.Prelude.Dict.{Dict, lookup}
use snake_arena.Prelude.Result.{ok, err}
use snake_arena.Db.MatchJobs.{JobTable, enqueue_match_job, count_queued_by_mode}
use snake_arena.Orchestrator.Matchmaker.{VersionRef, VersionStats, GroupError, pick_match_group}

-- What the scheduler reads of a `Mode`.
pub record Mode : Type 0 where
  pub id : ℕ
  pub participant_count : ℕ
  pub sim_args : String

-- What the database answers at each state of the queue, and the numbers that are drawn.
pub record World : Type 0 where
  pub now : ℕ
  pub underplayed : Mode → JobTable → List VersionStats
  pub submitted : JobTable → List VersionRef
  pub opponents : Mode → JobTable → VersionRef → List VersionRef
  pub draw : JobTable → ℕ → ℕ

-- The number of jobs enqueued, the table, and the exception that ended the work, if any.
pub record Outcome : Type 0 where
  pub enqueued : ℕ
  pub table : JobTable
  pub raised : Option GroupError

-- `_enqueue_one`
abbrev pub enqueue_one : ℕ → Mode → List ℕ → JobTable → JobTable
enqueue_one now mode project_ids t =
    (enqueue_match_job now mode.id project_ids mode.sim_args none t).1

abbrev pub one_more : Outcome → Outcome
one_more o = record o { enqueued = suc o.enqueued }

-- The loop of `_schedule_solo_mode`, with what is left of the capacity.
unfoldable pub schedule_solo : World → Mode → ℕ → List VersionStats → JobTable → Outcome
unfolding enqueue_match_job
schedule_solo w mode zero ss t = record { enqueued = 0; table = t; raised = none }
schedule_solo w mode (suc room) [] t = record { enqueued = 0; table = t; raised = none }
schedule_solo w mode (suc room) (s ∷ ss) t =
    one_more (schedule_solo w mode room ss (enqueue_one w.now mode (s.ref.project_id ∷ []) t))

-- `_schedule_multi_mode`: `while enqueued < capacity`.
unfoldable pub schedule_multi : World → Mode → ℕ → JobTable → Outcome
unfolding enqueue_match_job pick_match_group
schedule_multi w mode zero t = record { enqueued = 0; table = t; raised = none }
schedule_multi w mode (suc room) t = elim (w.underplayed mode t) [
  | [] ↦ record { enqueued = 0; table = t; raised = none }
  | s ∷ ss ↦
      elim (pick_match_group mode.participant_count (w.draw t) (w.submitted t) (w.opponents mode t)
        (s ∷ ss)) [
          | ok found ↦ elim found [
            | none ↦ record { enqueued = 0; table = t; raised = none }
            | some group ↦ one_more (
                schedule_multi w mode room
                  (enqueue_one w.now mode (map (λ v. v.project_id) group) t))
          ]
          | err e ↦ record { enqueued = 0; table = t; raised = some e }
        ]
]

-- One mode, with the capacity that is left.
abbrev pub schedule_mode : World → Mode → ℕ → JobTable → Outcome
schedule_mode w mode capacity t =
    if mode.participant_count == 1
    then schedule_solo w mode capacity (w.underplayed mode t) t
    else schedule_multi w mode capacity t

abbrev pub queued_of : Mode → Dict ℕ ℕ → ℕ
queued_of mode queued = elim (lookup mode.id queued) [ none ↦ 0 | some n ↦ n ]

-- The loop over the modes; an exception ends it.
unfoldable pub walk_modes : World → ℕ → Dict ℕ ℕ → List Mode → JobTable → Outcome
unfolding schedule_solo schedule_multi
walk_modes w cap queued [] t = record { enqueued = 0; table = t; raised = none }
walk_modes w cap queued (m ∷ ms) t =
    let o = schedule_mode w m (cap - queued_of m queued) t in
    let rest = walk_modes w cap queued ms o.table in
    elim o.raised [ none ↦ record rest { enqueued = o.enqueued + rest.enqueued } | some e ↦ o ]

-- `run_one_iteration`; `cap` is `per_mode_queue_cap`, and the modes are the enabled ones.
unfoldable pub run_one_iteration : World → ℕ → List Mode → JobTable → Outcome
unfolding walk_modes count_queued_by_mode
run_one_iteration w cap modes t = walk_modes w cap (count_queued_by_mode t) modes t

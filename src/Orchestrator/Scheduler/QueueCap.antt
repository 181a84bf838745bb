-- ===== src/Orchestrator/Scheduler/QueueCap.antt =====
-- services/orchestrator/orchestrator/scheduler_daemon.py: the cap on the queue of each mode.
use snake_arena.Prelude.{
  ℕ, zero, suc, ◌+◌, ◌-◌, ◌≤◌, ◌≡◌, refl, ◌∙◌, sym, ap, subst, inl, inr, Bool-cases, Bool, false,
  ◌||◌, Option, none, some, List, [], ◌∷◌, ◌++◌, map, ◌==◌, nat_key, arith, length, length-append,
  by_list, by_option, by_if, max, if◌then◌else◌,
}
use snake_arena.Prelude.Dict.{Dict, lookup}
use snake_arena.Prelude.Result.{by_result}
use snake_arena.Db.Rows.{count_where}
use snake_arena.Db.MatchJobs.{MatchJob, JobTable, enqueue_match_job, count_queued_by_mode}
use snake_arena.Db.MatchJobs.Counts.{in_mode, counted, count_queued_by_mode-lookup}
use snake_arena.Orchestrator.Matchmaker.{VersionStats, GroupError, pick_match_group}
use snake_arena.Orchestrator.Scheduler.{
  Mode, World, Outcome, enqueue_one, one_more, schedule_solo, schedule_multi, schedule_mode,
  queued_of, walk_modes, run_one_iteration,
}

count_where-append :
    (p : MatchJob → Bool) (xs : List MatchJob) (y : MatchJob)
    → count_where p (xs ++ y ∷ []) ≡ count_where p xs + (if p y then 1 else 0)
unfolding count_where
count_where-append p [] y = omega arith
count_where-append p (x ∷ xs) y = omega (arith, count_where-append p xs y)

-- The number of queued jobs of a mode.
abbrev pub queue : ℕ → JobTable → ℕ
queue i t = count_where (in_mode i) t.rows

-- What work on one mode adds to the queue of the mode `i`, and to the table.
record Adds (mode : Mode) (room i : ℕ) (t : JobTable) (o : Outcome) : Type 0 where
  within : o.enqueued ≤ room
  own : queue i o.table ≡ queue i t + (if mode.id == i then o.enqueued else 0)
  new : length o.table.rows ≡ length t.rows + o.enqueued

module _ (w : World) (mode : Mode) (i : ℕ) where
  Adds-nothing :
      (room : ℕ) (t : JobTable) (e : Option GroupError)
      → Adds mode room i t (record { enqueued = 0; table = t; raised = e })
  Adds-nothing room t e = record { within = omega arith; own = ground arith; new = omega arith }

  queue-enqueue_one :
      (ps : List ℕ) (t : JobTable)
      → queue i (enqueue_one w.now mode ps t) ≡ queue i t + (if mode.id == i then 1 else 0)
  unfolding enqueue_match_job
  queue-enqueue_one ps t = count_where-append (in_mode i) t.rows _

  rows-enqueue_one :
      (ps : List ℕ) (t : JobTable) → length (enqueue_one w.now mode ps t).rows ≡ length t.rows + 1
  unfolding enqueue_match_job
  rows-enqueue_one ps t = length-append t.rows _

  Adds-one_more :
      (room : ℕ) (ps : List ℕ) (t : JobTable) (o : Outcome)
      → Adds mode room i (enqueue_one w.now mode ps t) o
      → Adds mode (suc room) i t (one_more o)
  Adds-one_more room ps t o a = record {
    within = omega (arith, a.within);
    own = ground (arith, a.own, queue-enqueue_one ps t);
    new = omega (arith, a.new, rows-enqueue_one ps t);
  }

  schedule_solo-Adds :
      (room : ℕ) (ss : List VersionStats) (t : JobTable)
      → Adds mode room i t (schedule_solo w mode room ss t)
  unfolding schedule_solo
  schedule_solo-Adds zero ss t = Adds-nothing 0 t none
  schedule_solo-Adds (suc room) [] t = Adds-nothing (suc room) t none
  schedule_solo-Adds (suc room) (s ∷ ss) t =
      Adds-one_more room (s.ref.project_id ∷ []) t _ (schedule_solo-Adds room ss _)

  schedule_multi-Adds :
      (room : ℕ) (t : JobTable) → Adds mode room i t (schedule_multi w mode room t)
  unfolding schedule_multi
  schedule_multi-Adds zero t = Adds-nothing 0 t none
  schedule_multi-Adds (suc room) t =
      let Q : Outcome → Type 0 = λ o. Adds mode (suc room) i t o in
      by_list Q (w.underplayed mode t) _ _ (Adds-nothing (suc room) t none) λ s ss.
        by_result Q
          (pick_match_group mode.participant_count (w.draw t) (w.submitted t) (w.opponents mode t)
            (s ∷ ss))
          _ _
          (λ found e. by_option Q found _ _ (Adds-nothing (suc room) t none) λ group e'.
            Adds-one_more room (map (λ v. v.project_id) group) t _ (schedule_multi-Adds room _))
          (λ x e. Adds-nothing (suc room) t (some x))

  schedule_mode-Adds :
      (capacity : ℕ) (t : JobTable) → Adds mode capacity i t (schedule_mode w mode capacity t)
  schedule_mode-Adds capacity t =
      by_if (λ (o : Outcome). Adds mode capacity i t o) (mode.participant_count == 1) _ _
        (λ e. schedule_solo-Adds capacity (w.underplayed mode t) t)
        (λ e. schedule_multi-Adds capacity t)

abbrev among : ℕ → List Mode → Bool
among i [] = false
among i (m ∷ ms) = m.id == i || among i ms

-- The ids of the modes are distinct.
abbrev pub IsUnique : List Mode → Type 0
IsUnique [] = Unit
IsUnique (m ∷ ms) = (among m.id ms ≡ false) × IsUnique ms

module _ (w : World) (cap i : ℕ) (queued : Dict ℕ ℕ) where
  walk_modes-other :
      (ms : List Mode) (t : JobTable)
      → among i ms ≡ false
      → queue i (walk_modes w cap queued ms t).table ≡ queue i t
  unfolding walk_modes
  walk_modes-other [] t absent = refl
  walk_modes-other (m ∷ ms) t absent =
      let o = schedule_mode w m (cap - queued_of m queued) t in
      let a = schedule_mode-Adds w m i (cap - queued_of m queued) t in
      let rest = walk_modes-other ms o.table (ground arith) in
      let here : queue i o.table ≡ queue i t = ground (arith, a.own) in
      by_option (λ (r : Outcome). queue i r.table ≡ queue i t) o.raised _ _ (rest ∙ here)
        λ e h. here

  walk_modes-cap :
      (ms : List Mode) (t : JobTable)
      → IsUnique ms
      → counted (lookup i queued) ≡ queue i t
      → queue i (walk_modes w cap queued ms t).table ≤ max cap (queue i t)
  unfolding walk_modes
  walk_modes-cap [] t unique seen = omega arith
  walk_modes-cap (m ∷ ms) t unique seen =
      let room = cap - queued_of m queued in
      let o = schedule_mode w m room t in
      let a = schedule_mode-Adds w m i room t in
      let Q : Outcome → Type 0 = λ r. queue i r.table ≤ max cap (queue i t) in
      elim (Bool-cases (m.id == i)) [
        | inl own ↦
            let same : m.id ≡ i = ground arith in
            let has : queued_of m queued ≡ queue i t =
              ap (λ k. counted (lookup k queued)) same ∙ seen in
            let here : queue i o.table ≤ max cap (queue i t) =
              ground (arith, a.own, a.within, has) in
            let others =
              walk_modes-other ms o.table (subst (λ k. among k ms ≡ false) same unique.0) in
            by_option Q o.raised _ _ (omega (arith, others, here)) λ e h. here
        | inr other ↦
            let here : queue i o.table ≡ queue i t = ground (arith, a.own) in
            let rest = walk_modes-cap ms o.table unique.1 (seen ∙ sym here) in
            by_option Q o.raised _ _ (omega (arith, rest, here)) λ e h. omega (arith, here)
      ]

  walk_modes-rows :
      (ms : List Mode) (t : JobTable)
      → let o = walk_modes w cap queued ms t in length o.table.rows ≡ length t.rows + o.enqueued
  unfolding walk_modes
  walk_modes-rows [] t = omega arith
  walk_modes-rows (m ∷ ms) t =
      let room = cap - queued_of m queued in
      let o = schedule_mode w m room t in
      let a = schedule_mode-Adds w m i room t in
      let rest = walk_modes-rows ms o.table in
      by_option (λ (r : Outcome). length r.table.rows ≡ length t.rows + r.enqueued) o.raised _ _
        (omega (arith, rest, a.new)) λ e h. a.new

-- One iteration leaves no mode with more queued jobs than the cap, or than it had before if that was
-- more, whatever the matchmaker answers, and also where an exception ends it.
pub run_one_iteration-cap :
    (w : World) (cap i : ℕ) (modes : List Mode) (t : JobTable)
    → IsUnique modes
    → queue i (run_one_iteration w cap modes t).table ≤ max cap (queue i t)
unfolding run_one_iteration
run_one_iteration-cap w cap i modes t unique =
    walk_modes-cap w cap i (count_queued_by_mode t) modes t unique (count_queued_by_mode-lookup i t)

-- The number that an iteration reports is the number of rows that it has added to the table.
pub run_one_iteration-rows :
    (w : World) (cap : ℕ) (modes : List Mode) (t : JobTable)
    → let o = run_one_iteration w cap modes t in length o.table.rows ≡ length t.rows + o.enqueued
unfolding run_one_iteration
run_one_iteration-rows w cap modes t = walk_modes-rows w cap 0 (count_queued_by_mode t) modes t

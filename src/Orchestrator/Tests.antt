-- ===== src/Orchestrator/Tests.antt =====
-- Runs of the models of services/orchestrator/orchestrator at concrete inputs.
use snake_arena.Prelude.{ℕ, ◌≤◌, ◌≡◌, refl, some, List, [], ◌∷◌, arith, length, min, max, nat_key}
use snake_arena.Prelude.Result.{ok}
use snake_arena.Db.Rows.{count_where}
use snake_arena.Db.MatchJobs.{JobTable}
use snake_arena.Orchestrator.Matchmaker.{VersionRef, VersionStats, candidates, pick_match_group}
use snake_arena.Orchestrator.Matchmaker.Groups.{
  is_ref, is_unplayed, pick_match_group-seats, pick_match_group-once,
}
use snake_arena.Orchestrator.Scheduler.{Mode, World, run_one_iteration}
use snake_arena.Orchestrator.Scheduler.QueueCap.{queue, run_one_iteration-cap}

abbrev ref : ℕ → VersionRef
ref i = record { project_id = i; version = 1 }

abbrev four_versions : List VersionRef
four_versions = ref 1 ∷ ref 2 ∷ ref 3 ∷ ref 4 ∷ []

abbrev fresh_stats : VersionStats
fresh_stats = record { ref = ref 2; matches_played = 0; distinct_opponents = 1 }

-- The version of project 2 has played those of projects 1 and 3.
abbrev two_opponents : VersionRef → List VersionRef
two_opponents v = ref 1 ∷ ref 3 ∷ []

abbrev by_index : ℕ → ℕ
by_index i = i

seed_meets_new :
    pick_match_group 2 by_index four_versions two_opponents (fresh_stats ∷ [])
    ≡ ok (some (ref 2 ∷ ref 4 ∷ []))
unfolding pick_match_group
seed_meets_new = refl

seed_once : count_where (is_ref (ref 2)) four_versions ≤ 1
unfolding count_where
seed_once = omega arith

pick_match_group-seats_example :
    (rest : List VersionRef) × (pick_match_group 2 by_index four_versions two_opponents
        (fresh_stats ∷ [])
      ≡ ok (some (ref 2 ∷ rest)))
    × (length rest ≡ 1)
    × (count_where (is_unplayed (two_opponents (ref 2))) rest
        ≡ min 1
            (count_where (is_unplayed (two_opponents (ref 2))) (candidates (ref 2) four_versions)))
pick_match_group-seats_example =
    pick_match_group-seats 2 by_index four_versions two_opponents fresh_stats [] (omega arith)
      (omega arith) seed_once

four_versions_unique : (v : VersionRef) → count_where (is_ref v) four_versions ≤ 1
unfolding count_where
four_versions_unique v = ground arith

pick_match_group-once_example : count_where (is_ref (ref 4)) (ref 2 ∷ ref 4 ∷ []) ≤ 1
pick_match_group-once_example =
    pick_match_group-once 2 by_index four_versions two_opponents fresh_stats [] (omega arith)
      (omega arith) four_versions_unique (ref 2 ∷ ref 4 ∷ []) seed_meets_new (ref 4)

abbrev duel : Mode
duel = record { id = 4; participant_count = 2; sim_args = "{}" }

abbrev alone : Mode
alone = record { id = 5; participant_count = 1; sim_args = "{}" }

abbrev small_world : World
small_world = record {
  now = 100;
  underplayed = λ mode t. fresh_stats ∷ [];
  submitted = λ t. four_versions;
  opponents = λ mode t. two_opponents;
  draw = λ t. by_index;
}

abbrev no_jobs : JobTable
no_jobs = record { next_id = 1; rows = [] }

fills_queue : (run_one_iteration small_world 3 (duel ∷ alone ∷ []) no_jobs).enqueued ≡ 4
unfolding run_one_iteration
fills_queue = refl

run_one_iteration-cap_example :
    queue 4 (run_one_iteration small_world 3 (duel ∷ alone ∷ []) no_jobs).table
    ≤ max 3 (queue 4 no_jobs)
run_one_iteration-cap_example =
    run_one_iteration-cap small_world 3 4 (duel ∷ alone ∷ []) no_jobs (refl, (refl, tt))

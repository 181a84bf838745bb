-- ===== src/Runner/Results.antt =====
-- services/runner/runner/match_results.py: the rows of a match's participants. The analysis comes from the
-- simulation; its numbers, tags and phases are an argument.
pub mod Ranks
use Prim.Native.String.{String}
use snake_arena.Prelude.{
  ℕ, suc, ◌+◌, Bool, true, false, ◌&&◌, ◌||◌, not, Option, none, some, List, [], ◌∷◌, map, ltb, leb,
  ◌==◌, nat_key, string_key, length, if◌then◌else◌,
}
use snake_arena.Prelude.Dict.{Dict, lookup, insert, contains}
use snake_arena.Prelude.Result.{Result, ok, err, ◌>>=◌, traverse}
use snake_arena.Scoring.Numbers.{Float}
use snake_arena.Types.{ParticipantRow}
use snake_arena.Db.Rows.{order_by}

-- A phase of `tail_visible_phases`, and a trap of `traps_mapping`.
pub record Phase : Type 0 where
  pub tail_visible : Bool
  pub end_step_idx : Option ℕ

pub record Trap : Type 0 where
  pub trapped_ids : List ℕ
  pub trapping_ids : List ℕ

-- What the code reads of `RunAnalysis`. A key of the two mappings is the number that `int` makes of it,
-- where it makes one.
pub record Analysis : Type 0 where
  pub snake_ids : List ℕ
  pub snake_tags : Dict ℕ String
  pub fatal_steps : Dict ℕ ℕ
  pub final_step_idx : ℕ
  pub start_lengths : Dict ℕ ℕ
  pub final_lengths : Dict ℕ ℕ
  pub traps_mapping : List (Option ℕ × List Trap)
  pub tail_visible_phases : List (Option ℕ × List Phase)

-- The latest step at which a tail was visible; `none` stands for -1.
abbrev later : Option ℕ → ℕ → Option ℕ
later none end = some end
later (some latest) end = if ltb latest end then some end else some latest

abbrev pub latest_visible : List Phase → Option ℕ → Option ℕ
latest_visible [] latest = latest
latest_visible (p ∷ ps) latest = latest_visible ps (
    if p.tail_visible
    then elim p.end_step_idx [ none ↦ latest | some end ↦ later latest end ]
    else latest)

-- `last_visible_step`
unfoldable pub last_visible_step :
    List (Option ℕ × List Phase) → Dict ℕ (Option ℕ) → Dict ℕ (Option ℕ)
last_visible_step [] d = d
last_visible_step ((none, phases) ∷ rest) d = last_visible_step rest d
last_visible_step ((some sid, phases) ∷ rest) d =
    last_visible_step rest (insert sid (latest_visible phases none) d)

-- `last_visible_step.get(tid, NEVER_LOST_TAIL) <= trap_step`
abbrev pub is_enclosed : Dict ℕ (Option ℕ) → ℕ → ℕ → Bool
is_enclosed last step tid = elim (lookup tid last) [
  | none ↦ false
  | some seen ↦ elim seen [ none ↦ true | some latest ↦ leb latest step ]
]

abbrev all_enclosed : Dict ℕ (Option ℕ) → ℕ → List ℕ → Bool
all_enclosed last step [] = true
all_enclosed last step (tid ∷ tids) = is_enclosed last step tid && all_enclosed last step tids

abbrev is_kill : Dict ℕ (Option ℕ) → ℕ → List ℕ → Bool
is_kill last step [] = false
is_kill last step (tid ∷ tids) = all_enclosed last step (tid ∷ tids)

-- `counts[sid] += 1`, for a known snake.
abbrev pub credit : List ℕ → Dict ℕ ℕ → Dict ℕ ℕ
credit [] counts = counts
credit (sid ∷ sids) counts =
    credit sids (elim (lookup sid counts) [ none ↦ counts | some n ↦ insert sid (suc n) counts ])

abbrev pub credit_traps : Dict ℕ (Option ℕ) → ℕ → List Trap → Dict ℕ ℕ → Dict ℕ ℕ
credit_traps last step [] counts = counts
credit_traps last step (t ∷ ts) counts =
    credit_traps last step ts
      (if is_kill last step t.trapped_ids then credit t.trapping_ids counts else counts)

abbrev pub credit_steps : Dict ℕ (Option ℕ) → List (Option ℕ × List Trap) → Dict ℕ ℕ → Dict ℕ ℕ
credit_steps last [] counts = counts
credit_steps last ((none, traps) ∷ rest) counts = credit_steps last rest counts
credit_steps last ((some step, traps) ∷ rest) counts =
    credit_steps last rest (credit_traps last step traps counts)

abbrev zero_counts : List ℕ → Dict ℕ ℕ → Dict ℕ ℕ
zero_counts [] d = d
zero_counts (sid ∷ sids) d = zero_counts sids (insert sid 0 d)

-- `_trapping_counts`
unfoldable pub trapping_counts :
    List (Option ℕ × List Trap) → List (Option ℕ × List Phase) → List ℕ → Dict ℕ ℕ
unfolding last_visible_step
trapping_counts traps phases snake_ids =
    credit_steps (last_visible_step phases []) traps (zero_counts snake_ids [])

-- `death_order_key`
abbrev pub death_order_key : Analysis → ℕ → ℕ
death_order_key a sid = elim (lookup sid a.fatal_steps) [
  | none ↦ a.final_step_idx + 1
  | some step ↦ step
]

-- `sorted(…, reverse=True)`, which keeps the order of equal keys.
unfoldable pub ranked : Analysis → List ℕ
unfolding order_by
ranked a = order_by (λ s t. not (ltb (death_order_key a s) (death_order_key a t))) a.snake_ids

-- `{sid: i + 1 for i, sid in enumerate(ranked)}`
abbrev pub rank_from : ℕ → List ℕ → Dict ℕ ℕ → Dict ℕ ℕ
rank_from i [] d = d
rank_from i (sid ∷ sids) d = rank_from (suc i) sids (insert sid (suc i) d)

unfoldable pub rank_of_snake : Analysis → Dict ℕ ℕ
unfolding ranked
rank_of_snake a = rank_from 0 (ranked a) []

-- The errors that the code raises.
pub data ResultError : Type 0 where
  no_run_analysis no_exec_times no_final_length no_start_length no_steps key_error : ResultError

abbrev budget_kill_reasons : List String
budget_kill_reasons =
    "per_step" ∷ "sustained" ∷ "wall_clock" ∷ "sustained_wall" ∷ "startup_cpu" ∷ []

abbrev pub is_among_names : String → List String → Bool
is_among_names s [] = false
is_among_names s (t ∷ ts) = s == t || is_among_names s ts

-- `d[key]`, and a value that the code requires.
abbrev pub require {ℓ} : {A : Type ℓ} → ResultError → Option A → Result ResultError A
require e none = err e
require e (some a) = ok a

-- What the code reads of `MatchResult`.
pub record MatchResult (W : Type 0) : Type 0 where
  pub run_analysis : Option Analysis
  pub exec_times : Option (Dict ℕ (List W))
  pub tags_to_names : Dict String String
  pub kill_reasons : Option (Dict ℕ (Option String))

abbrev pub killed_by_budget : Option (Dict ℕ (Option String)) → ℕ → Bool
killed_by_budget none seat = false
killed_by_budget (some reasons) seat = elim (lookup seat reasons) [
  | none ↦ false
  | some reason ↦ elim reason [ none ↦ false | some r ↦ is_among_names r budget_kill_reasons ]
]

module _ {W : Type 0} (f : Float W) where
  -- `sum(seat_exec) / steps_alive`, of the steps that a seat has played.
  abbrev pub steps_of : Option (List W) → Result ResultError (ℕ × W)
  steps_of none = err no_steps
  steps_of (some []) = err no_steps
  steps_of (some (x ∷ xs)) =
      ok (length (x ∷ xs), f.div (f.sum (x ∷ xs)) (f.of_nat (length (x ∷ xs))))

  -- One snake with a seat.
  abbrev pub seated_row :
      MatchResult W
      → Dict String ℕ
      → Dict String ℕ
      → Analysis
      → Dict ℕ (List W)
      → ℕ
      → String
      → ℕ
      → Result ResultError (ParticipantRow W)
  unfolding trapping_counts rank_of_snake
  seated_row result projects versions a exec_times sid name seat = do
    final_length ← require no_final_length (lookup sid a.final_lengths)
    start_length ← require no_start_length (lookup sid a.start_lengths)
    steps ← steps_of (lookup seat exec_times)
    trapped ←
        require key_error
          (lookup sid (trapping_counts a.traps_mapping a.tail_visible_phases a.snake_ids))
    project ← require key_error (lookup name projects)
    version ← require key_error (lookup name versions)
    rank ← require key_error (lookup sid (rank_of_snake a))
    ok (record {
      seat = seat;
      project_id = project;
      project_version = version;
      final_length = some final_length;
      fatal_step = lookup sid a.fatal_steps;
      survival_rank = some rank;
      killed_by_budget = killed_by_budget result.kill_reasons seat;
      metrics =
          ("start_length", f.of_nat start_length)
          ∷ ("steps_alive", f.of_nat steps.0)
          ∷ ("avg_cpu_ms", steps.1)
          ∷ ("trapping_count", f.of_nat trapped)
          ∷ [];
    })

  -- The agent's name and seat, where the setup knows them.
  abbrev pub seat_of : MatchResult W → Dict String ℕ → Analysis → ℕ → Option (String × ℕ)
  seat_of result seats a sid = elim (lookup sid a.snake_tags) [
    | none ↦ none
    | some tag ↦ elim (lookup tag result.tags_to_names) [
      | none ↦ none
      | some name ↦ elim (lookup name seats) [ none ↦ none | some seat ↦ some (name, seat) ]
    ]
  ]

  -- The loop over the snakes, which skips those without a seat.
  abbrev pub rows_of :
      MatchResult W
      → Dict String ℕ
      → Dict String ℕ
      → Dict String ℕ
      → Analysis
      → Dict ℕ (List W)
      → List ℕ
      → Result ResultError (List (ParticipantRow W))
  unfolding trapping_counts rank_of_snake
  rows_of result projects versions seats a exec_times [] = ok []
  rows_of result projects versions seats a exec_times (sid ∷ sids) =
      let rest = rows_of result projects versions seats a exec_times sids in
      elim (seat_of result seats a sid) [
        | none ↦ rest
        | some place ↦ elim (seated_row result projects versions a exec_times sid place.0 place.1) [
          | err e ↦ err e
          | ok row ↦ elim rest [ err e ↦ err e | ok rows ↦ ok (row ∷ rows) ]
        ]
      ]

  -- `build_participants`
  unfoldable pub build_participants :
      MatchResult W
      → Dict String ℕ
      → Dict String ℕ
      → Dict String ℕ
      → Result ResultError (List (ParticipantRow W))
  unfolding trapping_counts rank_of_snake
  build_participants result projects versions seats = do
    a ← require no_run_analysis result.run_analysis
    exec_times ← require no_exec_times result.exec_times
    rows_of result projects versions seats a exec_times a.snake_ids

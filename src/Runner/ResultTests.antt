-- ===== src/Runner/ResultTests.antt =====
-- Runs of the model of services/runner/runner/match_results.py at a concrete analysis.
use Prim.Native.String.{String}
use snake_arena.Prelude.{ℕ, ◌≡◌, refl, true, Option, none, some, List, [], ◌∷◌, map}
use snake_arena.Prelude.Result.{Result, ok, err, IfOk}
use snake_arena.Scoring.Tests.{hundredths}
use snake_arena.Types.{ParticipantRow}
use snake_arena.Runner.Results.{
  Analysis, MatchResult, ResultError, build_participants, trapping_counts,
}
use snake_arena.Runner.Results.Ranks.{IsFair, build_participants-IsFair}

-- Snake 1 is trapped at step 20 and dies at step 30; snake 0 lives to the end.
abbrev pub duel_analysis : Analysis
duel_analysis = record {
  snake_ids = 0 ∷ 1 ∷ [];
  snake_tags = (0, "tag_a") ∷ (1, "tag_b") ∷ [];
  fatal_steps = (1, 30) ∷ [];
  final_step_idx = 40;
  start_lengths = (0, 3) ∷ (1, 3) ∷ [];
  final_lengths = (0, 12) ∷ (1, 9) ∷ [];
  traps_mapping = (some 20, record { trapped_ids = 1 ∷ []; trapping_ids = 0 ∷ [] } ∷ []) ∷ [];
  tail_visible_phases = (some 1, record { tail_visible = true; end_step_idx = some 15 } ∷ []) ∷ [];
}

abbrev pub duel_result : MatchResult ℕ
duel_result = record {
  run_analysis = some duel_analysis;
  exec_times = some ((0, 100 ∷ 300 ∷ []) ∷ (1, 200 ∷ []) ∷ []);
  tags_to_names = ("tag_a", "agent_0") ∷ ("tag_b", "agent_1") ∷ [];
  kill_reasons = none;
}

abbrev by_name : ℕ → ℕ → List (String × ℕ)
by_name a b = ("agent_0", a) ∷ ("agent_1", b) ∷ []

abbrev shown_ranks : Result ResultError (List (ParticipantRow ℕ)) → List (ℕ × Option ℕ)
shown_ranks (ok rows) = map (λ r. (r.seat, r.survival_rank)) rows
shown_ranks (err e) = []

ranks_of_duel :
    shown_ranks
      (build_participants hundredths duel_result (by_name 11 12) (by_name 2 1) (by_name 0 1))
    ≡ (0, some 1) ∷ (1, some 2) ∷ []
unfolding build_participants
ranks_of_duel = refl

traps_of_duel :
    trapping_counts duel_analysis.traps_mapping duel_analysis.tail_visible_phases
      duel_analysis.snake_ids
    ≡ (0, 1) ∷ (1, 0) ∷ []
unfolding trapping_counts
traps_of_duel = refl

build_participants-IsFair_example :
    IfOk
      (IsFair hundredths duel_analysis)
      (build_participants hundredths duel_result (by_name 11 12) (by_name 2 1) (by_name 0 1))
build_participants-IsFair_example =
    build_participants-IsFair hundredths duel_result (by_name 11 12) (by_name 2 1) (by_name 0 1)
      duel_analysis refl

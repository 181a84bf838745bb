-- ===== src/Orchestrator/MatchPolicy.antt =====
-- services/orchestrator/orchestrator/match_policy.py: the settings of a match.
use snake_arena.Prelude.{ℕ, Bool, Option, none, some, ltb, if◌then◌else◌}
use snake_arena.Scoring.Numbers.{Float}
use snake_arena.Scoring.{per_step_budget_seconds}

-- `LAST_STANDING_BUFFER_STEPS`
abbrev pub last_standing_buffer_steps : ℕ
last_standing_buffer_steps = 200

-- The keyword arguments of `run_match`.
pub record MatchSettings (W : Type 0) : Type 0 where
  pub per_step_budget : W
  pub end_on_last_standing_when_longest : Bool
  pub end_on_last_standing_buffer_steps : Option ℕ

-- `run_match_kwargs`
abbrev pub run_match_kwargs : {W : Type 0} → Float W → W → ℕ → MatchSettings W
run_match_kwargs f avg_budget_ms participant_count =
    let is_multi = ltb 1 participant_count in
    record {
      per_step_budget = per_step_budget_seconds f avg_budget_ms;
      end_on_last_standing_when_longest = is_multi;
      end_on_last_standing_buffer_steps =
          if is_multi then some last_standing_buffer_steps else none;
    }

-- ===== src/Db/ScoreTests.antt =====
-- Runs of the models of agent_scores.py, leaderboard.py and matches.py at a concrete mode with three
-- projects, with hundredths in place of floats.
use snake_arena.Prelude.{
  ℕ, ◌*◌, ◌≡◌, refl, true, false, Option, none, some, List, [], ◌∷◌, map, All,
}
use snake_arena.Prelude.Result.{Result, ok, err, IfOk}
use snake_arena.Scoring.{ScoreError, multi}
use snake_arena.Scoring.Numbers.{InUnit}
use snake_arena.Scoring.Tests.{hundredths, hundredths-IsFloat}
use snake_arena.Db.Projects.{Project, Projects, browser}
use snake_arena.Db.AgentScores.TestScores.{TestScore, score_test_match}
use snake_arena.Db.AgentScores.TestScores.Range.{IsScored, score_test_match-IsScored}
use snake_arena.Db.Matches.History.{list_ranked_matches_for_project}
use snake_arena.Types.{ParticipantRow}
use snake_arena.Db.Matches.{Match, success, Participant, MatchTables, prune_obsolete_ranked_matches}
use snake_arena.Db.AgentScores.{ModeScoring, AgentScoreRow, scored_rows, fetch_mode}
use snake_arena.Db.AgentScores.Aggregate.{compute_mode_scores}
use snake_arena.Db.AgentScores.Pruned.{scored_rows-prune}
use snake_arena.Db.AgentScores.Scores.{ScoresOf, compute_mode_scores-HasScore}
use snake_arena.Db.Leaderboard.{
  UserName, LeaderboardEntry, get_mode_leaderboard, get_group_leaderboard,
}
use snake_arena.Db.Leaderboard.Ranks.{
  IsBoard, get_mode_leaderboard-IsBoard, get_group_leaderboard-IsBoard,
}

abbrev pub owned_by : ℕ → ℕ → ℕ → Project
owned_by owner i version = record {
  id = i;
  user_id = some owner;
  guest_session_id = none;
  name = "agent";
  language = "python";
  source = browser;
  dev_code_archive = none;
  dev_image_tag = none;
  dev_build_status = none;
  dev_built_at = none;
  submitted_code_archive = some 1;
  submitted_image_tag = some 1;
  submitted_version = version;
  submitted_at = some 1;
  submitted_crashed = false;
  created_at = 0;
  updated_at = 1;
}

abbrev pub contestants : Projects
contestants = owned_by 1 11 2 ∷ owned_by 2 12 1 ∷ owned_by 2 13 1 ∷ []

abbrev owners : List UserName
owners = record { id = 1; display_name = "ada" } ∷ record { id = 2; display_name = "alan" } ∷ []

abbrev ranked_match : ℕ → Match
ranked_match i = record {
  id = i;
  match_uuid = "m";
  status = success;
  mode_id = some 7;
  sim_args = "";
  started_at = i;
  finished_at = some i;
  bundle_key = some "key";
  error = none;
  is_test = false;
}

abbrev seated : ℕ → ℕ → ℕ → ℕ → ℕ → Participant ℕ
seated i seat project version rank = record {
  match_id = i;
  row = record {
    seat = seat;
    project_id = project;
    project_version = version;
    final_length = some (10 * rank);
    fatal_step = none;
    survival_rank = some rank;
    killed_by_budget = false;
    metrics = ("avg_cpu_ms", 20 * rank) ∷ ("trapping_count", 0) ∷ [];
  };
}

-- Match 1 is of a version that project 11 has replaced.
abbrev pub played : MatchTables ℕ
played = record {
  next_id = 4;
  matches = ranked_match 1 ∷ ranked_match 2 ∷ ranked_match 3 ∷ [];
  participants =
      seated 1 0 11 1 1
      ∷ seated 2 0 11 2 1
      ∷ seated 2 1 12 1 2
      ∷ seated 2 2 13 1 3
      ∷ seated 3 0 12 1 1
      ∷ seated 3 1 11 2 2
      ∷ [];
}

abbrev duel : ModeScoring ℕ
duel = record {
  id = 7;
  scoring_kind = multi;
  target_matches = 3;
  avg_budget_ms = 100;
  group_slug = some "duels";
  enabled = true;
}

abbrev modes_of_duel : List (ModeScoring ℕ)
modes_of_duel = duel ∷ []

abbrev shown_scores : Result ScoreError (List (AgentScoreRow ℕ)) → List (ℕ × Option ℕ)
shown_scores (ok rows) = map (λ r. (r.project_id, r.score)) rows
shown_scores (err e) = []

-- The project with one match is below the threshold of two.
scores_of_duel :
    shown_scores (compute_mode_scores hundredths 7 modes_of_duel contestants played)
    ≡ (11, some 41) ∷ (12, some 38) ∷ (13, none) ∷ []
unfolding compute_mode_scores
scores_of_duel = refl

compute_mode_scores-HasScore_example :
    IfOk
      (ScoresOf hundredths hundredths-IsFloat (fetch_mode hundredths 7 modes_of_duel))
      (compute_mode_scores hundredths 7 modes_of_duel contestants played)
compute_mode_scores-HasScore_example =
    compute_mode_scores-HasScore hundredths hundredths-IsFloat 7 modes_of_duel contestants played

scored_rows-prune_example :
    scored_rows 7 contestants (prune_obsolete_ranked_matches ℕ contestants played).1
    ≡ scored_rows 7 contestants played
scored_rows-prune_example = scored_rows-prune contestants 7 played

abbrev shown_board : Result ScoreError (List (LeaderboardEntry ℕ)) → List (ℕ × ℕ)
shown_board (ok rows) = map (λ r. (r.rank, r.project_id)) rows
shown_board (err e) = []

board_of_duel :
    shown_board (get_mode_leaderboard hundredths 7 100 modes_of_duel contestants owners played)
    ≡ (1, 11) ∷ (2, 12) ∷ []
unfolding get_mode_leaderboard
board_of_duel = refl

get_mode_leaderboard-IsBoard_example :
    IfOk
      (λ es.
        IsBoard hundredths hundredths-IsFloat (λ e. e.rank) (λ e. e.score) 100 es
        × All (λ e. InUnit hundredths e.score) es)
      (get_mode_leaderboard hundredths 7 100 modes_of_duel contestants owners played)
get_mode_leaderboard-IsBoard_example =
    get_mode_leaderboard-IsBoard hundredths hundredths-IsFloat 7 100 modes_of_duel contestants
      owners played

get_group_leaderboard-IsBoard_example :
    IfOk
      (IsBoard hundredths hundredths-IsFloat (λ e. e.rank) (λ e. e.group_score) 100)
      (get_group_leaderboard hundredths "duels" 100 modes_of_duel contestants owners played)
get_group_leaderboard-IsBoard_example =
    get_group_leaderboard-IsBoard hundredths hundredths-IsFloat "duels" 100 modes_of_duel
      contestants owners played

-- The test match of three snakes.
abbrev three_rows : List (ParticipantRow ℕ)
three_rows = (seated 2 0 11 0 1).row ∷ (seated 2 1 12 1 2).row ∷ (seated 2 2 13 1 3).row ∷ []

abbrev shown_test : Result ScoreError (Option (TestScore ℕ)) → Option ℕ
shown_test (ok (some s)) = some s.score
shown_test (ok none) = none
shown_test (err e) = none

score_of_test :
    shown_test (score_test_match hundredths three_rows 0 100 none modes_of_duel contestants played)
    ≡ some 40
unfolding score_test_match
score_of_test = refl

score_test_match-IsScored_example :
    IfOk
      (IsScored hundredths hundredths-IsFloat)
      (score_test_match hundredths three_rows 0 100 (some 7) modes_of_duel contestants played)
score_test_match-IsScored_example =
    score_test_match-IsScored hundredths hundredths-IsFloat three_rows 0 100 (some 7) modes_of_duel
      contestants played

-- The latest match of project 12, with its participants by seat.
latest_of_12 :
    map
      (λ r. map (λ p. p.project_id) r.participants)
      (list_ranked_matches_for_project 12 1 none contestants played)
    ≡ (12 ∷ 11 ∷ []) ∷ []
unfolding list_ranked_matches_for_project
latest_of_12 = refl

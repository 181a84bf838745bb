-- ===== src/Db/AgentScores/TestScores.antt =====
-- services/sa_common/sa_common/db/agent_scores.py: `score_test_match`, the score of a test match.
pub mod Range
use Prim.Native.String.{String}
use snake_arena.Prelude.{
  ℕ, Bool, true, false, ◌&&◌, Option, none, some, List, [], ◌∷◌, map, ltb, nat_key, string_key,
  length, if◌then◌else◌,
}
use snake_arena.Prelude.Dict.{Dict, lookup, insert}
use snake_arena.Prelude.Result.{Result, ok, err, ◌>>=◌, traverse}
use snake_arena.Scoring.Numbers.{Float}
use snake_arena.Scoring.{
  ScoringKind, multi, solo, CategoryName, category_key, Category, categories_for, ScoreError, item,
  values, multi_match_quality, solo_match_quality, cpu_factor, mean,
}
use snake_arena.Types.{ParticipantRow, is_given}
use snake_arena.Db.Projects.{Projects}
use snake_arena.Db.Matches.{Participant, MatchTables}
use snake_arena.Db.AgentScores.{
  min_matches, ModeScoring, Entry, raw_values, fetch_mode, fetch_participations,
}
use snake_arena.Db.AgentScores.Aggregate.{
  by_project, eligible_projects, means_of, solo_leader_basis,
}

-- The result of `score_test_match`.
pub record TestScore (W : Type 0) : Type 0 where
  pub score : W
  pub quality : W
  pub factor : W
  pub categories : List (Entry W)
  pub avg_cpu_ms : W

-- `{r["seat"]: {**r, "match_id": None} for r in participants}`; the match id is not read.
abbrev pub rows_by_seat :
    {W : Type 0} → List (ParticipantRow W) → Dict ℕ (Participant W) → Dict ℕ (Participant W)
rows_by_seat [] d = d
rows_by_seat (r ∷ rs) d = rows_by_seat rs (insert r.seat (record { match_id = 0; row = r }) d)

-- The rows with an outcome.
abbrev pub with_outcome : {W : Type 0} → Dict ℕ (Participant W) → Dict ℕ (Participant W)
with_outcome [] = []
with_outcome ((seat, p) ∷ d) =
    let rest = with_outcome d in
    if is_given p.row.final_length && is_given p.row.survival_rank then (seat, p) ∷ rest else rest

module _ {W : Type 0} (f : Float W) where
  abbrev pub one_value :
      List Category → ℕ × Participant W → Result ScoreError (ℕ × Dict CategoryName W)
  unfolding raw_values
  one_value categories (seat, p) = elim (raw_values f categories p) [
    | err e ↦ err e
    | ok d ↦ ok (seat, d)
  ]

  -- The dev agent's CPU time, where it has played.
  abbrev pub dev_cpu : Option (Participant W) → Option W
  dev_cpu none = none
  dev_cpu (some p) = if is_given p.row.final_length then lookup "avg_cpu_ms" p.row.metrics else none

  abbrev pub test_entry :
      Dict CategoryName W → Dict CategoryName W → Category → Result ScoreError (Entry W)
  test_entry own fracs c = do
    raw ← item c.name own
    rank ← item c.name fracs
    ok (record { name = c.name; raw = raw; rank = some rank })

  -- The fractions of a test match in a mode of one snake: against the mode's eligible agents.
  unfoldable pub solo_fracs :
      ℕ
      → ℕ
      → List Category
      → Projects
      → MatchTables W
      → Dict ℕ (Dict CategoryName W)
      → ℕ
      → Result ScoreError (Option (Dict CategoryName W))
  unfolding fetch_participations solo_leader_basis solo_match_quality traverse
  solo_fracs mode_id target categories projects t vals dev_seat = do
    participations ← fetch_participations f mode_id categories projects t
    let grouped = by_project participations []
    means ← traverse (means_of f categories) grouped
    basis ← solo_leader_basis f categories means (eligible_projects (min_matches target) grouped)
    elim basis [
      | [] ↦ ok none
      | b ∷ bs ↦ (do
        own ← item dev_seat vals
        fracs ← solo_match_quality f own (b ∷ bs) categories
        ok (some fracs))
    ]

  -- The fractions among the snakes of the match.
  unfoldable pub multi_fracs :
      List Category
      → Dict ℕ (Dict CategoryName W)
      → ℕ
      → Result ScoreError (Option (Dict CategoryName W))
  unfolding multi_match_quality
  multi_fracs categories vals dev_seat =
      if ltb (length vals) 2
      then ok none
      else elim (multi_match_quality f vals dev_seat categories) [
        | err e ↦ err e
        | ok fracs ↦ ok (some fracs)
      ]

  -- The score from the fractions.
  unfoldable pub test_score :
      List Category
      → Dict ℕ (Dict CategoryName W)
      → ℕ
      → W
      → W
      → Dict CategoryName W
      → Result ScoreError (TestScore W)
  unfolding cpu_factor traverse
  test_score categories vals dev_seat avg_cpu avg_budget fracs = do
    quality ← mean f (values fracs)
    own ← item dev_seat vals
    entries ← traverse (test_entry own fracs) categories
    ok (record {
      score = f.mul quality (cpu_factor f avg_cpu avg_budget);
      quality = quality;
      factor = cpu_factor f avg_cpu avg_budget;
      categories = entries;
      avg_cpu_ms = avg_cpu;
    })

  -- With a mode its kind applies; without one the match is scored among its snakes.
  abbrev pub kind_of : Option ℕ → List (ModeScoring W) → Result ScoreError (ScoringKind × ℕ)
  kind_of none modes = ok (multi, 0)
  kind_of (some i) modes = elim (fetch_mode f i modes) [
    | err e ↦ err e
    | ok m ↦ ok (m.scoring_kind, m.target_matches)
  ]

  unfoldable pub fracs_of :
      ScoringKind
      → Option ℕ
      → ℕ
      → List Category
      → Projects
      → MatchTables W
      → Dict ℕ (Dict CategoryName W)
      → ℕ
      → Result ScoreError (Option (Dict CategoryName W))
  unfolding solo_fracs multi_fracs
  fracs_of multi mode_id target categories projects t vals dev_seat =
      multi_fracs categories vals dev_seat
  fracs_of solo none target categories projects t vals dev_seat = ok none
  fracs_of solo (some i) target categories projects t vals dev_seat =
      solo_fracs i target categories projects t vals dev_seat

  -- `score_test_match`
  unfoldable pub score_test_match :
      List (ParticipantRow W)
      → ℕ
      → W
      → Option ℕ
      → List (ModeScoring W)
      → Projects
      → MatchTables W
      → Result ScoreError (Option (TestScore W))
  unfolding fracs_of test_score one_value traverse
  score_test_match participants dev_seat avg_budget mode_id modes projects t = do
    kind ← kind_of mode_id modes
    let categories = categories_for kind.0
    let rows = rows_by_seat participants []
    elim (dev_cpu (lookup dev_seat rows)) [
      | none ↦ ok none
      | some avg_cpu ↦ (do
        vals ← traverse (one_value categories) (with_outcome rows)
        found ← fracs_of kind.0 mode_id kind.1 categories projects t vals dev_seat
        elim found [
          | none ↦ ok none
          | some fracs ↦ elim (test_score categories vals dev_seat avg_cpu avg_budget fracs) [
            | err e ↦ err e
            | ok s ↦ ok (some s)
          ]
        ])
    ]

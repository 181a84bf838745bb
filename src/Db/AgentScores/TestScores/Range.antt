-- ===== src/Db/AgentScores/TestScores/Range.antt =====
-- services/sa_common/sa_common/db/agent_scores.py: the range of the score of a test match.
use snake_arena.Prelude.{
  ℕ, ◌≡◌, refl, Option, none, some, List, [], ◌∷◌, ltb, length, nat_key, by_if, by_option, by_list,
}
use snake_arena.Prelude.Dict.{Dict, lookup}
use snake_arena.Prelude.Result.{Result, ok, err, traverse, IfOk, IfOk-then, IfOk-after}
use snake_arena.Scoring.Numbers.{Float, IsFloat, InUnit}
use snake_arena.Scoring.{
  ScoringKind, multi, solo, CategoryName, Category, category_key, categories_for, ScoreError, item,
  values, multi_match_quality, solo_match_quality, cpu_factor, mean,
}
use snake_arena.Scoring.Range.{
  HasRange, multi_match_quality-InUnit, solo_match_quality-InUnit, mean_quality-InUnit,
  cpu_factor-InUnit, product-InUnit,
}
use snake_arena.Types.{ParticipantRow}
use snake_arena.Db.Projects.{Projects}
use snake_arena.Db.Matches.{MatchTables}
use snake_arena.Db.AgentScores.{ModeScoring, min_matches, fetch_participations}
use snake_arena.Db.AgentScores.Aggregate.{
  by_project, eligible_projects, means_of, solo_leader_basis,
}
use snake_arena.Db.AgentScores.TestScores.{
  TestScore, rows_by_seat, with_outcome, one_value, dev_cpu, test_entry, solo_fracs, multi_fracs,
  test_score, kind_of, fracs_of, score_test_match,
}

module _ {W : Type 0} (f : Float W) (laws : IsFloat f) where
  abbrev FoundRange : Option (Dict CategoryName W) → Type 0
  FoundRange none = Unit
  FoundRange (some d) = HasRange f laws d

  -- The score, the quality and the factor lie between 0 and 1, and the score is their product.
  abbrev pub IsTestScore : TestScore W → Type 0
  IsTestScore s =
      InUnit f s.score
      × InUnit f s.quality
      × InUnit f s.factor
      × (s.score ≡ f.mul s.quality s.factor)

  abbrev pub IsScored : Option (TestScore W) → Type 0
  IsScored none = Unit
  IsScored (some s) = IsTestScore s

  found :
      (r : Result ScoreError (Dict CategoryName W))
      → IfOk (HasRange f laws) r
      → IfOk FoundRange (elim r [ err e ↦ err e | ok d ↦ ok (some d) ])
  found (ok d) h = h
  found (err e) h = tt

  multi_fracs-FoundRange :
      (categories : List Category) (vals : Dict ℕ (Dict CategoryName W)) (dev_seat : ℕ)
      → IfOk FoundRange (multi_fracs f categories vals dev_seat)
  unfolding multi_fracs
  multi_fracs-FoundRange categories vals dev_seat =
      by_if (IfOk FoundRange) (ltb (length vals) 2) (ok none) _ (λ e. tt)
        (λ e.
          found (multi_match_quality f vals dev_seat categories)
            (multi_match_quality-InUnit f laws vals dev_seat categories))

  solo_fracs-FoundRange :
      (mode_id target : ℕ) (categories : List Category) (projects : Projects) (t : MatchTables W)
      (vals : Dict ℕ (Dict CategoryName W)) (dev_seat : ℕ)
      → IfOk FoundRange (solo_fracs f mode_id target categories projects t vals dev_seat)
  unfolding solo_fracs
  solo_fracs-FoundRange mode_id target categories projects t vals dev_seat =
      IfOk-after FoundRange (fetch_participations f mode_id categories projects t) _
        λ participations.
          let grouped = by_project participations [] in
          IfOk-after FoundRange (traverse (means_of f categories) grouped) _ λ means.
            IfOk-after FoundRange
              (solo_leader_basis f categories means
                (eligible_projects (min_matches target) grouped))
              _
              λ basis. by_list (IfOk FoundRange) basis _ _ tt λ b bs.
                IfOk-after FoundRange (item dev_seat vals) _ λ own.
                  found (solo_match_quality f own (b ∷ bs) categories)
                    (solo_match_quality-InUnit f laws own (b ∷ bs) categories)

  fracs_of-FoundRange :
      (kind : ScoringKind) (mode_id : Option ℕ) (target : ℕ) (categories : List Category)
      (projects : Projects) (t : MatchTables W) (vals : Dict ℕ (Dict CategoryName W)) (dev_seat : ℕ)
      → IfOk FoundRange (fracs_of f kind mode_id target categories projects t vals dev_seat)
  unfolding fracs_of
  fracs_of-FoundRange multi mode_id target categories projects t vals dev_seat =
      multi_fracs-FoundRange categories vals dev_seat
  fracs_of-FoundRange solo none target categories projects t vals dev_seat = tt
  fracs_of-FoundRange solo (some i) target categories projects t vals dev_seat =
      solo_fracs-FoundRange i target categories projects t vals dev_seat

  test_score-IsTestScore :
      (categories : List Category) (vals : Dict ℕ (Dict CategoryName W)) (dev_seat : ℕ)
      (avg_cpu avg_budget : W) (fracs : Dict CategoryName W)
      → HasRange f laws fracs
      → IfOk IsTestScore (test_score f categories vals dev_seat avg_cpu avg_budget fracs)
  unfolding test_score
  test_score-IsTestScore categories vals dev_seat avg_cpu avg_budget fracs range =
      IfOk-then (InUnit f) IsTestScore (mean f (values fracs)) _
        (mean_quality-InUnit f laws fracs range)
        λ quality e q. IfOk-after IsTestScore (item dev_seat vals) _ λ own.
          IfOk-after IsTestScore (traverse (test_entry f own fracs) categories) _ λ entries.
            let c = cpu_factor-InUnit f laws avg_cpu avg_budget in
            (product-InUnit f laws quality (cpu_factor f avg_cpu avg_budget) q c, q, c, refl)

  scored :
      (r : Result ScoreError (TestScore W))
      → IfOk IsTestScore r
      → IfOk IsScored (elim r [ err e ↦ err e | ok s ↦ ok (some s) ])
  scored (ok s) h = h
  scored (err e) h = tt

  -- When `score_test_match` gives a score, the score, the quality and the CPU factor lie between 0 and 1
  -- and the score is the product of the other two, as in a ranked match. The numbers are any type whose
  -- operations satisfy the laws of `IsFloat`.
  pub score_test_match-IsScored :
      (participants : List (ParticipantRow W)) (dev_seat : ℕ) (avg_budget : W) (mode_id : Option ℕ)
      (modes : List (ModeScoring W)) (projects : Projects) (t : MatchTables W)
      → IfOk IsScored (score_test_match f participants dev_seat avg_budget mode_id modes projects t)
  unfolding score_test_match
  score_test_match-IsScored participants dev_seat avg_budget mode_id modes projects t =
      IfOk-after IsScored (kind_of f mode_id modes) _ λ kind.
        let categories = categories_for kind.0 in
        let rows = rows_by_seat participants [] in
        by_option (IfOk IsScored) (dev_cpu f (lookup dev_seat rows)) (ok none) _ tt λ avg_cpu e.
          IfOk-after IsScored (traverse (one_value f categories) (with_outcome rows)) _ λ vals.
            IfOk-then FoundRange IsScored
              (fracs_of f kind.0 mode_id kind.1 categories projects t vals dev_seat) _
              (fracs_of-FoundRange kind.0 mode_id kind.1 categories projects t vals dev_seat)
              λ fractions e1 range. of_fractions categories vals avg_cpu fractions range
    where
      of_fractions :
          (categories : List Category) (vals : Dict ℕ (Dict CategoryName W)) (avg_cpu : W)
          (fractions : Option (Dict CategoryName W))
          → FoundRange fractions
          → IfOk IsScored (elim fractions [
            | none ↦ ok none
            | some fracs ↦ elim (test_score f categories vals dev_seat avg_cpu avg_budget fracs) [
              | err e ↦ err e
              | ok s ↦ ok (some s)
            ]
          ])
      of_fractions categories vals avg_cpu none range = tt
      of_fractions categories vals avg_cpu (some fracs) range =
          scored (test_score f categories vals dev_seat avg_cpu avg_budget fracs)
            (test_score-IsTestScore categories vals dev_seat avg_cpu avg_budget fracs range)

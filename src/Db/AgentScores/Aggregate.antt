-- ===== src/Db/AgentScores/Aggregate.antt =====
-- services/sa_common/sa_common/db/agent_scores.py: from the participations to the score of every agent.
use snake_arena.Prelude.{
  ℕ, Bool, false, ◌||◌, Option, none, some, List, [], ◌∷◌, map, ltb, leb, ◌==◌, nat_key, string_key,
  length, if◌then◌else◌,
}
use snake_arena.Prelude.Dict.{Dict, insert, push}
use snake_arena.Prelude.Result.{Result, ok, err, ◌>>=◌, traverse}
use snake_arena.Scoring.Numbers.{Float}
use snake_arena.Scoring.{
  ScoringKind, multi, solo, CategoryName, category_key, Category, Direction, higher, lower,
  categories_for, ScoreError, no_entries, too_few_participants, item, values, maximum, minimum,
  multi_match_quality, solo_match_quality, cpu_factor, mean,
}
use snake_arena.Db.Projects.{Projects}
use snake_arena.Db.Matches.{MatchTables}
use snake_arena.Db.AgentScores.{
  min_matches, ModeScoring, Participation, Entry, AgentScoreRow, fetch_mode, fetch_participations,
}

-- One match as the aggregation sees it.
pub record Played (W : Type 0) : Type 0 where
  pub fracs : Dict CategoryName W
  pub final : W

-- `by_project` and `version_by_project`
abbrev pub by_project :
    {W : Type 0}
    → List (Participation W)
    → Dict ℕ (List (Participation W))
    → Dict ℕ (List (Participation W))
by_project [] d = d
by_project (p ∷ ps) d = by_project ps (push p.project_id p d)

abbrev pub version_by_project : {W : Type 0} → List (Participation W) → Dict ℕ ℕ → Dict ℕ ℕ
version_by_project [] d = d
version_by_project (p ∷ ps) d = version_by_project ps (insert p.project_id p.project_version d)

-- `pid in eligible`
abbrev pub is_among : ℕ → List ℕ → Bool
is_among i [] = false
is_among i (j ∷ js) = i == j || is_among i js

-- `eligible`: the projects with enough matches.
abbrev pub eligible_projects {ℓ} : {A : Type ℓ} → ℕ → Dict ℕ (List A) → List ℕ
eligible_projects min_required [] = []
eligible_projects min_required ((i, parts) ∷ d) =
    let rest = eligible_projects min_required d in
    if leb min_required (length parts) then i ∷ rest else rest

module _ {W : Type 0} (f : Float W) where
  -- The mean of one category of the matches.
  abbrev pub mean_raw : CategoryName → List (Participation W) → Result ScoreError W
  unfolding traverse
  mean_raw name parts = do xs ← traverse (λ p. item name p.category_values) parts; mean f xs

  abbrev pub mean_rank : CategoryName → List (Played W) → Result ScoreError W
  unfolding traverse
  mean_rank name played = do xs ← traverse (λ q. item name q.fracs) played; mean f xs

  -- One match of `_aggregate_multi`.
  unfoldable pub multi_part : List Category → W → Participation W → Result ScoreError (Played W)
  unfolding multi_match_quality cpu_factor
  multi_part categories budget p = if ltb (length p.peers) 2 then err too_few_participants else do
    fracs ← multi_match_quality f p.peers p.seat categories
    quality ← mean f (values fracs)
    ok (record { fracs = fracs; final = f.mul quality (cpu_factor f p.avg_cpu_ms budget) })

  abbrev pub cpus : W → List (Participation W) → List W
  unfolding cpu_factor
  cpus budget parts = map (λ p. cpu_factor f p.avg_cpu_ms budget) parts

  abbrev pub cpu_entry : W → List (Participation W) → Result ScoreError (W × W)
  unfolding cpu_factor
  cpu_entry budget parts = do
    raw ← mean f (map (λ p. p.avg_cpu_ms) parts)
    rank ← mean f (cpus budget parts)
    ok (raw, rank)

  -- The mean of the finals.
  abbrev pub mean_final : List (Played W) → Result ScoreError W
  mean_final played = mean f (map (λ q. q.final) played)

  abbrev pub score_if : Bool → List (Played W) → Result ScoreError (Option W)
  score_if enough played =
      if enough then elim (mean_final played) [ err e ↦ err e | ok x ↦ ok (some x) ] else ok none

  abbrev pub multi_entry :
      List (Participation W) → List (Played W) → Category → Result ScoreError (Entry W)
  unfolding traverse
  multi_entry parts played c = do
    raw ← mean_raw c.name parts
    rank ← mean_rank c.name played
    ok (record { name = c.name; raw = raw; rank = some rank })

  -- One project of `_aggregate_multi`.
  unfoldable pub multi_row :
      ℕ
      → List Category
      → Dict ℕ ℕ
      → ℕ
      → W
      → ℕ × List (Participation W)
      → Result ScoreError (AgentScoreRow W)
  unfolding multi_part traverse cpu_factor
  multi_row mode_id categories versions min_required budget (project_id, parts) = do
    played ← traverse (multi_part categories budget) parts
    score ← score_if (leb min_required (length parts)) played
    entries ← traverse (multi_entry parts played) categories
    cpu ← cpu_entry budget parts
    version ← item project_id versions
    ok (record {
      project_id = project_id;
      mode_id = mode_id;
      project_version = version;
      matches_played = length parts;
      score = score;
      category_breakdown = entries;
      cpu = cpu;
    })

  -- `_aggregate_multi`
  unfoldable pub aggregate_multi :
      ℕ
      → List Category
      → Dict ℕ (List (Participation W))
      → Dict ℕ ℕ
      → ℕ
      → W
      → Result ScoreError (List (AgentScoreRow W))
  unfolding multi_row traverse
  aggregate_multi mode_id categories projects versions min_required budget =
      traverse (multi_row mode_id categories versions min_required budget) projects

  -- The means of one project, and `per_project_means`.
  abbrev pub means_of :
      List Category → ℕ × List (Participation W) → Result ScoreError (ℕ × Dict CategoryName W)
  unfolding traverse
  means_of categories (project_id, parts) = do
    means ←
        traverse (λ c. elim (mean_raw c.name parts) [ err e ↦ err e | ok x ↦ ok (c.name, x) ])
          categories
    ok (project_id, means)

  abbrev best : Direction → List W → Result ScoreError W
  best direction [] = err no_entries
  best higher (x ∷ xs) = ok (maximum f x xs)
  best lower (x ∷ xs) = ok (minimum f x xs)

  abbrev mean_of : Dict ℕ (Dict CategoryName W) → CategoryName → ℕ → Result ScoreError W
  mean_of means name pid = do d ← item pid means; item name d

  abbrev basis_entry :
      Dict ℕ (Dict CategoryName W) → List ℕ → Category → Result ScoreError (CategoryName × W)
  unfolding traverse
  basis_entry means eligible c = do
    vals ← traverse (mean_of means c.name) eligible
    leader ← best c.direction vals
    ok (c.name, leader)

  -- `_solo_leader_basis`
  unfoldable pub solo_leader_basis :
      List Category
      → Dict ℕ (Dict CategoryName W)
      → List ℕ
      → Result ScoreError (Dict CategoryName W)
  unfolding traverse
  solo_leader_basis categories means [] = ok []
  solo_leader_basis categories means (i ∷ rest) = traverse (basis_entry means (i ∷ rest)) categories

  -- One match of `_aggregate_solo`, among two or more eligible projects.
  unfoldable pub solo_part :
      List Category → Dict CategoryName W → W → Participation W → Result ScoreError (Played W)
  unfolding solo_match_quality cpu_factor
  solo_part categories basis budget p = do
    fracs ← solo_match_quality f p.category_values basis categories
    quality ← mean f (values fracs)
    ok (record { fracs = fracs; final = f.mul quality (cpu_factor f p.avg_cpu_ms budget) })

  -- The matches of a lone eligible project: every fraction is 1.
  abbrev pub lone_part : List Category → W → Participation W → Played W
  unfolding cpu_factor
  lone_part categories budget p = record {
    fracs = map (λ c. (c.name, f.one)) categories;
    final = cpu_factor f p.avg_cpu_ms budget;
  }

  -- The finals of an eligible project: in `_aggregate_solo`, the branches on `len(eligible)`.
  unfoldable pub solo_played :
      List Category
      → Dict CategoryName W
      → List ℕ
      → W
      → List (Participation W)
      → Result ScoreError (List (Played W))
  unfolding solo_part traverse cpu_factor
  solo_played categories basis eligible budget parts =
      if leb 2 (length eligible)
      then traverse (solo_part categories basis budget) parts
      else ok (map (lone_part categories budget) parts)

  abbrev pub solo_entry :
      Bool → Dict CategoryName W → List (Played W) → Category → Result ScoreError (Entry W)
  unfolding traverse
  solo_entry is_eligible means played c = do
    raw ← item c.name means
    rank ←
        if is_eligible
        then elim (mean_rank c.name played) [ err e ↦ err e | ok x ↦ ok (some x) ]
        else ok none
    ok (record { name = c.name; raw = raw; rank = rank })

  -- One project of `_aggregate_solo`.
  unfoldable pub solo_row :
      ℕ
      → List Category
      → Dict ℕ ℕ
      → Dict ℕ (Dict CategoryName W)
      → Dict CategoryName W
      → List ℕ
      → W
      → ℕ × List (Participation W)
      → Result ScoreError (AgentScoreRow W)
  unfolding solo_played traverse cpu_factor
  solo_row mode_id categories versions all_means basis eligible budget (project_id, parts) = do
    means ← item project_id all_means
    cpu ← cpu_entry budget parts
    played ←
        if is_among project_id eligible
        then solo_played categories basis eligible budget parts
        else ok []
    score ← score_if (is_among project_id eligible) played
    entries ← traverse (solo_entry (is_among project_id eligible) means played) categories
    version ← item project_id versions
    ok (record {
      project_id = project_id;
      mode_id = mode_id;
      project_version = version;
      matches_played = length parts;
      score = score;
      category_breakdown = entries;
      cpu = cpu;
    })

  -- `_aggregate_solo`
  unfoldable pub aggregate_solo :
      ℕ
      → List Category
      → Dict ℕ (List (Participation W))
      → Dict ℕ ℕ
      → ℕ
      → W
      → Result ScoreError (List (AgentScoreRow W))
  unfolding solo_row solo_leader_basis traverse
  aggregate_solo mode_id categories projects versions min_required budget =
      let eligible = eligible_projects min_required projects in
      do
        all_means ← traverse (means_of categories) projects
        basis ← solo_leader_basis categories all_means eligible
        traverse (solo_row mode_id categories versions all_means basis eligible budget) projects

  unfoldable pub aggregate :
      ScoringKind
      → ℕ
      → List Category
      → Dict ℕ (List (Participation W))
      → Dict ℕ ℕ
      → ℕ
      → W
      → Result ScoreError (List (AgentScoreRow W))
  unfolding aggregate_multi aggregate_solo
  aggregate multi = aggregate_multi
  aggregate solo = aggregate_solo

  -- `compute_mode_scores`
  unfoldable pub compute_mode_scores :
      ℕ
      → List (ModeScoring W)
      → Projects
      → MatchTables W
      → Result ScoreError (List (AgentScoreRow W))
  unfolding fetch_participations aggregate
  compute_mode_scores mode_id modes projects t = do
    m ← fetch_mode f mode_id modes
    participations ← fetch_participations f mode_id (categories_for m.scoring_kind) projects t
    elim participations [
      | [] ↦ ok []
      | p ∷ ps ↦
          aggregate m.scoring_kind mode_id (categories_for m.scoring_kind) (by_project (p ∷ ps) [])
            (version_by_project (p ∷ ps) []) (min_matches m.target_matches) m.avg_budget_ms
    ]

  abbrev pub row_of : ℕ → List (AgentScoreRow W) → Option (AgentScoreRow W)
  row_of project_id [] = none
  row_of project_id (r ∷ rs) = if r.project_id == project_id then some r else row_of project_id rs

  -- `get_agent_score`
  unfoldable pub get_agent_score :
      ℕ
      → ℕ
      → List (ModeScoring W)
      → Projects
      → MatchTables W
      → Result ScoreError (Option (AgentScoreRow W))
  unfolding compute_mode_scores
  get_agent_score project_id mode_id modes projects t = do
    rows ← compute_mode_scores mode_id modes projects t
    ok (row_of project_id rows)

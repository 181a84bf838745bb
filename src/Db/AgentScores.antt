-- ===== src/Db/AgentScores.antt =====
-- services/sa_common/sa_common/db/agent_scores.py: the scores of the leaderboard, computed from the
-- participants of the ranked matches.
pub mod Aggregate
pub mod Pruned
pub mod TestMatches
pub mod TestScores
pub mod Eligible
pub mod Scores
use Prim.Native.String.{String}
use snake_arena.Prelude.{
  ℕ, suc, ◌+◌, ◌/◌, Bool, true, false, ◌&&◌, ◌||◌, not, Option, none, some, List, [], ◌∷◌, ◌++◌,
  map, Key, ltb, leb, ◌==◌, nat_key, string_key, length, max, if◌then◌else◌,
}
use snake_arena.Prelude.Dict.{Dict, lookup, insert, push}
use snake_arena.Prelude.Result.{Result, ok, err, ◌>>=◌, traverse}
use snake_arena.Scoring.Numbers.{Float}
use snake_arena.Scoring.{
  ScoringKind, multi, solo, CategoryName, survival_rank, trapping_count, final_length, category_key,
  Category, Direction, higher, lower, categories_for, ScoreError, missing_category, not_a_number,
  too_few_participants, no_mode, item, values, maximum, minimum, multi_match_quality,
  solo_match_quality, cpu_factor, mean,
}
use snake_arena.Db.Rows.{select_where, order_by}
use snake_arena.Db.Projects.{Projects}
use snake_arena.Db.Matches.{Match, success, match_status_beq, opt_beq, Participant, MatchTables}

-- `min_matches`: half the target, rounded up, and at least one.
abbrev pub min_matches : ℕ → ℕ
min_matches target = max 1 ((target + 1) / 2)

-- `m.mode_id = … AND m.status = 'success' AND m.is_test = FALSE`
abbrev pub is_ranked : ℕ → Match → Bool
is_ranked mode_id m =
    opt_beq m.mode_id (some mode_id) && (match_status_beq m.status success && not m.is_test)

abbrev pub any_ranked : ℕ → ℕ → List Match → Bool
any_ranked mode_id i [] = false
any_ranked mode_id i (m ∷ ms) = (m.id == i && is_ranked mode_id m) || any_ranked mode_id i ms

module _ {W : Type 0} where
  -- `mp.project_version = p.submitted_version AND p.submitted_version > 0`
  abbrev pub is_latest : Projects → Participant W → Bool
  is_latest [] p = false
  is_latest (q ∷ qs) p =
      (q.id == p.row.project_id
        && (p.row.project_version == q.submitted_version && ltb 0 q.submitted_version))
      || is_latest qs p

  abbrev pub by_seat : Participant W → Participant W → Bool
  by_seat a b =
      ltb a.match_id b.match_id || (a.match_id == b.match_id && not (ltb b.row.seat a.row.seat))

  -- The rows of the query of `_fetch_participations`.
  unfoldable pub scored_rows : ℕ → Projects → MatchTables W → List (Participant W)
  unfolding select_where order_by
  scored_rows mode_id projects t = order_by by_seat (
      select_where (λ p. any_ranked mode_id p.match_id t.matches && is_latest projects p)
        t.participants)

-- What the code reads of the table `modes`.
pub record ModeScoring (W : Type 0) : Type 0 where
  pub id : ℕ
  pub scoring_kind : ScoringKind
  pub target_matches : ℕ
  pub avg_budget_ms : W
  pub group_slug : Option String
  pub enabled : Bool

-- `_Participation`
pub record Participation (W : Type 0) : Type 0 where
  pub match_id : ℕ
  pub seat : ℕ
  pub project_id : ℕ
  pub project_version : ℕ
  pub category_values : Dict CategoryName W
  pub peers : Dict ℕ (Dict CategoryName W)
  pub avg_cpu_ms : W

-- An entry of a breakdown: the mean raw value, and the mean fraction where there is one.
pub record Entry (W : Type 0) : Type 0 where
  pub name : CategoryName
  pub raw : W
  pub rank : Option W

-- `AgentScoreRow`; `cpu` is the entry `cpu_factor` of the breakdown.
pub record AgentScoreRow (W : Type 0) : Type 0 where
  pub project_id : ℕ
  pub mode_id : ℕ
  pub project_version : ℕ
  pub matches_played : ℕ
  pub score : Option W
  pub category_breakdown : List (Entry W)
  pub cpu : W × W

abbrev pub opt_string_beq : Option String → Option String → Bool
opt_string_beq none none = true
opt_string_beq (some a) (some b) = a == b
opt_string_beq _ _ = false

module _ {W : Type 0} (f : Float W) where
  abbrev number : Option ℕ → Result ScoreError W
  number none = err not_a_number
  number (some n) = ok (f.of_nat n)

  abbrev metric : String → Participant W → Result ScoreError W
  metric name p = elim (lookup name p.row.metrics) [ none ↦ err missing_category | some x ↦ ok x ]

  -- `_category_value`
  abbrev pub category_value : Participant W → CategoryName → Result ScoreError W
  category_value p survival_rank = number p.row.survival_rank
  category_value p final_length = number p.row.final_length
  category_value p trapping_count = metric "trapping_count" p

  -- `{c.name: _category_value(r, c) for c in categories}`
  unfoldable pub raw_values :
      List Category → Participant W → Result ScoreError (Dict CategoryName W)
  unfolding traverse
  raw_values categories p =
      traverse (λ c. elim (category_value p c.name) [ err e ↦ err e | ok x ↦ ok (c.name, x) ])
        categories

  -- `_fetch_mode`
  abbrev pub fetch_mode : ℕ → List (ModeScoring W) → Result ScoreError (ModeScoring W)
  fetch_mode mode_id [] = err no_mode
  fetch_mode mode_id (m ∷ ms) = if m.id == mode_id then ok m else fetch_mode mode_id ms

  -- `rows_by_match`
  abbrev rows_by_match :
      List (Participant W) → Dict ℕ (List (Participant W)) → Dict ℕ (List (Participant W))
  rows_by_match [] d = d
  rows_by_match (p ∷ ps) d = rows_by_match ps (push p.match_id p d)

  abbrev one_peer : List Category → Participant W → Result ScoreError (ℕ × Dict CategoryName W)
  one_peer categories p = elim (raw_values categories p) [
    | err e ↦ err e
    | ok d ↦ ok (p.row.seat, d)
  ]

  abbrev one_participation :
      Dict ℕ (Dict CategoryName W) → Participant W → Result ScoreError (Participation W)
  one_participation peers p = do
    cpu ← metric "avg_cpu_ms" p
    own ← item p.row.seat peers
    ok (record {
      match_id = p.match_id;
      seat = p.row.seat;
      project_id = p.row.project_id;
      project_version = p.row.project_version;
      category_values = own;
      peers = peers;
      avg_cpu_ms = cpu;
    })

  abbrev flatten_lists {ℓ} : {A : Type ℓ} → List (List A) → List A
  flatten_lists [] = []
  flatten_lists (xs ∷ rest) = xs ++ flatten_lists rest

  -- A dict comprehension: a later value of a key replaces the earlier one.
  abbrev pub collect {ℓ κ} :
      {K : Type ℓ} {V : Type κ} ⦃key : Key K⦄ → List (K × V) → Dict K V → Dict K V
  collect [] d = d
  collect ((k, v) ∷ rest) d = collect rest (insert k v d)

  abbrev one_match :
      List Category → ℕ × List (Participant W) → Result ScoreError (List (Participation W))
  one_match categories (match_id, rows) = do
    peers ← traverse (one_peer categories) rows
    traverse (one_participation (collect peers [])) rows

  -- `_fetch_participations`
  unfoldable pub fetch_participations :
      ℕ → List Category → Projects → MatchTables W → Result ScoreError (List (Participation W))
  unfolding scored_rows raw_values traverse
  fetch_participations mode_id categories projects t = do
    groups ← traverse (one_match categories) (rows_by_match (scored_rows mode_id projects t) [])
    ok (flatten_lists groups)

-- ===== src/Db/AgentScores/Scores.antt =====
-- services/sa_common/sa_common/db/agent_scores.py: the range of the scores, and who
-- has one.
use snake_arena.Prelude.{
  ℕ, ◌≡◌, refl, Bool, true, false, Option, none, some, List, [], ◌∷◌, map, ltb, leb, subst, nat_key,
  All, length, if◌then◌else◌, by_if, by_list,
}
use snake_arena.Prelude.Dict.{Dict}
use snake_arena.Prelude.Result.{
  Result, ok, err, ◌>>=◌, traverse, IfOk, IfOk-then, traverse-IfOk, All-trivial,
}
use snake_arena.Scoring.Numbers.{Float, IsFloat, InUnit}
use snake_arena.Scoring.{
  ScoringKind, multi, solo, CategoryName, Category, categories_for, ScoreError,
  too_few_participants, category_key, item, values, cpu_factor, mean, multi_match_quality,
  solo_match_quality,
}
use snake_arena.Scoring.Range.{
  HasRange, multi_match_quality-InUnit, solo_match_quality-InUnit, mean-InUnit, mean_quality-InUnit,
  cpu_factor-InUnit, product-InUnit,
}
use snake_arena.Types.{is_given}
use snake_arena.Db.Projects.{Projects}
use snake_arena.Db.Matches.{MatchTables}
use snake_arena.Db.AgentScores.{
  Participation, ModeScoring, AgentScoreRow, Entry, fetch_mode, fetch_participations, min_matches,
}
use snake_arena.Db.AgentScores.Eligible.{
  HasOneKey, by_project-HasOneKey, Agrees, is_among-eligible_projects,
}
use snake_arena.Db.AgentScores.Aggregate.{
  Played, is_among, multi_part, mean_final, score_if, multi_row, aggregate_multi, solo_part,
  lone_part, solo_played, solo_row, aggregate_solo, aggregate, compute_mode_scores, multi_entry,
  solo_entry, cpu_entry, eligible_projects, by_project, version_by_project, means_of,
  solo_leader_basis,
}

-- A result of which nothing is known.
pub unknown {ℓ κ} : {E : Type ℓ} {A : Type κ} (r : Result E A) → IfOk (λ (a : A). Unit {0}) r
unknown (ok a) = tt
unknown (err e) = tt

module _ {W : Type 0} (f : Float W) (laws : IsFloat f) where
  abbrev pub IsScore : Option W → Type 0
  IsScore none = Unit
  IsScore (some x) = InUnit f x

  -- A score between 0 and 1, given exactly when there are enough matches.
  abbrev pub IsScoreFor : Bool → Option W → Type 0
  IsScoreFor enough score = IsScore score × (is_given score ≡ enough)

  abbrev pub HasScore : ℕ → AgentScoreRow W → Type 0
  HasScore min_required r = IsScoreFor (leb min_required r.matches_played) r.score

  abbrev HasFinal : Played W → Type 0
  HasFinal q = InUnit f q.final

  final-InUnit :
      (quality : Result ScoreError W) (fracs : Dict CategoryName W) (c b : W)
      → IfOk (InUnit f) quality
      → IfOk HasFinal (elim quality [
        | err e ↦ err e
        | ok q ↦ ok (record { fracs = fracs; final = f.mul q (cpu_factor f c b) })
      ])
  final-InUnit quality fracs c b h =
      IfOk-then (InUnit f) HasFinal quality _ h
        λ q e r. product-InUnit f laws q (cpu_factor f c b) r (cpu_factor-InUnit f laws c b)

  multi_part-InUnit :
      (categories : List Category) (budget : W) (p : Participation W)
      → IfOk HasFinal (multi_part f categories budget p)
  unfolding multi_part
  multi_part-InUnit categories budget p =
      by_if (IfOk HasFinal) (ltb (length p.peers) 2) (err too_few_participants) _ (λ e. tt)
        λ e.
          IfOk-then (HasRange f laws) HasFinal (multi_match_quality f p.peers p.seat categories) _
            (multi_match_quality-InUnit f laws p.peers p.seat categories)
            λ fracs e' range.
              final-InUnit (mean f (values fracs)) fracs p.avg_cpu_ms budget
                (mean_quality-InUnit f laws fracs range)

  finals :
      (played : List (Played W)) → All HasFinal played → All (InUnit f) (map (λ q. q.final) played)
  finals [] all = tt
  finals (q ∷ rest) all = (all.0, finals rest all.1)

  score_if-IsScoreFor :
      (enough : Bool) (played : List (Played W))
      → All HasFinal played
      → IfOk (IsScoreFor enough) (score_if f enough played)
  score_if-IsScoreFor true played all =
      IfOk-then (InUnit f) (IsScoreFor true) (mean_final f played) _
        (mean-InUnit f laws _ (finals played all)) (λ x e' h. (h, refl))
  score_if-IsScoreFor false played all = (tt, refl)

  -- The score of a row is decided before the rest of it.
  row-HasScore :
      (min_required mode_id project_id : ℕ) (parts : List (Participation W)) (score : Option W)
      (entries : Result ScoreError (List (Entry W))) (cpu : Result ScoreError (W × W))
      (version : Result ScoreError ℕ)
      → IsScoreFor (leb min_required (length parts)) score
      → IfOk (HasScore min_required) (do
        es ← entries
        c ← cpu
        v ← version
        ok (record {
          project_id = project_id;
          mode_id = mode_id;
          project_version = v;
          matches_played = length parts;
          score = score;
          category_breakdown = es;
          cpu = c;
        }))
  row-HasScore min_required mode_id project_id parts score (err e) cpu version h = tt
  row-HasScore min_required mode_id project_id parts score (ok es) (err e) version h = tt
  row-HasScore min_required mode_id project_id parts score (ok es) (ok c) (err e) h = tt
  row-HasScore min_required mode_id project_id parts score (ok es) (ok c) (ok v) h = h

  multi_row-HasScore :
      (mode_id : ℕ) (categories : List Category) (versions : Dict ℕ ℕ) (min_required : ℕ)
      (budget : W) (one : ℕ × List (Participation W))
      → IfOk
          (HasScore min_required)
          (multi_row f mode_id categories versions min_required budget one)
  unfolding multi_row
  multi_row-HasScore mode_id categories versions min_required budget (project_id, parts) =
      let Q : AgentScoreRow W → Type 0 = HasScore min_required in
      IfOk-then (All HasFinal) Q (traverse (multi_part f categories budget) parts) _
        (traverse-IfOk (λ p. Unit {0}) HasFinal (multi_part f categories budget)
          (λ p u. multi_part-InUnit categories budget p) parts (All-trivial parts))
        λ played e all.
          let enough = leb min_required (length parts) in
          IfOk-then (IsScoreFor enough) Q (score_if f enough played) _
            (score_if-IsScoreFor enough played all)
            λ score e' h.
              row-HasScore min_required mode_id project_id parts score
                (traverse (multi_entry f parts played) categories) (cpu_entry f budget parts)
                (item project_id versions) h

  aggregate_multi-HasScore :
      (mode_id : ℕ) (categories : List Category) (projects : Dict ℕ (List (Participation W)))
      (versions : Dict ℕ ℕ) (min_required : ℕ) (budget : W)
      → IfOk
          (All (HasScore min_required))
          (aggregate_multi f mode_id categories projects versions min_required budget)
  unfolding aggregate_multi
  aggregate_multi-HasScore mode_id categories projects versions min_required budget =
      traverse-IfOk (λ o. Unit {0}) (HasScore min_required) _
        (λ o u. multi_row-HasScore mode_id categories versions min_required budget o) projects
        (All-trivial projects)

  solo_part-InUnit :
      (categories : List Category) (basis : Dict CategoryName W) (budget : W) (p : Participation W)
      → IfOk HasFinal (solo_part f categories basis budget p)
  unfolding solo_part
  solo_part-InUnit categories basis budget p =
      IfOk-then (HasRange f laws) HasFinal (solo_match_quality f p.category_values basis categories)
        _ (solo_match_quality-InUnit f laws p.category_values basis categories)
        λ fracs e range.
          final-InUnit (mean f (values fracs)) fracs p.avg_cpu_ms budget
            (mean_quality-InUnit f laws fracs range)

  lone_parts :
      (categories : List Category) (budget : W) (parts : List (Participation W))
      → All HasFinal (map (lone_part f categories budget) parts)
  unfolding cpu_factor
  lone_parts categories budget [] = tt
  lone_parts categories budget (p ∷ ps) =
      (cpu_factor-InUnit f laws p.avg_cpu_ms budget, lone_parts categories budget ps)

  solo_played-InUnit :
      (categories : List Category) (basis : Dict CategoryName W) (eligible : List ℕ) (budget : W)
      (parts : List (Participation W))
      → IfOk (All HasFinal) (solo_played f categories basis eligible budget parts)
  unfolding solo_played
  solo_played-InUnit categories basis eligible budget parts =
      by_if (IfOk (All HasFinal)) (leb 2 (length eligible))
        (traverse (solo_part f categories basis budget) parts)
        (ok (map (lone_part f categories budget) parts))
        (λ e.
          traverse-IfOk (λ p. Unit {0}) HasFinal (solo_part f categories basis budget)
            (λ p u. solo_part-InUnit categories basis budget p) parts (All-trivial parts))
        (λ e. lone_parts categories budget parts)

  -- What the code's list of the eligible projects has to say of one of them.
  abbrev AgreesWith : ℕ → List ℕ → ℕ × List (Participation W) → Type 0
  AgreesWith min_required eligible one = is_among one.0 eligible ≡ leb min_required (length one.1)

  solo_row-HasScore :
      (mode_id : ℕ) (categories : List Category) (versions : Dict ℕ ℕ)
      (all_means : Dict ℕ (Dict CategoryName W)) (basis : Dict CategoryName W) (eligible : List ℕ)
      (budget : W) (min_required : ℕ) (one : ℕ × List (Participation W))
      → AgreesWith min_required eligible one
      → IfOk
          (HasScore min_required)
          (solo_row f mode_id categories versions all_means basis eligible budget one)
  unfolding solo_row
  solo_row-HasScore mode_id categories versions all_means basis eligible budget min_required
        (pid, parts) agrees =
      let Q : AgentScoreRow W → Type 0 = HasScore min_required in
      let enough = is_among pid eligible in
      IfOk-then (λ r. Unit {0}) Q (item pid all_means) _ (unknown _)
        λ means e u.
          IfOk-then (λ r. Unit {0}) Q (cpu_entry f budget parts) _ (unknown _)
            λ cpu e1 u1.
              IfOk-then (All HasFinal) Q
                (if enough then solo_played f categories basis eligible budget parts else ok []) _
                (by_if (IfOk (All HasFinal)) enough
                  (solo_played f categories basis eligible budget parts) (ok [])
                  (λ h. solo_played-InUnit categories basis eligible budget parts) (λ h. tt))
                λ played e2 all.
                  IfOk-then (IsScoreFor enough) Q (score_if f enough played) _
                    (score_if-IsScoreFor enough played all)
                    λ score e3 h.
                      row-HasScore min_required mode_id pid parts score
                        (traverse (solo_entry f enough means played) categories) (ok cpu)
                        (item pid versions) (subst (λ b. IsScoreFor b score) agrees h)

module _ {W : Type 0} (f : Float W) (laws : IsFloat f) where
  aggregate_solo-HasScore :
      (mode_id : ℕ) (categories : List Category) (projects : Dict ℕ (List (Participation W)))
      (versions : Dict ℕ ℕ) (min_required : ℕ) (budget : W)
      → HasOneKey projects
      → IfOk
          (All (HasScore f laws min_required))
          (aggregate_solo f mode_id categories projects versions min_required budget)
  unfolding aggregate_solo
  aggregate_solo-HasScore mode_id categories projects versions min_required budget one_key =
      let Q : List (AgentScoreRow W) → Type 0 = All (HasScore f laws min_required) in
      let eligible = eligible_projects min_required projects in
      IfOk-then (λ r. Unit {0}) Q (traverse (means_of f categories) projects) _ (unknown _)
        λ all_means e u.
          IfOk-then (λ r. Unit {0}) Q (solo_leader_basis f categories all_means eligible) _
            (unknown _)
            λ basis e1 u1.
              traverse-IfOk (Agrees min_required projects) (HasScore f laws min_required) _
                (λ one agrees.
                  solo_row-HasScore f laws mode_id categories versions all_means basis eligible
                    budget min_required one agrees)
                projects (is_among-eligible_projects min_required projects one_key)

  aggregate-HasScore :
      (kind : ScoringKind) (mode_id : ℕ) (categories : List Category)
      (projects : Dict ℕ (List (Participation W))) (versions : Dict ℕ ℕ) (min_required : ℕ)
      (budget : W)
      → HasOneKey projects
      → IfOk
          (All (HasScore f laws min_required))
          (aggregate f kind mode_id categories projects versions min_required budget)
  unfolding aggregate
  aggregate-HasScore multi mode_id categories projects versions min_required budget one_key =
      aggregate_multi-HasScore f laws mode_id categories projects versions min_required budget
  aggregate-HasScore solo mode_id categories projects versions min_required budget one_key =
      aggregate_solo-HasScore mode_id categories projects versions min_required budget one_key

  -- The mode exists, and every row has the score that its number of matches gives it.
  abbrev pub ScoresOf : Result ScoreError (ModeScoring W) → List (AgentScoreRow W) → Type 0
  ScoresOf mode rows =
      (m : ModeScoring W) × (mode ≡ ok m)
      × All (HasScore f laws (min_matches m.target_matches)) rows

  -- Whatever matches and participants are stored, when `compute_mode_scores` returns rows, every score in
  -- them lies between 0 and 1, and a row has a score exactly when the project has played at least
  -- `min_matches` of the mode's target matches (multi and solo modes alike). The numbers are any type
  -- whose operations satisfy the laws of `IsFloat`.
  pub compute_mode_scores-HasScore :
      (mode_id : ℕ) (modes : List (ModeScoring W)) (projects : Projects) (t : MatchTables W)
      → IfOk
          (ScoresOf (fetch_mode f mode_id modes))
          (compute_mode_scores f mode_id modes projects t)
  unfolding compute_mode_scores
  compute_mode_scores-HasScore mode_id modes projects t =
      by_mode (fetch_mode f mode_id modes) _ λ m.
        IfOk-then (λ r. Unit {0}) (All (HasScore f laws (min_matches m.target_matches)))
          (fetch_participations f mode_id (categories_for m.scoring_kind) projects t) _ (unknown _)
          λ participations e u.
            by_list (IfOk (All (HasScore f laws (min_matches m.target_matches)))) participations _ _
              tt
              λ p ps.
                aggregate-HasScore m.scoring_kind mode_id (categories_for m.scoring_kind)
                  (by_project (p ∷ ps) []) (version_by_project (p ∷ ps) [])
                  (min_matches m.target_matches) m.avg_budget_ms
                  (by_project-HasOneKey (p ∷ ps) [] tt)
    where
      by_mode :
          (r : Result ScoreError (ModeScoring W))
          (next : ModeScoring W → Result ScoreError (List (AgentScoreRow W)))
          → ((m : ModeScoring W)
              → IfOk (All (HasScore f laws (min_matches m.target_matches))) (next m))
          → IfOk (ScoresOf r) (elim r [ err e ↦ err e | ok m ↦ next m ])
      by_mode (ok m) next h = of_mode (next m) (h m)
        where
          of_mode :
              (r : Result ScoreError (List (AgentScoreRow W)))
              → IfOk (All (HasScore f laws (min_matches m.target_matches))) r
              → IfOk (ScoresOf (ok m)) r
          of_mode (ok rows) all = (m, refl, all)
          of_mode (err e) all = tt
      by_mode (err e) next h = tt

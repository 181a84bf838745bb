-- ===== src/Db/Leaderboard/Ranks.antt =====
-- services/sa_common/sa_common/db/leaderboard.py: the order, the ranks and the length of
-- the rankings.
use Prim.Native.String.{String}
use snake_arena.Prelude.{
  true, ℕ, zero, suc, ◌≤◌, ◌<◌, ◌≡◌, refl, sym, subst, List, [], ◌∷◌, map, take, length,
  length-take, All, All-weaken, arith, nat_key, by_option, by_found,
}
use snake_arena.Prelude.Dict.{Dict, lookup, keys}
use snake_arena.Prelude.Result.{Result, ok, err, traverse, IfOk, IfOk-then}
use snake_arena.Scoring.Numbers.{Float, IsFloat, ◌≼◌, InUnit}
use snake_arena.Scoring.{ScoreError}
use snake_arena.Db.Rows.Sorted.{All-order_by, IsSorted, order_by-IsSorted}
use snake_arena.Db.Rows.{order_by}
use snake_arena.Db.Projects.{Projects}
use snake_arena.Db.Matches.{MatchTables}
use snake_arena.Db.AgentScores.{ModeScoring, AgentScoreRow, fetch_mode, min_matches}
use snake_arena.Db.AgentScores.Aggregate.{compute_mode_scores}
use snake_arena.Db.AgentScores.Scores.{
  unknown, IsScore, HasScore, ScoresOf, compute_mode_scores-HasScore,
}
use snake_arena.Db.Leaderboard.{
  ProjectMeta, UserName, fetch_project_meta, entries, best_of, beyond, qualified, mode_entry,
  list_modes_in_group, group_sums, group_standing, overall_standing, eligible_ids, scored_modes,
  mode_group_keys, get_mode_leaderboard, group_entry, get_group_leaderboard, overall_entry,
  get_overall_leaderboard,
}

module _ {ℓ κ} {A : Type ℓ} (P : A → Type κ) where
  All-take : (n : ℕ) (xs : List A) → All P xs → All P (take n xs)
  All-take zero xs all = tt
  All-take (suc n) [] all = tt
  All-take (suc n) (x ∷ xs) all = (all.0, All-take n xs all.1)

module _ {W : Type 0} (f : Float W) (laws : IsFloat f) where
  -- Each element's key is at least those that follow.
  abbrev Descends {ℓ} : {A : Type ℓ} → (A → W) → List A → Type 0
  Descends key [] = Unit
  Descends key (a ∷ rest) = All (λ b. ◌≼◌ f (key b) (key a)) rest × Descends key rest

  -- A ranking: ranks rise, and scores do not.
  abbrev pub IsRanking {ℓ} : {E : Type ℓ} → (E → ℕ) → (E → W) → List E → Type 0
  IsRanking rank score [] = Unit
  IsRanking rank score (a ∷ rest) =
      All (λ b. (rank a < rank b) × (◌≼◌ f (score b) (score a))) rest × IsRanking rank score rest

  module _ {ℓ} {A : Type ℓ} (key : A → W) where
    before_above : (a b : A) → beyond f key a b ≡ true → ◌≼◌ f (key b) (key a)
    before_above a b h = ground (arith, laws.lt-eq-not-le (key a) (key b))

    IsSorted-Descends : (xs : List A) → IsSorted (beyond f key) xs → Descends key xs
    IsSorted-Descends [] h = tt
    IsSorted-Descends (x ∷ xs) h =
        (All-weaken _ _ xs (before_above x) h.0, IsSorted-Descends xs h.1)

    order_by-Descends : (xs : List A) → Descends key (order_by (beyond f key) xs)
    order_by-Descends xs = IsSorted-Descends _ (
        order_by-IsSorted (beyond f key)
          (λ a b h. ground (
            arith,
            laws.lt-eq-not-le (key a) (key b),
            laws.lt-eq-not-le (key b) (key a),
            laws.le_total (key a) (key b),
          ))
          (λ a b c h h'. ground (
            arith,
            laws.lt-eq-not-le (key a) (key c),
            laws.le_trans (key c) (key b) (key a) (before_above b c h') (before_above a b h),
          ))
          xs)

    take-Descends : (n : ℕ) (xs : List A) → Descends key xs → Descends key (take n xs)
    take-Descends zero xs h = tt
    take-Descends (suc n) [] h = tt
    take-Descends (suc n) (x ∷ xs) h = (All-take _ n xs h.0, take-Descends n xs h.1)

    best_of-Descends : (limit : ℕ) (xs : List A) → Descends key (best_of f key limit xs)
    unfolding best_of
    best_of-Descends limit xs = take-Descends limit _ (order_by-Descends xs)

    length-best_of : (limit : ℕ) (xs : List A) → length (best_of f key limit xs) ≤ limit
    unfolding best_of
    length-best_of limit xs = omega (arith, length-take limit (order_by (beyond f key) xs))

    module _ {E : Type 0} (project_of : A → ℕ) (make : ℕ → A → ProjectMeta → E) (rank : E → ℕ)
        (score : E → W) (rank_of : (i : ℕ) (a : A) (m : ProjectMeta) → rank (make i a m) ≡ i)
        (score_of : (i : ℕ) (a : A) (m : ProjectMeta) → score (make i a m) ≡ key a)
        (meta : Dict ℕ ProjectMeta) where
      -- What the entries of rows with keys below a bound have to say.
      entries-below :
          (n i : ℕ) (bound : W) (xs : List A)
          → n ≤ i
          → All (λ a. ◌≼◌ f (key a) bound) xs
          → All (λ e. (n < rank e) × (◌≼◌ f (score e) bound)) (entries project_of make meta i xs)
      entries-below n i bound [] le all = tt
      entries-below n i bound (a ∷ xs) le all =
          by_option (All (λ e. (n < rank e) × (◌≼◌ f (score e) bound))) (lookup (project_of a) meta)
            _ _ (entries-below n (suc i) bound xs (omega (arith, le)) all.1)
            λ m e. (
              (
                omega (arith, le, rank_of (suc i) a m),
                subst (λ z. ◌≼◌ f z bound) (sym (score_of (suc i) a m)) all.0,
              ),
              entries-below n (suc i) bound xs (omega (arith, le)) all.1,
            )

      entries-IsRanking :
          (i : ℕ) (xs : List A)
          → Descends key xs
          → IsRanking rank score (entries project_of make meta i xs)
      entries-IsRanking i [] h = tt
      entries-IsRanking i (a ∷ xs) h =
          by_option (IsRanking rank score) (lookup (project_of a) meta) _ _
            (entries-IsRanking (suc i) xs h.1)
            λ m e. (
              let rest = entries project_of make meta (suc i) xs in
                  let below = entries-below (suc i) (suc i) (key a) xs (omega arith) h.0 in
                  let ranked =
                    subst (λ (n : ℕ). All (λ b. (n < rank b) × (◌≼◌ f (score b) (key a))) rest)
                      (sym (rank_of (suc i) a m)) below in
                  subst
                    (λ (z : W).
                      All (λ b. (rank (make (suc i) a m) < rank b) × (◌≼◌ f (score b) z)) rest)
                    (sym (score_of (suc i) a m)) ranked,
              entries-IsRanking (suc i) xs h.1,
            )

      length-entries :
          (i : ℕ) (xs : List A) → length (entries project_of make meta i xs) ≤ length xs
      length-entries i [] = omega arith
      length-entries i (a ∷ xs) =
          by_option (λ es. length es ≤ suc (length xs)) (lookup (project_of a) meta) _ _
            (omega (arith, length-entries (suc i) xs))
            (λ m e. omega (arith, length-entries (suc i) xs))

      entries-All :
          (P : W → Type 0) (i : ℕ) (xs : List A)
          → All (λ a. P (key a)) xs
          → All (λ e. P (score e)) (entries project_of make meta i xs)
      entries-All P i [] all = tt
      entries-All P i (a ∷ xs) all =
          by_option (All (λ e. P (score e))) (lookup (project_of a) meta) _ _
            (entries-All P (suc i) xs all.1)
            λ m e. (subst P (sym (score_of (suc i) a m)) all.0, entries-All P (suc i) xs all.1)

  -- A ranking that is no longer than the limit.
  abbrev pub IsBoard {ℓ} : {E : Type ℓ} → (E → ℕ) → (E → W) → ℕ → List E → Type 0
  IsBoard rank score limit es = IsRanking rank score es × (length es ≤ limit)

  -- The score of a leaderboard's row.
  best_of-IsBoard {ℓ} :
      {A : Type ℓ} {E : Type 0} (key : A → W) (project_of : A → ℕ) (make : ℕ → A → ProjectMeta → E)
      (rank : E → ℕ) (score : E → W)
      → ((i : ℕ) (a : A) (m : ProjectMeta) → rank (make i a m) ≡ i)
      → ((i : ℕ) (a : A) (m : ProjectMeta) → score (make i a m) ≡ key a)
      → (limit : ℕ) (xs : List A) (meta : Dict ℕ ProjectMeta)
      → IsBoard rank score limit (entries project_of make meta 0 (best_of f key limit xs))
  best_of-IsBoard key project_of make rank score rank_of score_of limit xs meta =
      let rows = best_of f key limit xs in
      (
        entries-IsRanking key project_of make rank score rank_of score_of meta 0 rows
            (best_of-Descends key limit xs),
        omega (
          arith,
          length-entries key project_of make rank score rank_of score_of meta 0 rows,
          length-best_of key limit xs,
        ),
      )

  qualified-InUnit :
      (min_required : ℕ) (rows : List (AgentScoreRow W))
      → All (HasScore f laws min_required) rows
      → All (λ r. InUnit f r.0) (qualified f rows)
  qualified-InUnit min_required [] all = tt
  qualified-InUnit min_required (r ∷ rows) all =
      let rest = qualified-InUnit min_required rows all.1 in
      by_found (All (λ q. InUnit f q.0)) r.score _ _ (λ e. rest)
        (λ x e. (subst (IsScore f laws) e all.0.0, rest))

  -- The leaderboard of a mode: ranks rise strictly while scores do not, there are at most `limit`
  -- entries, and every score lies between 0 and 1.
  pub get_mode_leaderboard-IsBoard :
      (mode_id limit : ℕ) (modes : List (ModeScoring W)) (projects : Projects)
      (users : List UserName) (t : MatchTables W)
      → IfOk
          (λ es. IsBoard (λ e. e.rank) (λ e. e.score) limit es × All (λ e. InUnit f e.score) es)
          (get_mode_leaderboard f mode_id limit modes projects users t)
  unfolding get_mode_leaderboard
  get_mode_leaderboard-IsBoard mode_id limit modes projects users t =
      let key : W × AgentScoreRow W → W = λ r. r.0 in
      IfOk-then (ScoresOf f laws (fetch_mode f mode_id modes))
        (λ es. IsBoard (λ e. e.rank) (λ e. e.score) limit es × All (λ e. InUnit f e.score) es)
        (compute_mode_scores f mode_id modes projects t) _
        (compute_mode_scores-HasScore f laws mode_id modes projects t)
        λ all e scores. (
          best_of-IsBoard key (λ r. r.1.project_id) (mode_entry f) (λ e. e.rank) (λ e. e.score)
              (λ i a m. refl) (λ i a m. refl) limit (qualified f all) _,
          entries-All key (λ r. r.1.project_id) (mode_entry f) (λ e. e.rank) (λ e. e.score)
              (λ i a m. refl) (λ i a m. refl) _ (InUnit f) 0 (best_of f key limit (qualified f all))
              (All-take (λ r. InUnit f r.0) limit _
                (All-order_by (λ r. InUnit f r.0) (beyond f key) _
                  (qualified-InUnit (min_matches scores.0.target_matches) all scores.2))),
        )

  -- A ranking is sorted whatever its rows are.
  result-IsBoard {ℓ} :
      {A : Type ℓ} {E : Type 0} (rows : Result ScoreError (List A)) (key : A → W)
      (project_of : A → ℕ) (make : ℕ → A → ProjectMeta → E) (rank : E → ℕ) (score : E → W)
      → ((i : ℕ) (a : A) (m : ProjectMeta) → rank (make i a m) ≡ i)
      → ((i : ℕ) (a : A) (m : ProjectMeta) → score (make i a m) ≡ key a)
      → (limit : ℕ) (meta : List A → Dict ℕ ProjectMeta)
      → IfOk (IsBoard rank score limit) (elim rows [
        | err e ↦ err e
        | ok xs ↦
            let best = best_of f key limit xs in ok (entries project_of make (meta best) 0 best)
      ])
  result-IsBoard (err e) key project_of make rank score rank_of score_of limit meta = tt
  result-IsBoard (ok xs) key project_of make rank score rank_of score_of limit meta =
      best_of-IsBoard key project_of make rank score rank_of score_of limit xs
        (meta (best_of f key limit xs))

  -- In the leaderboard of a group, ranks rise strictly while the mean scores do not, and there are at
  -- most `limit` entries.
  pub get_group_leaderboard-IsBoard :
      (slug : String) (limit : ℕ) (modes : List (ModeScoring W)) (projects : Projects)
      (users : List UserName) (t : MatchTables W)
      → IfOk
          (IsBoard (λ e. e.rank) (λ e. e.group_score) limit)
          (get_group_leaderboard f slug limit modes projects users t)
  unfolding get_group_leaderboard
  get_group_leaderboard-IsBoard slug limit modes projects users t =
      IfOk-then (λ r. Unit {0}) (IsBoard (λ e. e.rank) (λ e. e.group_score) limit)
        (traverse (λ i. compute_mode_scores f i modes projects t)
          (list_modes_in_group f slug modes))
        _ (unknown _)
        λ tables e u.
          let sums = group_sums f tables in
          result-IsBoard (traverse (group_standing f sums) (keys sums.score_sum)) (λ r. r.0)
            (λ r. r.1.0) (group_entry f) (λ e. e.rank) (λ e. e.group_score) (λ i a m. refl)
            (λ i a m. refl) limit
            (λ rows. fetch_project_meta (map (λ r. r.1.0) rows) projects users)

  -- In the overall leaderboard, ranks rise strictly while the scores do not, and there are at most
  -- `limit` entries.
  pub get_overall_leaderboard-IsBoard :
      (mode_key : ℕ → String) (limit : ℕ) (modes : List (ModeScoring W)) (projects : Projects)
      (users : List UserName) (t : MatchTables W)
      → IfOk
          (IsBoard (λ e. e.rank) (λ e. e.overall_score) limit)
          (get_overall_leaderboard f mode_key limit modes projects users t)
  unfolding get_overall_leaderboard
  get_overall_leaderboard-IsBoard mode_key limit modes projects users t =
      IfOk-then (λ r. Unit {0}) (IsBoard (λ e. e.rank) (λ e. e.overall_score) limit)
        (scored_modes f modes projects t (mode_group_keys f mode_key modes) _) _ (unknown _)
        λ s e u.
          result-IsBoard
            (traverse (overall_standing f s)
              (eligible_ids f (length (mode_group_keys f mode_key modes)) s.qualified_modes))
            (λ r. r.0) (λ r. r.1.0) (overall_entry f) (λ e. e.rank) (λ e. e.overall_score)
            (λ i a m. refl) (λ i a m. refl) limit
            (λ rows. fetch_project_meta (map (λ r. r.1.0) rows) projects users)

-- ===== src/Orchestrator/Matchmaker/Queries/Underplayed.antt =====
-- services/orchestrator/orchestrator/matchmaker.py: which versions the queries list, and in what order.
use snake_arena.Prelude.{
  ℕ, ◌<◌, ◌≡◌, refl, Bool, true, false, ◌&&◌, ◌||◌, Option, List, [], ◌∷◌, map, ltb, leb, ◌==◌,
  nat_key, arith, All, All-weaken, by_if,
}
use snake_arena.Db.Rows.{order_by}
use snake_arena.Db.Rows.Sorted.{All-order_by, IsSorted, order_by-IsSorted}
use snake_arena.Db.Projects.{Projects}
use snake_arena.Db.Matches.{MatchTables}
use snake_arena.Db.MatchJobs.{JobTable}
use snake_arena.Orchestrator.Matchmaker.{VersionRef, VersionStats, ref_beq}
use snake_arena.Orchestrator.Matchmaker.Queries.{
  is_eligible, ref_of, matches_played, least_first, underplayed_rows, underplayed_solo,
  underplayed_multi, count_submitted, list_underplayed_versions,
}

-- A submitted version that is not flagged as crashed.
abbrev pub any_eligible : VersionRef → Projects → Bool
any_eligible v [] = false
any_eligible v (p ∷ ps) = (ref_beq (ref_of p) v && is_eligible p) || any_eligible v ps

module _ {W : Type 0} (mode_id target : ℕ) (projects : Projects) (t : MatchTables W)
    (jobs : JobTable) where
  -- The version may be scheduled, and has played less than the target.
  abbrev pub IsWanted : Projects → VersionStats → Type 0
  IsWanted ps s =
      (any_eligible s.ref ps ≡ true)
      × (s.matches_played ≡ matches_played mode_id projects t jobs s.ref)
      × (s.matches_played < target)

  rows-IsWanted :
      (is_multi : Bool) (ps : Projects)
      → All (λ r. IsWanted ps r.0) (underplayed_rows is_multi mode_id target projects t jobs ps)
  unfolding underplayed_rows
  rows-IsWanted is_multi [] = tt
  rows-IsWanted is_multi (p ∷ ps) =
      let rest =
        All-weaken (λ r. IsWanted ps r.0) (λ r. IsWanted (p ∷ ps) r.0) _
          (λ r h. (ground (arith, h.0), h.1, h.2)) (rows-IsWanted is_multi ps) in
      by_if (All (λ r. IsWanted (p ∷ ps) r.0))
        (is_eligible p && ltb (matches_played mode_id projects t jobs (ref_of p)) target) _ _
        (λ e. ((ground (arith, e), refl, ground (arith, e)), rest)) (λ e. rest)

  firsts_All :
      (rows : List (VersionStats × Option ℕ))
      → All (λ r. IsWanted projects r.0) rows
      → All (IsWanted projects) (map (λ r. r.0) rows)
  firsts_All [] all = tt
  firsts_All (r ∷ rows) all = (all.0, firsts_All rows all.1)

  -- Fewest matches first.
  abbrev pub fewer : VersionStats → VersionStats → Bool
  fewer a b = leb a.matches_played b.matches_played

  firsts_later :
      (r : VersionStats × Option ℕ) (rows : List (VersionStats × Option ℕ))
      → All (λ q. least_first r q ≡ true) rows
      → All (λ s. fewer r.0 s ≡ true) (map (λ q. q.0) rows)
  firsts_later r [] all = tt
  firsts_later r (q ∷ rows) all = (ground (arith, all.0), firsts_later r rows all.1)

  firsts-IsSorted :
      (rows : List (VersionStats × Option ℕ))
      → IsSorted least_first rows
      → IsSorted fewer (map (λ r. r.0) rows)
  firsts-IsSorted [] h = tt
  firsts-IsSorted (r ∷ rows) h = (firsts_later r rows h.0, firsts-IsSorted rows h.1)

  ordered :
      (is_multi : Bool)
      → let rows =
          order_by least_first
            (underplayed_rows is_multi mode_id target projects t jobs projects) in
        All (IsWanted projects) (map (λ r. r.0) rows) × IsSorted fewer (map (λ r. r.0) rows)
  ordered is_multi =
      let rows = underplayed_rows is_multi mode_id target projects t jobs projects in
      (
        firsts_All _ (All-order_by _ least_first rows (rows-IsWanted is_multi projects)),
        firsts-IsSorted _ (
            order_by-IsSorted least_first (λ a b h. ground (arith, h))
              (λ a b c h h'. ground (arith, h, h')) rows),
      )

  -- Every version that `list_underplayed_versions` lists is submitted and not flagged as crashed, has
  -- fewer matches than the target, played or in flight, and the versions with the fewest come first.
  pub list_underplayed_versions-IsWanted :
      (participant_count : ℕ)
      → let found = list_underplayed_versions mode_id participant_count target projects t jobs in
        All (IsWanted projects) found × IsSorted fewer found
  unfolding list_underplayed_versions underplayed_solo underplayed_multi
  list_underplayed_versions-IsWanted participant_count =
      let Q : List VersionStats → Type 0 =
        λ found. All (IsWanted projects) found × IsSorted fewer found in
      by_if Q (participant_count == 1) _ _ (λ e. ordered false)
        (λ e.
          by_if Q (ltb (count_submitted projects) participant_count) _ _ (λ e1. (tt, tt))
            (λ e1. ordered true))

-- ===== src/Db/AgentScores/TestMatches.antt =====
-- services/sa_common/sa_common/db/matches.py and agent_scores.py: test matches, and the rows that the
-- scores are computed from.
use snake_arena.Prelude.{
  ℕ, ◌<◌, ◌≡◌, refl, ap, true, false, ◌&&◌, List, [], ◌∷◌, ◌++◌, map, arith, nat_key, nat_beq_iff,
  All,
}
use snake_arena.Types.{ParticipantRow}
use snake_arena.Db.Rows.{select_where, order_by}
use snake_arena.Db.Projects.{Projects}
use snake_arena.Db.Matches.{Match, Participant, MatchData, MatchTables, record_match_result}
use snake_arena.Db.AgentScores.{any_ranked, is_latest, by_seat, scored_rows}

-- The ids that the tables use are below the next one.
abbrev pub IsBelow : ℕ → List Match → Type 0
IsBelow n ms = All (λ m. m.id < n) ms

module _ (mode_id : ℕ) where
  any_ranked-fresh : (n : ℕ) (ms : List Match) → IsBelow n ms → any_ranked mode_id n ms ≡ false
  any_ranked-fresh n [] below = refl
  any_ranked-fresh n (m ∷ ms) below =
      ground (arith, below.0, any_ranked-fresh n ms below.1, nat_beq_iff m.id n)

  any_ranked-test :
      (i : ℕ) (m : Match) (ms : List Match)
      → m.is_test ≡ true
      → any_ranked mode_id i (ms ++ m ∷ []) ≡ any_ranked mode_id i ms
  any_ranked-test i m [] test = ground (arith, test)
  any_ranked-test i m (n ∷ ms) test = ground (arith, any_ranked-test i m ms test)

  module _ {W : Type 0} (projects : Projects) (m : Match) (ms : List Match)
      (test : m.is_test ≡ true) where
    -- The rows of the new match do not count, and the others count as before.
    new_rows :
        (n : ℕ) (rows : List (ParticipantRow W))
        → any_ranked mode_id n ms ≡ false
        → select_where
            (λ p. any_ranked mode_id p.match_id (ms ++ m ∷ []) && is_latest projects p)
            (map (λ r. record { match_id = n; row = r }) rows)
          ≡ []
    unfolding select_where
    new_rows n [] fresh = refl
    new_rows n (r ∷ rows) fresh =
        ground (arith, any_ranked-test n m ms test, fresh, new_rows n rows fresh)

    old_rows :
        (ps added : List (Participant W))
        → select_where
            (λ p. any_ranked mode_id p.match_id (ms ++ m ∷ []) && is_latest projects p)
            added
          ≡ []
        → select_where
            (λ p. any_ranked mode_id p.match_id (ms ++ m ∷ []) && is_latest projects p)
            (ps ++ added)
          ≡ select_where (λ p. any_ranked mode_id p.match_id ms && is_latest projects p) ps
    unfolding select_where
    old_rows [] added none_added = none_added
    old_rows (p ∷ ps) added none_added =
        ground (arith, any_ranked-test p.match_id m ms test, old_rows ps added none_added)

-- Recording a test match, with any participants, changes none of the rows that the scores of any mode are
-- computed from, where every stored match has an id below the next one.
pub scored_rows-record_test :
    {W : Type 0} (mode_id : ℕ) (projects : Projects) (d : MatchData)
    (rows : List (ParticipantRow W)) (t : MatchTables W)
    → d.is_test ≡ true
    → IsBelow t.next_id t.matches
    → scored_rows mode_id projects (record_match_result W d rows t).1
      ≡ scored_rows mode_id projects t
unfolding scored_rows record_match_result
scored_rows-record_test mode_id projects d rows t test below = ap (order_by by_seat) (
    old_rows mode_id projects _ t.matches test t.participants _ (
      new_rows mode_id projects _ t.matches test t.next_id rows
        (any_ranked-fresh mode_id t.next_id t.matches below)))

-- ===== src/Db/AgentScores/Pruned.antt =====
-- services/sa_common/sa_common/db/matches.py: pruning, and the rows that the scores
-- are computed from.
use snake_arena.Prelude.{
  ℕ, ◌≡◌, refl, sym, ap, Bool-cases, inl, inr, true, false, ◌&&◌, not, List, [], ◌∷◌, arith,
  nat_key, nat_beq_iff, subst, All, All-weaken,
}
use snake_arena.Db.Rows.{select_where, order_by}
use snake_arena.Db.Projects.{Projects}
use snake_arena.Db.Matches.{
  Match, Participant, MatchTables, is_current, any_current, is_obsolete, any_match,
  prune_obsolete_ranked_matches,
}
use snake_arena.Db.AgentScores.{any_ranked, is_latest, by_seat, scored_rows}

module _ {W : Type 0} (projects : Projects) where
  latest_current :
      (qs : Projects) (p : Participant W) → is_latest qs p ≡ true → is_current W qs p ≡ true
  latest_current [] p h = h
  latest_current (q ∷ qs) p h = ground (arith, latest_current qs p)

  -- The match of a current participant has a current participant.
  currents :
      (ps : List (Participant W))
      → All (λ p. is_current W projects p ≡ true → any_current W projects p.match_id ps ≡ true) ps
  currents [] = tt
  currents (p ∷ ps) = (
    (λ c. ground (arith, nat_beq_iff p.match_id p.match_id)),
    All-weaken _ _ ps (λ q h c. ground (arith, h c)) (currents ps),
  )

  module _ (participants : List (Participant W)) (i : ℕ)
      (current : any_current W projects i participants ≡ true) where
    -- A match with a current participant is not obsolete.
    not_obsolete : (m : Match) → m.id ≡ i → is_obsolete W projects participants m ≡ false
    not_obsolete m e =
        let c : any_current W projects m.id participants ≡ true =
          subst (λ k. any_current W projects k participants ≡ true) (sym e) current in
        ground (arith, c)

    any_match-gone :
        (ms : List Match)
        → any_match W i (select_where (is_obsolete W projects participants) ms) ≡ false
    unfolding select_where
    any_match-gone [] = refl
    any_match-gone (m ∷ ms) = ground (arith, any_match-gone ms, nat_beq_iff m.id i, not_obsolete m)

    any_ranked-kept :
        (mode_id : ℕ) (ms : List Match)
        → any_ranked mode_id i (select_where (λ m. not (is_obsolete W projects participants m)) ms)
          ≡ any_ranked mode_id i ms
    unfolding select_where
    any_ranked-kept mode_id [] = refl
    any_ranked-kept mode_id (m ∷ ms) =
        ground (arith, any_ranked-kept mode_id ms, nat_beq_iff m.id i, not_obsolete m)

  module _ (mode_id : ℕ) (t : MatchTables W) where
    abbrev gone : List Match
    unfolding select_where
    gone = select_where (is_obsolete W projects t.participants) t.matches

    abbrev left : List Match
    unfolding select_where
    left = select_where (λ m. not (is_obsolete W projects t.participants m)) t.matches

    -- The rows that count are the same among all participants and among those that are left.
    same_rows :
        (ps : List (Participant W))
        → All
            (λ p.
              is_current W projects p ≡ true
              → any_current W projects p.match_id t.participants ≡ true)
            ps
        → select_where
            (λ p. any_ranked mode_id p.match_id left && is_latest projects p)
            (select_where (λ p. not (any_match W p.match_id gone)) ps)
          ≡ select_where (λ p. any_ranked mode_id p.match_id t.matches && is_latest projects p) ps
    unfolding select_where
    same_rows [] all = refl
    same_rows (p ∷ ps) all = elim (Bool-cases (is_latest projects p)) [
      | inl e ↦
          let c = all.0 (latest_current projects p e) in
          ground (
            arith,
            e,
            any_match-gone t.participants p.match_id c t.matches,
            any_ranked-kept t.participants p.match_id c mode_id t.matches,
            same_rows ps all.1,
          )
      | inr e ↦ ground (arith, e, same_rows ps all.1)
    ]

  -- Pruning the obsolete matches, with the participants that go with them, changes none of the rows that
  -- the scores of any mode are computed from.
  pub scored_rows-prune :
      (mode_id : ℕ) (t : MatchTables W)
      → scored_rows mode_id projects (prune_obsolete_ranked_matches W projects t).1
        ≡ scored_rows mode_id projects t
  unfolding scored_rows prune_obsolete_ranked_matches
  scored_rows-prune mode_id t =
      ap (order_by by_seat) (same_rows mode_id t t.participants (currents t.participants))

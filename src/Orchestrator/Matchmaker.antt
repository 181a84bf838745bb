-- ===== src/Orchestrator/Matchmaker.antt =====
-- services/orchestrator/orchestrator/matchmaker.py: `pick_match_group`. What the queries of the file
-- read is given: the submitted versions and the opponents that a version has played. `draw` gives
-- the numbers of `rng.random()`, in the order of the candidates.
pub mod Groups
pub mod Queries
use snake_arena.Prelude.{
  ℕ, suc, ◌+◌, ◌-◌, ◌↔◌, ◌≡◌, Bool, true, false, ◌&&◌, ◌||◌, not, Option, none, some, List, [], ◌∷◌,
  map, arith, ltb, ◌==◌, Key, nat_key, length, take, if◌then◌else◌,
}
use snake_arena.Prelude.Dict.{Dict, lookup, insert}
use snake_arena.Prelude.Result.{Result, ok, err}
use snake_arena.Db.Rows.{select_where, order_by}

-- `VersionRef`
pub record VersionRef : Type 0 where
  pub project_id : ℕ
  pub version : ℕ

abbrev pub ref_beq : VersionRef → VersionRef → Bool
ref_beq a b = a.project_id == b.project_id && a.version == b.version

pub ref_beq_iff : (a b : VersionRef) → (ref_beq a b ≡ true) ↔ (a ≡ b)
ref_beq_iff a b = ground arith

instance abbrev pub ref_key : Key VersionRef
ref_key = record { same = ref_beq; same_iff = ref_beq_iff }

-- `VersionStats`
pub record VersionStats : Type 0 where
  pub ref : VersionRef
  pub matches_played : ℕ
  pub distinct_opponents : ℕ

abbrev pub mem_ref : VersionRef → List VersionRef → Bool
mem_ref v [] = false
mem_ref v (w ∷ ws) = w == v || mem_ref v ws

-- `{vs.ref: i for i, vs in enumerate(underplayed)}`
unfoldable pub underplay_rank : ℕ → List VersionStats → Dict VersionRef ℕ → Dict VersionRef ℕ
underplay_rank i [] d = d
underplay_rank i (s ∷ ss) d = underplay_rank (suc i) ss (insert s.ref i d)

-- A candidate with its sort key.
pub record Candidate : Type 0 where
  pub ref : VersionRef
  pub has_played : Bool
  pub underplay : ℕ
  pub tiebreak : ℕ

abbrev rank_of : ℕ → Option ℕ → ℕ
rank_of default none = default
rank_of default (some i) = i

-- The keys, computed for one candidate after the other.
unfoldable pub keyed :
    (ℕ → ℕ) → List VersionRef → List VersionStats → ℕ → List VersionRef → List Candidate
unfolding underplay_rank
keyed draw played underplayed i [] = []
keyed draw played underplayed i (v ∷ vs) =
    record {
      ref = v;
      has_played = mem_ref v played;
      underplay = rank_of (length underplayed) (lookup v (underplay_rank 0 underplayed []));
      tiebreak = draw i;
    }
    ∷ keyed draw played underplayed (suc i) vs

-- The order of tuples.
abbrev pub precedes : Candidate → Candidate → Bool
precedes a b =
    (b.has_played && not a.has_played)
    || ((not (a.has_played && not b.has_played))
        && (ltb a.underplay b.underplay
            || (a.underplay == b.underplay && ltb a.tiebreak b.tiebreak)))

abbrev pub comes_before : Candidate → Candidate → Bool
comes_before a b = not (precedes b a)

-- `candidates.sort(key=key)`, which is stable.
unfoldable pub ranked :
    (ℕ → ℕ) → List VersionRef → List VersionStats → List VersionRef → List Candidate
unfolding keyed order_by
ranked draw played underplayed vs = order_by comes_before (keyed draw played underplayed 0 vs)

-- `[v for v in all_submitted if v != seed]`
unfoldable pub candidates : VersionRef → List VersionRef → List VersionRef
unfolding select_where
candidates seed submitted = select_where (λ v. not (v == seed)) submitted

pub data GroupError : Type 0 where
  multi_modes_only : GroupError

abbrev full_group : ℕ → List VersionRef → Option (List VersionRef)
full_group n group = if ltb (length group) n then none else some group

-- `pick_match_group`, for a mode of `n` participants.
unfoldable pub pick_match_group :
    ℕ
    → (ℕ → ℕ)
    → List VersionRef
    → (VersionRef → List VersionRef)
    → List VersionStats
    → Result GroupError (Option (List VersionRef))
unfolding ranked candidates
pick_match_group n draw submitted opponents underplayed =
    if ltb n 2 then err multi_modes_only else elim underplayed [
      | [] ↦ ok none
      | s ∷ ss ↦
          if ltb (length submitted) n
          then ok none
          else ok (
              full_group n (
                s.ref
                ∷ take (n - 1) (
                    map (λ c. c.ref)
                      (ranked draw (opponents s.ref) (s ∷ ss) (candidates s.ref submitted)))))
    ]

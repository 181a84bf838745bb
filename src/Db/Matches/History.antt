-- ===== src/Db/Matches/History.antt =====
-- services/sa_common/sa_common/db/matches.py: `list_ranked_matches_for_project`, the latest matches of a
-- project.
use Prim.Native.String.{String}
use snake_arena.Prelude.{
  ℕ, Bool, true, false, ◌&&◌, ◌||◌, not, Option, none, some, List, [], ◌∷◌, ◌++◌, map, ltb, ◌==◌,
  nat_key, take, if◌then◌else◌,
}
use snake_arena.Prelude.Dict.{Dict, lookup, insert}
use snake_arena.Types.{ParticipantRow}
use snake_arena.Db.Rows.{select_where, order_by}
use snake_arena.Db.Projects.{Projects}
use snake_arena.Db.Matches.{
  MatchStatus, success, match_status_beq, Match, Participant, MatchTables, of_match, has_match_id,
}

-- `MatchParticipantSummary`
pub record MatchParticipantSummary (W : Type 0) : Type 0 where
  pub seat : ℕ
  pub project_id : ℕ
  pub project_name : String
  pub final_length : Option ℕ
  pub survival_rank : Option ℕ
  pub metrics : Dict String W

-- `MatchSummaryRow`
pub record MatchSummaryRow (W : Type 0) : Type 0 where
  pub id : ℕ
  pub match_uuid : String
  pub status : MatchStatus
  pub mode_id : Option ℕ
  pub started_at : ℕ
  pub finished_at : Option ℕ
  pub bundle_key : Option String
  pub participants : List (MatchParticipantSummary W)

abbrev is_one_of : Option ℕ → List ℕ → Bool
is_one_of none ids = false
is_one_of (some i) [] = false
is_one_of (some i) (j ∷ js) = j == i || is_one_of (some i) js

-- `%s IS NULL OR m2.mode_id = ANY(%s)`
abbrev of_modes : Option (List ℕ) → Option ℕ → Bool
of_modes none mode_id = true
of_modes (some ids) mode_id = is_one_of mode_id ids

abbrev pub is_listed : Option (List ℕ) → Match → Bool
is_listed mode_ids m =
    not m.is_test && (match_status_beq m.status success && of_modes mode_ids m.mode_id)

abbrev name_of : ℕ → Projects → Option String
name_of i [] = none
name_of i (p ∷ ps) = if p.id == i then some p.name else name_of i ps

module _ {W : Type 0} where
  -- The subquery before its order: a match for each seat of the project in it.
  abbrev pub seats_of : ℕ → Option (List ℕ) → List Match → List (Participant W) → List Match
  unfolding select_where
  seats_of project_id mode_ids matches [] = []
  seats_of project_id mode_ids matches (p ∷ ps) =
      let rest = seats_of project_id mode_ids matches ps in
      if p.row.project_id == project_id
      then select_where (λ m. has_match_id p.match_id m && is_listed mode_ids m) matches ++ rest
      else rest

  abbrev summary : ParticipantRow W → String → MatchParticipantSummary W
  summary r name = record {
    seat = r.seat;
    project_id = r.project_id;
    project_name = name;
    final_length = r.final_length;
    survival_rank = r.survival_rank;
    metrics = r.metrics;
  }

  -- The joins with the participants of a match and their projects.
  abbrev joined : Match → Projects → List (Participant W) → List (Match × MatchParticipantSummary W)
  joined m projects [] = []
  joined m projects (p ∷ ps) =
      let rest = joined m projects ps in
      if of_match W m.id p
      then elim (name_of p.row.project_id projects) [
        | none ↦ rest
        | some name ↦ (m, summary p.row name) ∷ rest
      ]
      else rest

  abbrev all_joined :
      List Match → Projects → List (Participant W) → List (Match × MatchParticipantSummary W)
  all_joined [] projects participants = []
  all_joined (m ∷ ms) projects participants =
      joined m projects participants ++ all_joined ms projects participants

  -- `ORDER BY m.started_at DESC, mp.seat ASC`
  abbrev pub latest_first :
      Match × MatchParticipantSummary W → Match × MatchParticipantSummary W → Bool
  latest_first (m, s) (n, t) =
      ltb n.started_at m.started_at || (m.started_at == n.started_at && not (ltb t.seat s.seat))

  abbrev row_of : Match → MatchSummaryRow W
  row_of m = record {
    id = m.id;
    match_uuid = m.match_uuid;
    status = m.status;
    mode_id = m.mode_id;
    started_at = m.started_at;
    finished_at = m.finished_at;
    bundle_key = m.bundle_key;
    participants = [];
  }

  abbrev with_participant : MatchParticipantSummary W → MatchSummaryRow W → MatchSummaryRow W
  with_participant s r = record r { participants = r.participants ++ s ∷ [] }

  -- The loop over the rows.
  abbrev pub group_rows :
      List (Match × MatchParticipantSummary W)
      → Dict ℕ (MatchSummaryRow W)
      → Dict ℕ (MatchSummaryRow W)
  group_rows [] d = d
  group_rows ((m, s) ∷ rest) d =
      let row : MatchSummaryRow W = elim (lookup m.id d) [ none ↦ row_of m | some r ↦ r ] in
      group_rows rest (insert m.id (with_participant s row) d)

  -- `list_ranked_matches_for_project`
  unfoldable pub list_ranked_matches_for_project :
      ℕ → ℕ → Option (List ℕ) → Projects → MatchTables W → List (MatchSummaryRow W)
  unfolding seats_of order_by
  list_ranked_matches_for_project project_id limit mode_ids projects t =
      let sub = take limit (
        order_by (λ m n. not (ltb m.id n.id))
          (seats_of project_id mode_ids t.matches t.participants)) in
      map (λ e. e.1)
        (group_rows (order_by latest_first (all_joined sub projects t.participants)) [])

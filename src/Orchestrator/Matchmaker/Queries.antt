-- ===== src/Orchestrator/Matchmaker/Queries.antt =====
-- services/orchestrator/orchestrator/matchmaker.py: the queries, on the tables of the projects, the
-- matches and the jobs.
pub mod Underplayed
use snake_arena.Prelude.{
  ℕ, suc, ◌+◌, Bool, true, false, ◌&&◌, ◌||◌, not, Option, none, some, List, [], ◌∷◌, ◌++◌, map,
  ltb, leb, ◌==◌, nat_key, length, if◌then◌else◌,
}
use snake_arena.Db.Rows.{select_where, count_where, order_by}
use snake_arena.Db.Projects.{Project, Projects}
use snake_arena.Db.Matches.{Match, MatchTables, Participant, match_status_beq, opt_beq, success}
use snake_arena.Db.MatchJobs.{MatchJob, JobTable, Status}
use snake_arena.Orchestrator.Matchmaker.{VersionRef, VersionStats, ref_beq, mem_ref}

-- `submitted_version > 0`, and `submitted_crashed = FALSE`.
abbrev pub is_submitted : Project → Bool
is_submitted p = ltb 0 p.submitted_version

abbrev pub is_eligible : Project → Bool
is_eligible p = is_submitted p && not p.submitted_crashed

abbrev pub ref_of : Project → VersionRef
ref_of p = record { project_id = p.id; version = p.submitted_version }

-- `_count_submitted`
unfoldable pub count_submitted : Projects → ℕ
unfolding count_where
count_submitted projects = count_where is_eligible projects

-- `_list_all_submitted_versions`
unfoldable pub list_all_submitted_versions : Projects → List VersionRef
unfolding select_where
list_all_submitted_versions projects = map ref_of (select_where is_submitted projects)

-- `mj.mode_id = … AND mj.status IN ('queued', 'running')`
abbrev pub is_pending : Status → Bool
is_pending Status.queued = true
is_pending Status.running = true
is_pending _ = false

abbrev pub is_in_flight : ℕ → MatchJob → Bool
is_in_flight mode_id j = j.mode_id == mode_id && is_pending j.status

-- The join of a project id with its submitted project.
abbrev pub submitted_ref : Projects → ℕ → List VersionRef
submitted_ref [] pid = []
submitted_ref (p ∷ ps) pid =
    let rest = submitted_ref ps pid in
    if p.id == pid && is_submitted p then ref_of p ∷ rest else rest

abbrev pub submitted_refs : Projects → List ℕ → List VersionRef
submitted_refs projects [] = []
submitted_refs projects (pid ∷ pids) = submitted_ref projects pid ++ submitted_refs projects pids

-- The appearances in queued and running jobs.
unfoldable pub in_flight_refs : ℕ → Projects → List MatchJob → List VersionRef
in_flight_refs mode_id projects [] = []
in_flight_refs mode_id projects (j ∷ js) =
    let rest = in_flight_refs mode_id projects js in
    if is_in_flight mode_id j then submitted_refs projects j.project_ids ++ rest else rest

abbrev any_success : ℕ → ℕ → List Match → Bool
any_success mode_id i [] = false
any_success mode_id i (m ∷ ms) =
    (m.id == i && (opt_beq m.mode_id (some mode_id) && match_status_beq m.status success))
    || any_success mode_id i ms

abbrev pub count_ref : VersionRef → List VersionRef → ℕ
count_ref v [] = 0
count_ref v (w ∷ ws) = (if ref_beq w v then 1 else 0) + count_ref v ws

module _ {W : Type 0} where
  abbrev pub participant_ref : Participant W → VersionRef
  participant_ref p = record { project_id = p.row.project_id; version = p.row.project_version }

  -- The appearances in successful matches.
  unfoldable pub played_refs : ℕ → List Match → List (Participant W) → List VersionRef
  played_refs mode_id matches [] = []
  played_refs mode_id matches (p ∷ ps) =
      let rest = played_refs mode_id matches ps in
      if any_success mode_id p.match_id matches then participant_ref p ∷ rest else rest

  -- `matches_played`: success matches and jobs in flight.
  unfoldable pub matches_played : ℕ → Projects → MatchTables W → JobTable → VersionRef → ℕ
  unfolding played_refs in_flight_refs
  matches_played mode_id projects t jobs v =
      count_ref v (played_refs mode_id t.matches t.participants)
      + count_ref v (in_flight_refs mode_id projects jobs.rows)

  -- The others of one match.
  abbrev others_of : Participant W → List (Participant W) → List VersionRef
  others_of p [] = []
  others_of p (q ∷ qs) =
      let rest = others_of p qs in
      if q.match_id == p.match_id && not (q.row.seat == p.row.seat)
      then participant_ref q ∷ rest
      else rest

  abbrev match_opponents :
      ℕ → VersionRef → List Match → List (Participant W) → List (Participant W) → List VersionRef
  match_opponents mode_id v matches all [] = []
  match_opponents mode_id v matches all (p ∷ ps) =
      let rest = match_opponents mode_id v matches all ps in
      if ref_beq (participant_ref p) v && any_success mode_id p.match_id matches
      then others_of p all ++ rest
      else rest

abbrev other_ids : ℕ → List ℕ → List ℕ
other_ids i [] = []
other_ids i (j ∷ js) = let rest = other_ids i js in if j == i then rest else j ∷ rest

abbrev times {ℓ} : {A : Type ℓ} → ℕ → List ℕ → List A → List A
times i [] xs = []
times i (j ∷ js) xs = let rest = times i js xs in if j == i then xs ++ rest else rest

-- The others of the jobs in which a project stands.
abbrev job_opponents : ℕ → ℕ → Projects → List MatchJob → List VersionRef
job_opponents mode_id pid projects [] = []
job_opponents mode_id pid projects (j ∷ js) =
    let rest = job_opponents mode_id pid projects js in
    if is_in_flight mode_id j
    then times pid j.project_ids (submitted_refs projects (other_ids pid j.project_ids)) ++ rest
    else rest

-- `DISTINCT`
abbrev pub distinct : List VersionRef → List VersionRef
distinct [] = []
distinct (v ∷ vs) = let rest = distinct vs in if mem_ref v rest then rest else v ∷ rest

-- The rows with their `submitted_at`, in the order of the query; NULL comes first in `DESC`.
abbrev later_or_none : Option ℕ → Option ℕ → Bool
later_or_none none b = true
later_or_none (some a) none = false
later_or_none (some a) (some b) = leb b a

abbrev pub least_first : VersionStats × Option ℕ → VersionStats × Option ℕ → Bool
least_first (a, x) (b, y) =
    ltb a.matches_played b.matches_played
    || (a.matches_played == b.matches_played
        && (ltb a.distinct_opponents b.distinct_opponents
            || (a.distinct_opponents == b.distinct_opponents && later_or_none x y)))

module _ {W : Type 0} where
  -- `_list_played_opponents`
  unfoldable pub list_played_opponents :
      ℕ → Projects → MatchTables W → JobTable → VersionRef → List VersionRef
  list_played_opponents mode_id projects t jobs v = distinct (
      match_opponents mode_id v t.matches t.participants t.participants
      ++ job_opponents mode_id v.project_id projects jobs.rows)

  abbrev stats : Bool → ℕ → Projects → MatchTables W → JobTable → Project → VersionStats
  unfolding matches_played list_played_opponents
  stats is_multi mode_id projects t jobs p = record {
    ref = ref_of p;
    matches_played = matches_played mode_id projects t jobs (ref_of p);
    distinct_opponents =
        if is_multi then length (list_played_opponents mode_id projects t jobs (ref_of p)) else 0;
  }

  abbrev pub underplayed_rows :
      Bool → ℕ → ℕ → Projects → MatchTables W → JobTable → Projects → List (VersionStats × Option ℕ)
  unfolding matches_played list_played_opponents
  underplayed_rows is_multi mode_id target projects t jobs [] = []
  underplayed_rows is_multi mode_id target projects t jobs (p ∷ ps) =
      let rest = underplayed_rows is_multi mode_id target projects t jobs ps in
      if is_eligible p && ltb (matches_played mode_id projects t jobs (ref_of p)) target
      then (stats is_multi mode_id projects t jobs p, p.submitted_at) ∷ rest
      else rest

  -- `_underplayed_solo` and `_underplayed_multi`
  unfoldable pub underplayed_solo : ℕ → ℕ → Projects → MatchTables W → JobTable → List VersionStats
  unfolding underplayed_rows order_by
  underplayed_solo mode_id target projects t jobs =
      map (λ r. r.0)
        (order_by least_first (underplayed_rows false mode_id target projects t jobs projects))

  unfoldable pub underplayed_multi :
      ℕ → ℕ → ℕ → Projects → MatchTables W → JobTable → List VersionStats
  unfolding underplayed_rows order_by count_submitted
  underplayed_multi mode_id participant_count target projects t jobs =
      if ltb (count_submitted projects) participant_count
      then []
      else map (λ r. r.0)
          (order_by least_first (underplayed_rows true mode_id target projects t jobs projects))

  -- `list_underplayed_versions`
  unfoldable pub list_underplayed_versions :
      ℕ → ℕ → ℕ → Projects → MatchTables W → JobTable → List VersionStats
  unfolding underplayed_solo underplayed_multi
  list_underplayed_versions mode_id participant_count target projects t jobs =
      if participant_count == 1
      then underplayed_solo mode_id target projects t jobs
      else underplayed_multi mode_id participant_count target projects t jobs

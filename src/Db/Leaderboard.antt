-- ===== src/Db/Leaderboard.antt =====
-- services/sa_common/sa_common/db/leaderboard.py: the three rankings that are computed from the scores of
-- the modes. The text `f"mode:{mid}"` is a function `mode_key` of the number.
pub mod Ranks
use Prim.Native.String.{String}
use snake_arena.Prelude.{
  ℕ, suc, ◌+◌, Bool, true, false, not, Option, none, some, List, [], ◌∷◌, ◌++◌, map, ◌==◌, nat_key,
  string_key, take, length, if◌then◌else◌,
}
use snake_arena.Prelude.Dict.{Dict, lookup, insert, push, keys}
use snake_arena.Prelude.Result.{Result, ok, err, ◌>>=◌, traverse}
use snake_arena.Scoring.Numbers.{Float}
use snake_arena.Scoring.{ScoreError, item, values, mean, CategoryName}
use snake_arena.Db.Rows.{select_where, order_by}
use snake_arena.Db.Projects.{Project, Projects}
use snake_arena.Db.Matches.{MatchTables}
use snake_arena.Db.AgentScores.{ModeScoring, AgentScoreRow, Entry, opt_string_beq}
use snake_arena.Db.AgentScores.Aggregate.{compute_mode_scores, is_among}

-- `_ProjectMeta`
pub record ProjectMeta : Type 0 where
  pub name : String
  pub language : String
  pub user_display_name : String

-- What the code reads of the table `users`.
pub record UserName : Type 0 where
  pub id : ℕ
  pub display_name : String

-- `LeaderboardEntry`
pub record LeaderboardEntry (W : Type 0) : Type 0 where
  pub rank : ℕ
  pub project_id : ℕ
  pub meta : ProjectMeta
  pub matches_played : ℕ
  pub score : W
  pub category_breakdown : List (Entry W)
  pub cpu : W × W

-- `GroupLeaderboardEntry`
pub record GroupLeaderboardEntry (W : Type 0) : Type 0 where
  pub rank : ℕ
  pub project_id : ℕ
  pub meta : ProjectMeta
  pub group_score : W
  pub matches_played : ℕ
  pub modes_played : ℕ

-- `OverallLeaderboardEntry`
pub record OverallLeaderboardEntry (W : Type 0) : Type 0 where
  pub rank : ℕ
  pub project_id : ℕ
  pub meta : ProjectMeta
  pub overall_score : W
  pub total_matches : ℕ
  pub modes_played : ℕ

abbrev user_name : ℕ → List UserName → Option String
user_name i [] = none
user_name i (u ∷ us) = if u.id == i then some u.display_name else user_name i us

-- The join of `projects` and `users`: a project without an owner has no row.
abbrev joined_name : Project → List UserName → Option String
joined_name p users = elim p.user_id [ none ↦ none | some i ↦ user_name i users ]

-- `_fetch_project_meta`
unfoldable pub fetch_project_meta : List ℕ → Projects → List UserName → Dict ℕ ProjectMeta
fetch_project_meta ids [] users = []
fetch_project_meta ids (p ∷ ps) users =
    let rest = fetch_project_meta ids ps users in
    if is_among p.id ids
    then elim (joined_name p users) [
      | none ↦ rest
      | some name ↦
          (p.id, record { name = p.name; language = p.language; user_display_name = name }) ∷ rest
    ]
    else rest

-- The entries of the comprehension: rank `i + 1` for the item at `i`, those in `meta` alone.
abbrev pub entries {ℓ κ} :
    {A : Type ℓ} {E : Type κ}
    → (A → ℕ)
    → (ℕ → A → ProjectMeta → E)
    → Dict ℕ ProjectMeta
    → ℕ
    → List A
    → List E
entries project_of make meta i [] = []
entries project_of make meta i (a ∷ rows) =
    let rest = entries project_of make meta (suc i) rows in
    elim (lookup (project_of a) meta) [ none ↦ rest | some m ↦ make (suc i) a m ∷ rest ]

module _ {W : Type 0} (f : Float W) where
  -- `….sort(key=…, reverse=True)`, which keeps the order of equal keys, and `[:limit]`.
  abbrev pub beyond {ℓ} : {A : Type ℓ} → (A → W) → A → A → Bool
  beyond key a b = not (f.lt (key a) (key b))

  unfoldable pub best_of {ℓ} : {A : Type ℓ} → (A → W) → ℕ → List A → List A
  unfolding order_by
  best_of key limit xs = take limit (order_by (beyond key) xs)

  -- `[r for r in rows if r.score is not None]`, with the score of each.
  abbrev pub qualified : List (AgentScoreRow W) → List (W × AgentScoreRow W)
  qualified [] = []
  qualified (r ∷ rs) = elim r.score [ none ↦ qualified rs | some x ↦ (x, r) ∷ qualified rs ]

  abbrev pub mode_entry : ℕ → W × AgentScoreRow W → ProjectMeta → LeaderboardEntry W
  mode_entry i (x, r) m = record {
    rank = i;
    project_id = r.project_id;
    meta = m;
    matches_played = r.matches_played;
    score = x;
    category_breakdown = r.category_breakdown;
    cpu = r.cpu;
  }

  abbrev pub projects_of : List (W × AgentScoreRow W) → List ℕ
  projects_of rows = map (λ r. r.1.project_id) rows

  -- `get_mode_leaderboard`
  unfoldable pub get_mode_leaderboard :
      ℕ
      → ℕ
      → List (ModeScoring W)
      → Projects
      → List UserName
      → MatchTables W
      → Result ScoreError (List (LeaderboardEntry W))
  unfolding compute_mode_scores best_of fetch_project_meta
  get_mode_leaderboard mode_id limit modes projects users t = do
    all ← compute_mode_scores f mode_id modes projects t
    let rows = best_of (λ r. r.0) limit (qualified all)
    ok (
        entries (λ r. r.1.project_id) mode_entry
          (fetch_project_meta (projects_of rows) projects users) 0 rows)

  -- `_list_modes_in_group` and `_list_enabled_mode_ids`
  unfoldable pub list_modes_in_group : String → List (ModeScoring W) → List ℕ
  unfolding select_where
  list_modes_in_group slug modes =
      map (λ m. m.id) (select_where (λ m. opt_string_beq m.group_slug (some slug)) modes)

  unfoldable pub list_enabled_mode_ids : List (ModeScoring W) → List ℕ
  unfolding select_where
  list_enabled_mode_ids modes = map (λ m. m.id) (select_where (λ m. m.enabled) modes)

  -- `d[k] = d.get(k, 0) + x`
  abbrev plus : ℕ → ℕ → Dict ℕ ℕ → Dict ℕ ℕ
  plus k n d = insert k (elim (lookup k d) [ none ↦ n | some m ↦ m + n ]) d

  abbrev plus_score : ℕ → W → Dict ℕ W → Dict ℕ W
  plus_score k x d = insert k (f.add (elim (lookup k d) [ none ↦ f.zero | some y ↦ y ]) x) d

  -- `score_sum`, `matches_sum` and `modes_count`.
  pub record GroupSums : Type 0 where
    pub score_sum : Dict ℕ W
    pub matches_sum : Dict ℕ ℕ
    pub modes_count : Dict ℕ ℕ

  abbrev add_rows : List (W × AgentScoreRow W) → GroupSums → GroupSums
  add_rows [] s = s
  add_rows ((x, r) ∷ rs) s = add_rows rs record {
    score_sum = plus_score r.project_id x s.score_sum;
    matches_sum = plus r.project_id r.matches_played s.matches_sum;
    modes_count = plus r.project_id 1 s.modes_count;
  }

  abbrev add_tables : List (List (AgentScoreRow W)) → GroupSums → GroupSums
  add_tables [] s = s
  add_tables (rows ∷ rest) s = add_tables rest (add_rows (qualified rows) s)

  abbrev pub group_sums : List (List (AgentScoreRow W)) → GroupSums
  group_sums tables =
      add_tables tables record { score_sum = []; matches_sum = []; modes_count = [] }

  -- One project of the group: its mean score, matches and modes.
  abbrev pub group_standing : GroupSums → ℕ → Result ScoreError (W × (ℕ × (ℕ × ℕ)))
  group_standing s pid = do
    x ← item pid s.score_sum
    n ← item pid s.modes_count
    k ← item pid s.matches_sum
    ok (f.div x (f.of_nat n), (pid, (k, n)))

  abbrev pub group_entry : ℕ → W × (ℕ × (ℕ × ℕ)) → ProjectMeta → GroupLeaderboardEntry W
  group_entry i (x, (pid, (k, n))) m = record {
    rank = i;
    project_id = pid;
    meta = m;
    group_score = x;
    matches_played = k;
    modes_played = n;
  }

  -- `get_group_leaderboard`
  unfoldable pub get_group_leaderboard :
      String
      → ℕ
      → List (ModeScoring W)
      → Projects
      → List UserName
      → MatchTables W
      → Result ScoreError (List (GroupLeaderboardEntry W))
  unfolding compute_mode_scores best_of fetch_project_meta list_modes_in_group traverse
  get_group_leaderboard slug limit modes projects users t = do
    tables ←
        traverse (λ i. compute_mode_scores f i modes projects t) (list_modes_in_group slug modes)
    let sums = group_sums tables
    standings ← traverse (group_standing sums) (keys sums.score_sum)
    let rows = best_of (λ r. r.0) limit standings
    ok (
        entries (λ r. r.1.0) group_entry (fetch_project_meta (map (λ r. r.1.0) rows) projects users)
          0 rows)

  -- What `get_overall_leaderboard` keeps of a project.
  pub record Overall : Type 0 where
    pub groups : Dict ℕ (Dict String (List W))
    pub matches : Dict ℕ ℕ
    pub modes : Dict ℕ ℕ
    pub qualified_modes : Dict ℕ ℕ

  abbrev groups_of : ℕ → Dict ℕ (Dict String (List W)) → Dict String (List W)
  groups_of pid d = elim (lookup pid d) [ none ↦ [] | some g ↦ g ]

  abbrev add_overall : String → List (W × AgentScoreRow W) → Overall → Overall
  add_overall gkey [] s = s
  add_overall gkey ((x, r) ∷ rs) s = add_overall gkey rs record {
    groups = insert r.project_id (push gkey x (groups_of r.project_id s.groups)) s.groups;
    matches = plus r.project_id r.matches_played s.matches;
    modes = plus r.project_id 1 s.modes;
    qualified_modes = plus r.project_id 1 s.qualified_modes;
  }

  -- `eligible_ids`
  abbrev pub eligible_ids : ℕ → Dict ℕ ℕ → List ℕ
  eligible_ids n_enabled [] = []
  eligible_ids n_enabled ((pid, n) ∷ d) =
      let rest = eligible_ids n_enabled d in if n == n_enabled then pid ∷ rest else rest

  -- The mean of the means of the groups.
  unfoldable pub overall_score : Dict String (List W) → Result ScoreError W
  unfolding traverse
  overall_score groups = do means ← traverse (mean f) (values groups); mean f means

  abbrev pub overall_standing : Overall → ℕ → Result ScoreError (W × (ℕ × (ℕ × ℕ)))
  unfolding overall_score
  overall_standing s pid = do
    g ← item pid s.groups
    x ← overall_score g
    k ← item pid s.matches
    n ← item pid s.modes
    ok (x, (pid, (k, n)))

  abbrev pub overall_entry : ℕ → W × (ℕ × (ℕ × ℕ)) → ProjectMeta → OverallLeaderboardEntry W
  overall_entry i (x, (pid, (k, n))) m = record {
    rank = i;
    project_id = pid;
    meta = m;
    overall_score = x;
    total_matches = k;
    modes_played = n;
  }

  -- `_mode_group_keys`
  unfoldable pub mode_group_keys : (ℕ → String) → List (ModeScoring W) → Dict ℕ String
  mode_group_keys mode_key [] = []
  mode_group_keys mode_key (m ∷ ms) =
      let rest = mode_group_keys mode_key ms in
      if m.enabled
      then (m.id, elim m.group_slug [ none ↦ mode_key m.id | some slug ↦ slug ]) ∷ rest
      else rest

  -- The loop over the enabled modes.
  abbrev pub scored_modes :
      List (ModeScoring W)
      → Projects
      → MatchTables W
      → Dict ℕ String
      → Overall
      → Result ScoreError Overall
  unfolding compute_mode_scores
  scored_modes modes projects t [] s = ok s
  scored_modes modes projects t ((mid, gkey) ∷ rest) s = do
    rows ← compute_mode_scores f mid modes projects t
    scored_modes modes projects t rest (add_overall gkey (qualified rows) s)

  -- `get_overall_leaderboard`
  unfoldable pub get_overall_leaderboard :
      (ℕ → String)
      → ℕ
      → List (ModeScoring W)
      → Projects
      → List UserName
      → MatchTables W
      → Result ScoreError (List (OverallLeaderboardEntry W))
  unfolding compute_mode_scores best_of fetch_project_meta mode_group_keys overall_score traverse
  get_overall_leaderboard mode_key limit modes projects users t =
      let enabled = mode_group_keys mode_key modes in
      do
        s ←
            scored_modes modes projects t enabled
              record { groups = []; matches = []; modes = []; qualified_modes = [] }
        standings ← traverse (overall_standing s) (eligible_ids (length enabled) s.qualified_modes)
        let rows = best_of (λ r. r.0) limit standings
        ok (
            entries (λ r. r.1.0) overall_entry
              (fetch_project_meta (map (λ r. r.1.0) rows) projects users) 0 rows)

-- ===== src/Db/Matches.antt =====
-- services/sa_common/sa_common/db/matches.py: the tables `matches` and `match_participants`. A
-- participant's metrics are numbers of the type `W`, which this module only stores.
pub mod History
use Prim.Native.String.{String}
use snake_arena.Prelude.{
  ℕ, suc, Bool, true, false, ◌&&◌, ◌||◌, not, Option, none, some, List, [], ◌∷◌, ◌++◌, map, ltb,
  ◌==◌, nat_key, string_key, take,
}
use snake_arena.Db.Rows.{select_where, count_where, order_by}
use snake_arena.Db.Projects.{Projects}
use snake_arena.Types.{ParticipantRow}

-- `MATCH_STATUSES`
pub data MatchStatus : Type 0 where
  success failure : MatchStatus

abbrev pub match_status_beq : MatchStatus → MatchStatus → Bool
match_status_beq success success = true
match_status_beq failure failure = true
match_status_beq _ _ = false

-- `Match`; `sim_args` is the JSON text of the arguments.
pub record Match : Type 0 where
  pub id : ℕ
  pub match_uuid : String
  pub status : MatchStatus
  pub mode_id : Option ℕ
  pub sim_args : String
  pub started_at : ℕ
  pub finished_at : Option ℕ
  pub bundle_key : Option String
  pub error : Option String
  pub is_test : Bool

-- A row of `match_participants`.
pub record Participant (W : Type 0) : Type 0 where
  pub match_id : ℕ
  pub row : ParticipantRow W

-- What `record_match_result` is given of the match.
pub record MatchData : Type 0 where
  pub match_uuid : String
  pub status : MatchStatus
  pub mode_id : Option ℕ
  pub sim_args : String
  pub started_at : ℕ
  pub finished_at : ℕ
  pub bundle_key : Option String
  pub error : Option String
  pub is_test : Bool

abbrev first : List Match → Option Match
first [] = none
first (m ∷ ms) = some m

abbrev pub has_match_id : ℕ → Match → Bool
has_match_id i m = m.id == i

abbrev pub opt_beq : Option ℕ → Option ℕ → Bool
opt_beq none none = true
opt_beq (some a) (some b) = a == b
opt_beq _ _ = false

-- A filter that is given when it is not None.
abbrev wanted {ℓ} : {A : Type ℓ} → (A → Bool) → Option A → Bool
wanted p none = true
wanted p (some a) = p a

abbrev bool_beq : Bool → Bool → Bool
bool_beq true b = b
bool_beq false b = not b

abbrev pub keys_of_matches : List Match → List String
keys_of_matches [] = []
keys_of_matches (m ∷ ms) = elim m.bundle_key [
  | none ↦ keys_of_matches ms
  | some k ↦ k ∷ keys_of_matches ms
]

module _ (W : Type 0) where
  pub record MatchTables : Type 0 where
    pub next_id : ℕ
    pub matches : List Match
    pub participants : List (Participant W)

  -- `record_match_result`: the two inserts of one transaction.
  unfoldable pub record_match_result :
      MatchData → List (ParticipantRow W) → MatchTables → ℕ × MatchTables
  record_match_result m rows t = (
    t.next_id,
    record {
      next_id = suc t.next_id;
      matches =
          t.matches
          ++ record {
            id = t.next_id;
            match_uuid = m.match_uuid;
            status = m.status;
            mode_id = m.mode_id;
            sim_args = m.sim_args;
            started_at = m.started_at;
            finished_at = some m.finished_at;
            bundle_key = m.bundle_key;
            error = m.error;
            is_test = m.is_test;
          }
            ∷ [];
      participants = t.participants ++ map (λ r. record { match_id = t.next_id; row = r }) rows;
    },
  )

  -- `get_match` and `get_match_by_uuid`
  unfoldable pub get_match : ℕ → MatchTables → Option Match
  unfolding select_where
  get_match i t = first (select_where (has_match_id i) t.matches)

  unfoldable pub get_match_by_uuid : String → MatchTables → Option Match
  unfolding select_where
  get_match_by_uuid uuid t = first (select_where (λ m. m.match_uuid == uuid) t.matches)

  abbrev started_later : Match → Match → Bool
  started_later a b = not (ltb a.started_at b.started_at)

  -- `list_matches`: newest first, by the filters that are given.
  unfoldable pub list_matches :
      Option MatchStatus → Option ℕ → Option Bool → ℕ → MatchTables → List Match
  unfolding select_where order_by
  list_matches status mode_id is_test limit t = take limit (
      order_by started_later (
        select_where
          (λ m.
            wanted (match_status_beq m.status) status
            && (wanted (λ i. opt_beq m.mode_id (some i)) mode_id
                && wanted (bool_beq m.is_test) is_test))
          t.matches))

  abbrev pub of_match : ℕ → Participant W → Bool
  of_match i p = p.match_id == i

  abbrev seat_first : Participant W → Participant W → Bool
  seat_first a b = not (ltb b.row.seat a.row.seat)

  -- `get_match_participants`: ordered by seat.
  unfoldable pub get_match_participants : ℕ → MatchTables → List (ParticipantRow W)
  unfolding select_where order_by
  get_match_participants i t =
      map (λ p. p.row) (order_by seat_first (select_where (of_match i) t.participants))

  -- `count_matches_by_status`
  unfoldable pub count_matches_by_status : MatchTables → List (MatchStatus × ℕ)
  unfolding count_where
  count_matches_by_status t =
      map (λ s. (s, count_where (λ m. match_status_beq m.status s) t.matches))
        (success ∷ failure ∷ [])

  -- `SELECT 1 FROM match_participants mp JOIN projects p … WHERE mp.match_id = m.id AND
  -- mp.project_version = p.submitted_version`
  abbrev pub is_current : Projects → Participant W → Bool
  is_current [] p = false
  is_current (q ∷ qs) p =
      (q.id == p.row.project_id && p.row.project_version == q.submitted_version) || is_current qs p

  abbrev pub any_current : Projects → ℕ → List (Participant W) → Bool
  any_current projects i [] = false
  any_current projects i (p ∷ ps) =
      (of_match i p && is_current projects p) || any_current projects i ps

  abbrev has_mode : Option ℕ → Bool
  has_mode none = false
  has_mode (some m) = true

  -- `m.is_test = FALSE AND m.mode_id IS NOT NULL AND NOT EXISTS …`
  abbrev pub is_obsolete : Projects → List (Participant W) → Match → Bool
  is_obsolete projects participants m =
      not m.is_test && (has_mode m.mode_id && not (any_current projects m.id participants))

  abbrev pub any_match : ℕ → List Match → Bool
  any_match i [] = false
  any_match i (m ∷ ms) = m.id == i || any_match i ms

  -- `prune_obsolete_ranked_matches`, with the cascade to the participants.
  unfoldable pub prune_obsolete_ranked_matches : Projects → MatchTables → List String × MatchTables
  unfolding select_where
  prune_obsolete_ranked_matches projects t =
      let gone = select_where (is_obsolete projects t.participants) t.matches in
      (
        keys_of_matches gone,
        record t {
          matches = select_where (λ m. not (is_obsolete projects t.participants m)) t.matches;
          participants = select_where (λ p. not (any_match p.match_id gone)) t.participants;
        },
      )

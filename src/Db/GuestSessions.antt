-- ===== src/Db/GuestSessions.antt =====
-- services/sa_common/sa_common/db/guest_sessions.py: the sessions of visitors, their projects and the
-- projects' test matches. Times are seconds; deleting a session deletes its projects, and those their
-- test matches (`ON DELETE CASCADE`).
pub mod Cleanup
use Prim.Native.String.{String}
use snake_arena.Prelude.{
  ℕ, suc, ◌+◌, ◌*◌, max, Bool, true, false, ◌&&◌, ◌||◌, not, Option, none, some, List, [], ◌∷◌,
  ◌++◌, ltb, ◌==◌, nat_key, string_key, if◌then◌else◌,
}
use snake_arena.Db.Rows.{update_where, select_where, count_where}
use snake_arena.Db.Projects.{Project, Projects}
use snake_arena.Db.TestJobs.{TestMatchJob, TestTable, keys_of}

-- `GuestSession`
pub record GuestSession : Type 0 where
  pub session_id : String
  pub test_count : ℕ
  pub created_at : ℕ
  pub expires_at : ℕ

pub record Tables : Type 0 where
  pub sessions : List GuestSession
  pub projects : Projects
  pub tests : TestTable

-- `GUEST_TEST_LIMIT`
abbrev pub guest_test_limit : ℕ
guest_test_limit = 10

-- `INTERVAL '48 hours'`
abbrev pub session_length : ℕ
session_length = 48 * 3600

abbrev pub has_session_id : String → GuestSession → Bool
has_session_id i s = s.session_id == i

abbrev pub first : List GuestSession → Option GuestSession
first [] = none
first (s ∷ ss) = some s

-- `get_guest_session`
unfoldable pub get_guest_session : String → List GuestSession → Option GuestSession
unfolding select_where
get_guest_session i sessions = first (select_where (has_session_id i) sessions)

abbrev refreshed : ℕ → GuestSession → GuestSession
refreshed now s = record s { expires_at = max s.expires_at (now + session_length) }

abbrev new_session : ℕ → String → GuestSession
new_session now i = record {
  session_id = i;
  test_count = 0;
  created_at = now;
  expires_at = now + session_length;
}

-- `get_or_create_guest_session`
unfoldable pub get_or_create_guest_session :
    ℕ → String → List GuestSession → GuestSession × List GuestSession
unfolding get_guest_session update_where
get_or_create_guest_session now i sessions = elim (get_guest_session i sessions) [
  | none ↦ (new_session now i, sessions ++ new_session now i ∷ [])
  | some s ↦ (refreshed now s, update_where (has_session_id i) (refreshed now) sessions)
]

abbrev pub counted : GuestSession → GuestSession
counted s = record s { test_count = suc s.test_count }

-- `increment_guest_test_count`
unfoldable pub increment_guest_test_count :
    String → List GuestSession → Option GuestSession × List GuestSession
unfolding get_guest_session update_where
increment_guest_test_count i sessions = elim (get_guest_session i sessions) [
  | none ↦ (none, sessions)
  | some s ↦ (some (counted s), update_where (has_session_id i) counted sessions)
]

abbrev pub is_owned_by : String → Project → Bool
is_owned_by i p = elim p.guest_session_id [ none ↦ false | some s ↦ s == i ]

abbrev pub given_to : ℕ → Project → Project
given_to user p = record p { user_id = some user; guest_session_id = none }

-- The cascade from the sessions that are left out to the projects, and from those to the test matches.
abbrev pub is_orphan : (GuestSession → Bool) → List GuestSession → Project → Bool
is_orphan gone [] p = false
is_orphan gone (s ∷ ss) p = (gone s && is_owned_by s.session_id p) || is_orphan gone ss p

abbrev pub any_orphan : (Project → Bool) → ℕ → Projects → Bool
any_orphan gone i [] = false
any_orphan gone i (p ∷ ps) = (gone p && p.id == i) || any_orphan gone i ps

unfoldable pub delete_sessions : (GuestSession → Bool) → Tables → Tables
unfolding select_where
delete_sessions gone t = record {
  sessions = select_where (λ s. not (gone s)) t.sessions;
  projects = select_where (λ p. not (is_orphan gone t.sessions p)) t.projects;
  tests = record t.tests {
    rows =
        select_where
          (λ j. not (any_orphan (is_orphan gone t.sessions) j.player_project_id t.projects))
          t.tests.rows;
  };
}

-- `claim_guest_session`: the projects go to the user, then the session goes.
unfoldable pub claim_guest_session : String → ℕ → Tables → ℕ × Tables
unfolding update_where count_where delete_sessions
claim_guest_session i user t = (
  count_where (is_owned_by i) t.projects,
  delete_sessions (has_session_id i)
      (record t { projects = update_where (is_owned_by i) (given_to user) t.projects }),
)

-- `gs.expires_at < NOW()`
abbrev pub is_expired : ℕ → GuestSession → Bool
is_expired now s = ltb s.expires_at now

abbrev pub tags_of : Projects → List ℕ
tags_of [] = []
tags_of (p ∷ ps) = elim p.dev_image_tag [ none ↦ tags_of ps | some tag ↦ tag ∷ tags_of ps ]

abbrev pub mem_key : String → List String → Bool
mem_key k [] = false
mem_key k (l ∷ ls) = l == k || mem_key k ls

-- `SELECT DISTINCT`
abbrev pub distinct_keys : List String → List String
distinct_keys [] = []
distinct_keys (k ∷ ks) = let rest = distinct_keys ks in if mem_key k rest then rest else k ∷ rest

-- `collect_and_delete_expired_sessions`: the image tags and the bundle keys, and what is left. The
-- connection commits each statement by itself, so the three read `NOW()` at times of their own.
unfoldable pub collect_and_delete_expired_sessions :
    ℕ → ℕ → ℕ → Tables → (List ℕ × List String) × Tables
unfolding select_where delete_sessions
collect_and_delete_expired_sessions tags_at keys_at deleted_at t =
    let orphan = λ (now : ℕ). is_orphan (is_expired now) t.sessions in
    (
      (
        tags_of (select_where (orphan tags_at) t.projects),
        distinct_keys (
            keys_of (
              select_where (λ j. any_orphan (orphan keys_at) j.player_project_id t.projects)
                t.tests.rows)),
      ),
      delete_sessions (is_expired deleted_at) t,
    )

-- ===== src/Db/GuestTests.antt =====
-- Runs of the model of guest_sessions.py at concrete inputs.
use Prim.Native.String.{String}
use snake_arena.Prelude.{ℕ, ◌+◌, arith, ◌≡◌, refl, false, none, some, [], ◌∷◌}
use snake_arena.Db.Rows.{count_where, update_where}
use snake_arena.Db.Projects.{Project}
use snake_arena.Db.ScoreTests.{owned_by}
use snake_arena.Db.MatchJobs.{success}
use snake_arena.Db.TestJobs.{TestMatchJob}
use snake_arena.Db.GuestSessions.{
  GuestSession, Tables, is_expired, is_owned_by, given_to, mem_key,
  collect_and_delete_expired_sessions, claim_guest_session, get_or_create_guest_session,
}
use snake_arena.Db.GuestSessions.Cleanup.{
  mem_tag, has_tag, has_key, collect_and_delete-reports, claim_guest_session-keeps,
}

abbrev visitor : String → ℕ → GuestSession
visitor i until = record { session_id = i; test_count = 3; created_at = 0; expires_at = until }

abbrev visitors_project : ℕ → String → Project
visitors_project i session = record (owned_by 0 i 0) {
  user_id = none;
  guest_session_id = some session;
  dev_image_tag = some (100 + i);
}

abbrev played_by : ℕ → ℕ → String → TestMatchJob
played_by i project key = record {
  id = i;
  status = success;
  player_project_id = project;
  opponent_project_ids = [];
  sim_args = "{}";
  requested_by = none;
  requested_at = i;
  started_at = some i;
  finished_at = some i;
  match_id = some i;
  error = none;
  bundle_key = some key;
  pinned = false;
  mode_id = none;
  avg_budget_ms = 10;
  score = none;
  score_breakdown = none;
}

abbrev visits : Tables
visits = record {
  sessions = visitor "a" 50 ∷ visitor "b" 500 ∷ [];
  projects = visitors_project 1 "a" ∷ visitors_project 2 "b" ∷ owned_by 7 3 1 ∷ [];
  tests = record { next_id = 3; rows = played_by 1 1 "matches/1" ∷ played_by 2 2 "matches/2" ∷ [] };
}

reported_at_100 :
    (collect_and_delete_expired_sessions 100 101 102 visits).0 ≡ (101 ∷ [], "matches/1" ∷ [])
unfolding collect_and_delete_expired_sessions
reported_at_100 = refl

-- A session that expires between the first statement and the last is deleted with its project and its
-- match, and neither is reported.
expired_meanwhile :
    let found = collect_and_delete_expired_sessions 100 101 501 visits in
    (found.0 ≡ (101 ∷ [], "matches/1" ∷ []))
    × (found.1.projects ≡ owned_by 7 3 1 ∷ [])
    × (found.1.tests.rows ≡ [])
unfolding collect_and_delete_expired_sessions
expired_meanwhile = (refl, refl, refl)

-- A session that is used again at its end lasts longer than 48 hours after it was made.
refreshed_late :
    (get_or_create_guest_session 172_000 "a" (visitor "a" 172_800 ∷ [])).0.expires_at ≡ 344_800
unfolding get_or_create_guest_session
refreshed_late = refl

collect_and_delete-reports_example :
    let found = collect_and_delete_expired_sessions 100 101 102 visits in
    (count_where (is_expired 102) found.1.sessions ≡ 0)
    × ((g : ℕ)
        → mem_tag g found.0.0 ≡ false
        → count_where (has_tag g) found.1.projects ≡ count_where (has_tag g) visits.projects)
    × ((k : String)
        → mem_key k found.0.1 ≡ false
        → count_where (has_key k) found.1.tests.rows ≡ count_where (has_key k) visits.tests.rows)
collect_and_delete-reports_example =
    collect_and_delete-reports 100 101 102 visits (omega arith) ((λ h. refl), ((λ h. cc), tt))

claim_guest_session-keeps_example :
    let found = claim_guest_session "a" 9 visits in
    (found.1.projects ≡ update_where (is_owned_by "a") (given_to 9) visits.projects)
    × (found.1.tests.rows ≡ visits.tests.rows)
claim_guest_session-keeps_example = claim_guest_session-keeps "a" 9 visits

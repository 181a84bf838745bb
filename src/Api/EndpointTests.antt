-- ===== src/Api/EndpointTests.antt =====
-- Requests to services/api/api/routers/test_matches.py at concrete inputs: a visitor's project and three of users.
use snake_arena.Prelude.{ℕ, ◌≤◌, ◌≡◌, refl, arith, true, false, Option, none, some, List, [], ◌∷◌}
use snake_arena.Prelude.Result.{Result, ok, err, IfOk}
use snake_arena.Db.Projects.{Project}
use snake_arena.Db.ScoreTests.{owned_by, contestants}
use snake_arena.Db.MatchJobs.{success}
use snake_arena.Db.TestJobs.{TestMatchJob, any_id, count_pinned_test_jobs}
use snake_arena.Api.TestMatches.{
  user, guest, Store, TestMatchCreate, HttpError, opponent_count, opponent_not_found,
  player_not_found, already_queued, max_pinned, enqueue, update_pin,
}
use snake_arena.Api.TestMatches.Admitted.{IsAdmitted, enqueue-IsAdmitted}
use snake_arena.Api.TestMatches.Pins.{update_pin-bound}

abbrev visitors_snake : Project
visitors_snake = record (owned_by 0 21 0) { user_id = none; guest_session_id = some "visit" }

abbrev finished_job : TestMatchJob
finished_job = record {
  id = 1;
  status = success;
  player_project_id = 11;
  opponent_project_ids = [];
  sim_args = "{}";
  requested_by = some 1;
  requested_at = 3;
  started_at = some 4;
  finished_at = some 5;
  match_id = some 8;
  error = none;
  bundle_key = some "bundle";
  pinned = false;
  mode_id = none;
  avg_budget_ms = 10;
  score = none;
  score_breakdown = none;
}

abbrev tables : Store
tables = record {
  tests = record { next_id = 2; rows = finished_job ∷ [] };
  projects = visitors_snake ∷ contestants;
  sessions = record { session_id = "visit"; test_count = 9; created_at = 0; expires_at = 900 } ∷ [];
  modes =
      record { id = 4; participant_count = 3; sim_args = "{}"; avg_budget_ms = 20; enabled = true }
      ∷ [];
}

abbrev against : List ℕ → TestMatchCreate
against opponents = record {
  player_project_id = 21;
  opponent_project_ids = opponents;
  mode_id = some 4;
  sim_args = none;
}

abbrev error_of : Result HttpError (ℕ × Store) → Option HttpError
error_of (ok a) = none
error_of (err e) = some e

granted : error_of (enqueue 5 (guest "visit") (against (11 ∷ 12 ∷ [])) tables) ≡ none
unfolding enqueue
granted = refl

too_few : error_of (enqueue 5 (guest "visit") (against (11 ∷ [])) tables) ≡ some opponent_count
unfolding enqueue
too_few = refl

unsubmitted :
    error_of (enqueue 5 (guest "visit") (against (11 ∷ 21 ∷ [])) tables) ≡ some opponent_not_found
unfolding enqueue
unsubmitted = refl

not_owned : error_of (enqueue 5 (user 1) (against (11 ∷ 12 ∷ [])) tables) ≡ some player_not_found
unfolding enqueue
not_owned = refl

-- A project whose match waits may not have another.
abbrev twice : Result HttpError (ℕ × Store) → Result HttpError (ℕ × Store)
twice (ok (i, w)) =
    enqueue 6 (user 1) (record (against (12 ∷ 13 ∷ [])) { player_project_id = 11 }) w
twice (err e) = err e

queued_already :
    error_of (
      twice
        (enqueue 5 (user 1) (record (against (12 ∷ 13 ∷ [])) { player_project_id = 11 }) tables))
    ≡ some already_queued
unfolding enqueue
queued_already = refl

enqueue-IsAdmitted_example :
    IfOk
      (IsAdmitted 5 (guest "visit") (against (11 ∷ 12 ∷ [])) tables)
      (enqueue 5 (guest "visit") (against (11 ∷ 12 ∷ [])) tables)
enqueue-IsAdmitted_example = enqueue-IsAdmitted 5 (guest "visit") (against (11 ∷ 12 ∷ [])) tables

update_pin-bound_example :
    IfOk
      (λ (after : Store). count_pinned_test_jobs 11 after.tests ≤ max_pinned)
      (update_pin 1 true 1 tables)
unfolding any_id count_pinned_test_jobs
update_pin-bound_example = update_pin-bound 1 true 1 11 tables (refl, tt) (omega arith)

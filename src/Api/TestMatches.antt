-- ===== src/Api/TestMatches.antt =====
-- services/api/api/routers/test_matches.py: the endpoints that enqueue, cancel, pin and read test matches. A
-- request is one step; an error is the exception that the endpoint raises, before it has written anything.
pub mod Admitted
pub mod Pins
use Prim.Native.String.{String}
use snake_arena.Prelude.{
  ℕ, suc, ◌+◌, Bool, true, false, ◌&&◌, not, Option, none, some, List, [], ◌∷◌, ◌==◌, nat_key,
  string_key, ltb, leb, length, if◌then◌else◌,
}
use snake_arena.Prelude.Result.{Result, ok, err, ◌>>=◌}
use snake_arena.Db.Rows.{select_where}
use snake_arena.Db.Projects.{Projects}
use snake_arena.Db.Projects.Reads.{ProjectMeta, get_project_meta}
use snake_arena.Db.GuestSessions.{
  GuestSession, guest_test_limit, get_guest_session, increment_guest_test_count,
}
use snake_arena.Db.Quotas.{get_test_match_quota}
use snake_arena.Db.MatchJobs.{success, status_beq}
use snake_arena.Db.TestJobs.{
  TestMatchJob, TestTable, has_id, enqueue_test_match_job, count_active_test_jobs_for_project,
  count_pinned_test_jobs, set_pinned, cancel_queued_test_job,
}

pub data Principal : Type 0 where
  user : ℕ → Principal
  guest : String → Principal

-- What the code reads of a mode, and the tables.
pub record Mode : Type 0 where
  pub id : ℕ
  pub participant_count : ℕ
  pub sim_args : String
  pub avg_budget_ms : ℕ
  pub enabled : Bool

pub record Store : Type 0 where
  pub tests : TestTable
  pub projects : Projects
  pub sessions : List GuestSession
  pub modes : List Mode

-- `TestMatchCreate`
pub record TestMatchCreate : Type 0 where
  pub player_project_id : ℕ
  pub opponent_project_ids : List ℕ
  pub mode_id : Option ℕ
  pub sim_args : Option String

-- The answers that are errors.
pub data HttpError : Type 0 where
  no_session quota_exceeded player_not_found mode_not_found opponent_count opponent_not_found :
      HttpError
  already_queued job_not_found too_many_pinned no_bundle assertion_failed : HttpError

-- `DEFAULT_AVG_BUDGET_MS` and `TEST_MATCH_MAX_CUSTOM_OPPONENTS`
abbrev pub default_avg_budget_ms : ℕ
default_avg_budget_ms = 10

abbrev pub max_custom_opponents : ℕ
max_custom_opponents = 4

abbrev pub max_pinned : ℕ
max_pinned = 9

-- Whether the project is the principal's.
abbrev pub owns : Principal → ProjectMeta → Bool
owns (user u) p = elim p.user_id [ none ↦ false | some owner ↦ owner == u ]
owns (guest i) p = elim p.guest_session_id [ none ↦ false | some session ↦ session == i ]

unfoldable pub own_player : Principal → ℕ → Projects → Result HttpError ProjectMeta
unfolding get_project_meta
own_player principal player projects = elim (get_project_meta player projects) [
  | none ↦ err player_not_found
  | some p ↦ if owns principal p then ok p else err player_not_found
]

-- The principal's quota.
unfoldable pub within_quota : ℕ → Principal → Store → Result HttpError (Option ℕ)
unfolding get_guest_session get_test_match_quota
within_quota now (guest i) w = elim (get_guest_session i w.sessions) [
  | none ↦ err no_session
  | some s ↦ if leb guest_test_limit s.test_count then err quota_exceeded else ok none
]
within_quota now (user u) w =
    let quota = get_test_match_quota now u w.tests in
    if leb quota.limit quota.used then err quota_exceeded else ok (some u)

-- `get_mode`
abbrev pub get_mode : ℕ → List Mode → Option Mode
get_mode i [] = none
get_mode i (m ∷ ms) = if m.id == i then some m else get_mode i ms

-- The arguments of the simulation and the budget.
unfoldable pub settings_of : TestMatchCreate → List Mode → Result HttpError (String × ℕ)
settings_of body modes = elim body.mode_id [
  | some i ↦ elim (get_mode i modes) [
    | none ↦ err mode_not_found
    | some mode ↦
        if mode.enabled
        then if suc (length body.opponent_project_ids) == mode.participant_count
          then ok (mode.sim_args, mode.avg_budget_ms)
          else err opponent_count
        else err mode_not_found
  ]
  | none ↦ elim body.sim_args [
    | none ↦ err assertion_failed
    | some sim_args ↦
        if ltb max_custom_opponents (length body.opponent_project_ids)
        then err opponent_count
        else ok (sim_args, default_avg_budget_ms)
  ]
]

unfoldable pub check_opponents : List ℕ → Projects → Result HttpError (List ℕ)
unfolding get_project_meta
check_opponents [] projects = ok []
check_opponents (i ∷ rest) projects = elim (get_project_meta i projects) [
  | none ↦ err opponent_not_found
  | some p ↦
      if p.submitted_version == 0
      then err opponent_not_found
      else (do found ← check_opponents rest projects; ok (i ∷ found))
]

-- The principal's counter after a request.
abbrev pub count_request : Principal → List GuestSession → List GuestSession
count_request (guest i) sessions = (increment_guest_test_count i sessions).1
count_request (user u) sessions = sessions

-- `enqueue`
unfoldable pub enqueue : ℕ → Principal → TestMatchCreate → Store → Result HttpError (ℕ × Store)
unfolding own_player within_quota settings_of check_opponents count_active_test_jobs_for_project
    enqueue_test_match_job increment_guest_test_count
enqueue now principal body w = do
  requested_by ← within_quota now principal w
  player ← own_player principal body.player_project_id w.projects
  settings ← settings_of body w.modes
  opponents ← check_opponents body.opponent_project_ids w.projects
  let queued =
      enqueue_test_match_job now body.player_project_id body.opponent_project_ids settings.0
        settings.1 body.mode_id requested_by w.tests
  if ltb 0 (count_active_test_jobs_for_project body.player_project_id w.tests)
      then (err already_queued)
      else (ok
          (queued.0, record w { tests = queued.1; sessions = count_request principal w.sessions }))

-- `get_test_job`, less its number among the project's matches.
abbrev pub find_job : ℕ → List TestMatchJob → Option TestMatchJob
find_job i [] = none
find_job i (j ∷ js) = if j.id == i then some j else find_job i js

unfoldable pub get_test_job : ℕ → TestTable → Option TestMatchJob
get_test_job i t = find_job i t.rows

-- `_owns_job`
unfoldable pub owns_job : TestMatchJob → Principal → Projects → Bool
unfolding get_project_meta
owns_job job (guest i) projects = elim (get_project_meta job.player_project_id projects) [
  | none ↦ false
  | some p ↦ owns (guest i) p
]
owns_job job (user u) projects = elim job.requested_by [ none ↦ false | some r ↦ r == u ]

-- `get_job`, and the guard of the endpoints for one job
unfoldable pub get_job : ℕ → Principal → Store → Result HttpError TestMatchJob
unfolding get_test_job owns_job
get_job i principal w = elim (get_test_job i w.tests) [
  | none ↦ err job_not_found
  | some job ↦ if owns_job job principal w.projects then ok job else err job_not_found
]

-- `get_bundle_url`, up to the bundler: the key of the bundle, which is not empty.
unfoldable pub get_bundle_key : ℕ → Principal → Store → Result HttpError String
unfolding get_job
get_bundle_key i principal w = do
  job ← get_job i principal w
  elim job.bundle_key [
    | none ↦ err no_bundle
    | some key ↦ if status_beq job.status success && not (key == "") then ok key else err no_bundle
  ]

-- `update_pin`
unfoldable pub update_pin : ℕ → Bool → ℕ → Store → Result HttpError Store
unfolding get_test_job count_pinned_test_jobs set_pinned
update_pin i pinned u w = elim (get_test_job i w.tests) [
  | none ↦ err job_not_found
  | some job ↦
      if elim job.requested_by [ none ↦ false | some r ↦ r == u ]
      then if pinned
          && (not job.pinned
              && leb max_pinned (count_pinned_test_jobs job.player_project_id w.tests))
        then err too_many_pinned
        else ok (record w { tests = set_pinned i pinned w.tests })
      else err job_not_found
]

-- `cancel_job`
unfoldable pub cancel_job : ℕ → ℕ → Principal → Store → Result HttpError Store
unfolding get_job cancel_queued_test_job
cancel_job now i principal w = do
  job ← get_job i principal w
  ok (record w { tests = (cancel_queued_test_job now i w.tests).1 })

-- ===== src/Api/TestMatches/Admitted.antt =====
-- services/api/api/routers/test_matches.py: what holds of a request that is granted.
use Prim.Native.String.{String}
use snake_arena.Prelude.{
  ℕ, ◌+◌, ◌≤◌, ◌<◌, ◌≡◌, ◌≢◌, refl, arith, Bool, true, false, ◌&&◌, ◌||◌, Option, some, List, [],
  ◌∷◌, ◌++◌, ◌==◌, nat_key, string_key, All, ltb, if◌then◌else◌, by_found, by_option, by_if, ap,
  ◌∙◌,
}
use snake_arena.Prelude.Result.{Result, IfOk, IfOk-then, IfOk-after}
use snake_arena.Db.Rows.{select_where, update_where, count_where}
use snake_arena.Db.Projects.{Projects}
use snake_arena.Db.Projects.Reads.{ProjectMeta, get_project_meta}
use snake_arena.Db.GuestSessions.{
  GuestSession, guest_test_limit, has_session_id, counted, get_guest_session,
  increment_guest_test_count,
}
use snake_arena.Db.Quotas.{test_match_hourly_limit, in_window, get_test_match_quota}
use snake_arena.Db.MatchJobs.{queued, running}
use snake_arena.Db.TestJobs.{
  TestMatchJob, TestTable, of_project, has_status, count_active_test_jobs_for_project,
  enqueue_test_match_job,
}
use snake_arena.Api.TestMatches.{
  Principal, user, guest, Store, TestMatchCreate, HttpError, owns, own_player, within_quota,
  settings_of, check_opponents, count_request, enqueue,
}

-- The user or the session of the principal is the owner of the project.
abbrev pub Owns : Principal → ℕ → Projects → Type 0
Owns (user u) i projects =
    (p : ProjectMeta) × (get_project_meta i projects ≡ some p) × (p.user_id ≡ some u)
Owns (guest g) i projects =
    (p : ProjectMeta) × (get_project_meta i projects ≡ some p) × (p.guest_session_id ≡ some g)

abbrev pub IsSubmitted : Projects → ℕ → Type 0
IsSubmitted projects i =
    (p : ProjectMeta) × (get_project_meta i projects ≡ some p) × (p.submitted_version ≢ 0)

-- The quota is not exceeded.
abbrev pub IsWithin : ℕ → Principal → Store → Type 0
IsWithin now (user u) w = (get_test_match_quota now u w.tests).used ≤ test_match_hourly_limit
IsWithin now (guest g) w =
    (s : GuestSession) × (get_guest_session g w.sessions ≡ some s)
    × (s.test_count ≤ guest_test_limit)

-- What a granted request leaves.
pub record IsAdmitted (now : ℕ) (principal : Principal) (body : TestMatchCreate) (w : Store)
    (result : ℕ × Store) : Type 0 where
  pub owner : Owns principal body.player_project_id w.projects
  pub opponents : All (IsSubmitted w.projects) body.opponent_project_ids
  pub one_active : count_active_test_jobs_for_project body.player_project_id result.1.tests ≡ 1
  pub within : IsWithin now principal result.1

count_where-snoc {ℓ} :
    {R : Type ℓ} (p : R → Bool) (rs : List R) (r : R)
    → count_where p (rs ++ r ∷ []) ≡ count_where p rs + (if p r then 1 else 0)
unfolding count_where
count_where-snoc p [] r = ground arith
count_where-snoc p (q ∷ rs) r = ground (arith, count_where-snoc p rs r)

owns_guest : (g : String) (p : ProjectMeta) → owns (guest g) p ≡ true → p.guest_session_id ≡ some g
owns_guest g p e =
    by_found (λ (b : Bool). b ≡ true → p.guest_session_id ≡ some g) p.guest_session_id false
      (λ session. session == g) (λ absent q. absurd (ground arith))
      (λ session here q. here ∙ ap some ((string_key.same_iff session g).0 q)) e

own_player-Owns :
    (principal : Principal) (i : ℕ) (projects : Projects)
    → IfOk (λ p. Owns principal i projects) (own_player principal i projects)
unfolding own_player
own_player-Owns (user u) i projects = ground arith
own_player-Owns (guest g) i projects =
    let Q : Result HttpError ProjectMeta → Type 0 = IfOk (λ p. Owns (guest g) i projects) in
    by_option Q (get_project_meta i projects) _ _ tt λ p found.
      by_if Q (owns (guest g) p) _ _ (λ own. (p, found, owns_guest g p own)) (λ other. tt)

check_opponents-IsSubmitted :
    (is : List ℕ) (projects : Projects)
    → IfOk (λ found. All (IsSubmitted projects) is) (check_opponents is projects)
unfolding check_opponents
check_opponents-IsSubmitted [] projects = tt
check_opponents-IsSubmitted (i ∷ rest) projects =
    ground (arith, check_opponents-IsSubmitted rest projects)

-- What the quota leaves room for.
abbrev Room : ℕ → Principal → Store → Option ℕ → Type 0
Room now (user u) w r =
    (r ≡ some u) × ((get_test_match_quota now u w.tests).used < test_match_hourly_limit)
Room now (guest g) w r =
    (s : GuestSession) × (get_guest_session g w.sessions ≡ some s)
    × (s.test_count < guest_test_limit)

within_quota-Room :
    (now : ℕ) (principal : Principal) (w : Store)
    → IfOk (Room now principal w) (within_quota now principal w)
unfolding within_quota get_test_match_quota
within_quota-Room now (user u) w = ground arith
within_quota-Room now (guest g) w = ground arith

counted_found :
    (g : String) (ss : List GuestSession) (s : GuestSession)
    → get_guest_session g ss ≡ some s
    → get_guest_session g (update_where (has_session_id g) counted ss) ≡ some (counted s)
unfolding get_guest_session select_where update_where
counted_found g [] s found = cc
counted_found g (x ∷ ss) s found = ground (arith, counted_found g ss s)

incremented_found :
    (g : String) (ss : List GuestSession) (s : GuestSession)
    → get_guest_session g ss ≡ some s
    → get_guest_session g (increment_guest_test_count g ss).1 ≡ some (counted s)
unfolding increment_guest_test_count
incremented_found g ss s found = rw (increment_guest_test_count, found) (counted_found g ss s found)

count_request-IsWithin :
    (now : ℕ) (principal : Principal) (w : Store) (r : Option ℕ) (next : ℕ) (row : TestMatchJob)
    → Room now principal w r
    → row.requested_by ≡ r
    → IsWithin now principal (record w {
      tests = record { next_id = next; rows = w.tests.rows ++ row ∷ [] };
      sessions = count_request principal w.sessions;
    })
unfolding get_test_match_quota
count_request-IsWithin now (user u) w r next row room same =
    ground (arith, count_where-snoc (in_window now u) w.tests.rows row)
count_request-IsWithin now (guest g) w r next row room same =
    let found = incremented_found g w.sessions room.0 room.1 in
    (counted room.0, found, omega (arith, room.2))

no_active :
    (i : ℕ) (w : TestTable) (next : ℕ) (row : TestMatchJob)
    → ltb 0 (count_active_test_jobs_for_project i w) ≡ false
    → row.player_project_id ≡ i
    → row.status ≡ queued
    → count_active_test_jobs_for_project i (record { next_id = next; rows = w.rows ++ row ∷ [] })
      ≡ 1
unfolding count_active_test_jobs_for_project
no_active i w next row none_active same waits = ground (
  arith,
  count_where-snoc
      (λ (j : TestMatchJob). of_project i j && (has_status queued j || has_status running j)) w.rows
      row,
)

-- A request that is granted is for a project of the principal, whose only test match that waits or is
-- played it becomes, against projects that each have a submitted version; after it the user's matches
-- of the last hour, or the count of the guest's session, are within the limit.
pub enqueue-IsAdmitted :
    (now : ℕ) (principal : Principal) (body : TestMatchCreate) (w : Store)
    → IfOk (IsAdmitted now principal body w) (enqueue now principal body w)
unfolding enqueue enqueue_test_match_job
enqueue-IsAdmitted now principal body w =
    let Q : ℕ × Store → Type 0 = IsAdmitted now principal body w in
    let player = body.player_project_id in
    IfOk-then (Room now principal w) Q (within_quota now principal w) _
      (within_quota-Room now principal w)
      λ r _ room.
        IfOk-then (λ (p : ProjectMeta). Owns principal player w.projects) Q
          (own_player principal player w.projects) _ (own_player-Owns principal player w.projects)
          λ p _ own. IfOk-after Q (settings_of body w.modes) _ λ settings.
            IfOk-then (λ (found : List ℕ). All (IsSubmitted w.projects) body.opponent_project_ids) Q
              (check_opponents body.opponent_project_ids w.projects) _
              (check_opponents-IsSubmitted body.opponent_project_ids w.projects)
              λ found _ submitted.
                by_if (IfOk Q) (ltb 0 (count_active_test_jobs_for_project player w.tests)) _ _
                  (λ active. tt)
                  (λ free. record {
                    owner = own;
                    opponents = submitted;
                    one_active = no_active player w.tests (w.tests.next_id + 1) _ free refl refl;
                    within = count_request-IsWithin now principal w r _ _ room refl;
                  })

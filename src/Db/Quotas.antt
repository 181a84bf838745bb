-- ===== src/Db/Quotas.antt =====
-- services/sa_common/sa_common/db/quotas.py: the sliding hour of a user's test matches, read from the
-- table of test_match_jobs.py. Timestamps are in microseconds.
use snake_arena.Prelude.{
  ℕ, ◌+◌, ◌-◌, ◌*◌, ◌≤◌, ◌<◌, ◌≡◌, Bool, false, ◌&&◌, Option, none, some, List, [], ◌∷◌, arith, ltb,
  leb, ◌==◌, nat_key, inl, inr, Bool-cases, Option-cases, ap, ◌∙◌, by_if, by_found, if◌then◌else◌,
}
use snake_arena.Db.Rows.{count_where, older, oldest, oldest-some, oldest-none}
use snake_arena.Db.TestJobs.{TestMatchJob, TestTable}

-- `QuotaWindow`
pub record QuotaWindow : Type 0 where
  pub limit : ℕ
  pub used : ℕ
  pub remaining : ℕ
  pub next_slot_at : Option ℕ
  pub window_seconds : ℕ

abbrev pub test_match_hourly_limit : ℕ
test_match_hourly_limit = 120

abbrev pub hour : ℕ
hour = 3600 * 1_000_000

abbrev of_user : ℕ → Option ℕ → Bool
of_user user none = false
of_user user (some u) = u == user

-- `requested_by = … AND requested_at > now() - interval '1 hour'`
abbrev pub in_window : ℕ → ℕ → TestMatchJob → Bool
in_window now user j = of_user user j.requested_by && ltb now (j.requested_at + hour)

-- `get_test_match_quota`
unfoldable pub get_test_match_quota : ℕ → ℕ → TestTable → QuotaWindow
unfolding count_where oldest
get_test_match_quota now user t =
    let used = count_where (in_window now user) t.rows in
    record {
      limit = test_match_hourly_limit;
      used = used;
      remaining = test_match_hourly_limit - used;
      next_slot_at =
          if ltb 0 used
          then elim (oldest (in_window now user) (λ j. j.requested_at) t.rows) [
            | none ↦ none
            | some j ↦ some (j.requested_at + hour)
          ]
          else none;
      window_seconds = 3600;
    }

later-fewer :
    (now later user : ℕ) (rs : List TestMatchJob)
    → now ≤ later
    → count_where (in_window later user) rs ≤ count_where (in_window now user) rs
unfolding count_where
later-fewer now later user [] le = omega arith
later-fewer now later user (r ∷ rs) le = ground (arith, later-fewer now later user rs le)

oldest-fewer :
    (now user : ℕ) (rs : List TestMatchJob) (j : TestMatchJob)
    → oldest (in_window now user) (λ r. r.requested_at) rs ≡ some j
    → now ≤ j.requested_at + hour
    → count_where (in_window (j.requested_at + hour) user) rs < count_where (in_window now user) rs
unfolding oldest count_where
oldest-fewer now user [] j h le = cc
oldest-fewer now user (r ∷ rs) j h le =
    let fewer = later-fewer now (j.requested_at + hour) user rs le in
    elim (Option-cases (oldest (in_window now user) (λ k. k.requested_at) rs)) [
      | inl e ↦
          let h' : older (in_window now user) (λ k. k.requested_at) r none ≡ some j = rw e at h in
          let same : r ≡ j = ground arith in
          let due = ap (λ k. k.requested_at) same in ground (arith, fewer, h', due)
      | inr (k, e) ↦
          let h' : older (in_window now user) (λ k. k.requested_at) r (some k) ≡ some j =
            rw e at h in
          elim (Bool-cases (in_window now user r && leb r.requested_at k.requested_at)) [
            | inl first ↦
                let same : r ≡ j = ground arith in
                let due = ap (λ k. k.requested_at) same in ground (arith, fewer, first, due)
            | inr second ↦
                let same : k ≡ j = ground arith in
                let rest = oldest-fewer now user rs j (e ∙ ap some same) le in ground (arith, rest)
          ]
    ]

-- What a quota says of the next slot: a time to come at which fewer matches are in the window, if
-- none is requested meanwhile; or nothing, where none is in the window.
abbrev pub Promises : ℕ → ℕ → TestTable → Option ℕ → Type 0
Promises now user t none = (get_test_match_quota now user t).used ≡ 0
Promises now user t (some slot) =
    (now < slot)
    × ((get_test_match_quota slot user t).used < (get_test_match_quota now user t).used)

-- The slot that a quota promises is a time to come, and by then fewer of the user's matches are in
-- the window, if none is requested meanwhile; it promises none exactly where none is in the window.
pub get_test_match_quota-Promises :
    (now user : ℕ) (t : TestTable)
    → Promises now user t (get_test_match_quota now user t).next_slot_at
unfolding get_test_match_quota
get_test_match_quota-Promises now user t =
    let p = in_window now user in
    let Q : Option ℕ → Type 0 = Promises now user t in
    by_if Q (ltb 0 (count_where p t.rows)) _ none
      (λ some_used.
        by_found Q (oldest p (λ j. j.requested_at) t.rows) none _
          (oldest-none p (λ j. j.requested_at) t.rows)
          λ j e.
            let found = oldest-some p (λ j. j.requested_at) t.rows j e in
            let due : now < j.requested_at + hour = ground (arith, found.0) in
            (due, oldest-fewer now user t.rows j e (omega (arith, due))))
      (λ unused. ground arith)

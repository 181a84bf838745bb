-- ===== src/Db/MatchJobs/Claims.antt =====
-- services/sa_common/sa_common/db/match_jobs.py: what a claim gives, and what it leaves.
use snake_arena.Prelude.{
  ℕ, ◌≡◌, ◌≢◌, ◌⊎◌, inl, inr, refl, Bool, true, false, ◌&&◌, not, subst, Option-cases, Bool-cases,
  leb, Option, none, some, List, [], ◌∷◌, arith, nat_key, if◌then◌else◌, by_if, by_option, by_found,
  All,
}
use snake_arena.Db.Rows.{
  update_where, count_where, older, oldest, oldest-some, oldest-none, oldest-All, NoneOlder,
}
use snake_arena.Db.MatchJobs.{
  queued, MatchJob, JobTable, has_id, has_status, is_claimable, claimed, claim_one_queued_job,
  cancel_job, is_cancellable,
}

-- The rows that a claim of the job `i` leaves: the job's own runs, the others are as they were.
abbrev pub Claims : ℕ → ℕ → List MatchJob → List MatchJob → Type 0
Claims now i [] [] = Unit
Claims now i (j ∷ js) (k ∷ ks) =
    (k ≡ (if has_id i j then claimed now j else j)) × Claims now i js ks
Claims now i _ _ = ⊥

update-Claims :
    (now i : ℕ) (js : List MatchJob) → Claims now i js (update_where (has_id i) (claimed now) js)
unfolding update_where
update-Claims now i [] = tt
update-Claims now i (j ∷ js) = (refl, update-Claims now i js)

-- A queued job that no other transaction holds.
abbrev pub is_free : (ℕ → Bool) → MatchJob → Bool
is_free locked j = has_status queued j && not (locked j.id)

-- Some row of the table was queued and free, and it is the job but for its start.
abbrev pub WasQueued : ℕ → (ℕ → Bool) → MatchJob → List MatchJob → Type 0
WasQueued now locked j [] = ⊥
WasQueued now locked j (k ∷ ks) =
    ((k.status ≡ queued) × (locked k.id ≡ false) × (j ≡ claimed now k)) ⊎ WasQueued now locked j ks

-- What a claim answers: a queued job that no other transaction holds, as old as any such job, now
-- running while every other row is as it was; or nothing, when there is no such job.
abbrev pub Answers : ℕ → (ℕ → Bool) → JobTable → Option MatchJob × JobTable → Type 0
Answers now locked t (none, u) = (u ≡ t) × (count_where (is_free locked) t.rows ≡ 0)
Answers now locked t (some j, u) =
    WasQueued now locked j t.rows
    × NoneOlder (is_free locked) (λ k. k.requested_at) j.requested_at t.rows
    × Claims now j.id t.rows u.rows
    × (u.next_id ≡ t.next_id)

oldest-WasQueued :
    (now : ℕ) (locked : ℕ → Bool) (at : MatchJob → ℕ) (rs : List MatchJob) (j : MatchJob)
    → oldest (is_claimable locked) at rs ≡ some j
    → WasQueued now locked (claimed now j) rs
unfolding oldest
oldest-WasQueued now locked at [] j h = cc
oldest-WasQueued now locked at (r ∷ rs) j h =
    let p = is_claimable locked in
    let P = λ (k : MatchJob). WasQueued now locked (claimed now k) (r ∷ rs) in
    elim (Option-cases (oldest p at rs)) [
      | inl e ↦
          let h' : older p at r none ≡ some j = rw e at h in
          let same : r ≡ j = ground arith in subst P same (inl (claimable r (ground arith)))
      | inr (s, e) ↦
          let h' : older p at r (some s) ≡ some j = rw e at h in
          elim (Bool-cases (p r && leb (at r) (at s))) [
            | inl first ↦
                let same : r ≡ j = ground arith in subst P same (inl (claimable r (ground arith)))
            | inr second ↦
                let same : s ≡ j = ground arith in
                subst P same (inr (oldest-WasQueued now locked at rs s e))
          ]
    ]
  where
    claimable :
        (k : MatchJob)
        → is_claimable locked k ≡ true
        → (k.status ≡ queued) × (locked k.id ≡ false) × (claimed now k ≡ claimed now k)
    claimable k h = ground arith

-- A claim takes the oldest job that was queued and that no other transaction holds, starts it and
-- changes no other row; it answers `None` exactly when there is no such job.
pub claim_one_queued_job-Answers :
    (now : ℕ) (locked : ℕ → Bool) (t : JobTable)
    → Answers now locked t (claim_one_queued_job now locked t)
unfolding claim_one_queued_job
claim_one_queued_job-Answers now locked t =
    let p = is_claimable locked in
    by_found (Answers now locked t) (oldest p (λ j. j.requested_at) t.rows) _ _
      (λ e. (refl, oldest-none p (λ j. j.requested_at) t.rows e))
      λ j e. (
        oldest-WasQueued now locked (λ k. k.requested_at) t.rows j e,
        (oldest-some p (λ k. k.requested_at) t.rows j e).1,
        update-Claims now j.id t.rows,
        refl,
      )

-- Every row with the id is no longer queued.
abbrev IsTaken : ℕ → MatchJob → Type 0
IsTaken i j = has_id i j ≡ true → has_status queued j ≡ false

IsTaken-All :
    (now i : ℕ) (js : List MatchJob) → All (IsTaken i) (update_where (has_id i) (claimed now) js)
unfolding update_where
IsTaken-All now i [] = tt
IsTaken-All now i (j ∷ js) = (
  by_if (IsTaken i) (has_id i j) (claimed now j) j (λ e h. refl) (λ e h. cc),
  IsTaken-All now i js,
)

abbrev Takes : Option MatchJob × JobTable → Type 0
Takes (none, u) = Unit
Takes (some j, u) = All (IsTaken j.id) u.rows

claim-Takes :
    (now : ℕ) (locked : ℕ → Bool) (t : JobTable) → Takes (claim_one_queued_job now locked t)
unfolding claim_one_queued_job
claim-Takes now locked t =
    by_option Takes (oldest (is_claimable locked) (λ j. j.requested_at) t.rows) _ _ tt
      λ j e. IsTaken-All now j.id t.rows

abbrev Avoids : ℕ → Option MatchJob × JobTable → Type 0
Avoids i (none, u) = Unit
Avoids i (some j, u) = has_id i j ≡ false

claim-Avoids :
    (i now : ℕ) (locked : ℕ → Bool) (t : JobTable)
    → All (IsTaken i) t.rows
    → Avoids i (claim_one_queued_job now locked t)
unfolding claim_one_queued_job
claim-Avoids i now locked t all =
    let p = is_claimable locked in
    by_option (Avoids i) (oldest p (λ j. j.requested_at) t.rows) _ _ tt λ j e.
      other j (oldest-All (IsTaken i) p (λ k. k.requested_at) t.rows j all e)
        (oldest-some p (λ k. k.requested_at) t.rows j e).0
  where
    other :
        (j : MatchJob)
        → IsTaken i j
        → is_claimable locked j ≡ true
        → has_id i (claimed now j) ≡ false
    other j taken h = ground arith

-- Two claims, one after the other, never give the same job, whatever else is locked meanwhile.
pub claims_differ :
    (now later : ℕ) (locked locked' : ℕ → Bool) (t u v : JobTable) (j k : MatchJob)
    → claim_one_queued_job now locked t ≡ (some j, u)
    → claim_one_queued_job later locked' u ≡ (some k, v)
    → k.id ≢ j.id
claims_differ now later locked locked' t u v j k hj hk =
    let taken : All (IsTaken j.id) u.rows = rw hj at (claim-Takes now locked t) in
    let other : has_id j.id k ≡ false = rw hk at (claim-Avoids j.id later locked' u taken) in
    λ e. absurd (ground arith)

none_cancellable :
    (i : ℕ) (js : List MatchJob) → All (IsTaken i) js → count_where (is_cancellable i) js ≡ 0
unfolding count_where
none_cancellable i [] h = refl
none_cancellable i (j ∷ js) h = ground (arith, h.0, none_cancellable i js h.1)

-- A job that has been claimed can no longer be cancelled.
pub claimed_not_cancelled :
    (now later : ℕ) (locked : ℕ → Bool) (t u : JobTable) (j : MatchJob)
    → claim_one_queued_job now locked t ≡ (some j, u)
    → (cancel_job later j.id u).0 ≡ false
unfolding cancel_job
claimed_not_cancelled now later locked t u j h =
    let taken : All (IsTaken j.id) u.rows = rw h at (claim-Takes now locked t) in
    rw (none_cancellable j.id u.rows taken)

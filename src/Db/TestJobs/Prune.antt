-- ===== src/Db/TestJobs/Prune.antt =====
-- services/sa_common/sa_common/db/test_match_jobs.py: what `prune_unpinned_test_jobs` leaves.
use snake_arena.Prelude.{
  ℕ, ◌-◌, ◌≤◌, ◌≡◌, refl, sym, ap, ◌∙◌, Bool, true, false, ◌&&◌, ◌||◌, not, List, [], ◌∷◌, arith,
  ◌==◌, nat_key, All, inl, inr, Bool-cases, zero, suc, drop,
}
use mathlib.Core.Bool.{false≢true}
use snake_arena.Db.Rows.{
  select_where, count_where, insert_by, order_by, count_where-order_by, count_where-select,
  count_where-take_drop,
}
use snake_arena.Db.TestJobs.{
  TestMatchJob, TestTable, is_pinned, is_prunable, is_newer, doomed, any_id, bundle_limit,
  prune_unpinned_test_jobs,
}

-- No row of a list survives its own deletion.
none_survives :
    (js ks : List TestMatchJob)
    → ((j : TestMatchJob) → any_id j.id ks ≡ true → any_id j.id js ≡ true)
    → count_where (λ j. not (any_id j.id js)) ks ≡ 0
unfolding count_where
none_survives js [] h = refl
none_survives js (k ∷ ks) h =
    let gone : any_id k.id js ≡ true = h k (unfold any_id in ground arith) in
    let rest = none_survives js ks (λ j e. h j (unfold any_id in ground arith)) in ground arith

count_where-swap :
    (p q : TestMatchJob → Bool) (rs : List TestMatchJob)
    → count_where (λ r. p r && q r) rs ≡ count_where (λ r. q r && p r) rs
unfolding count_where
count_where-swap p q [] = refl
count_where-swap p q (r ∷ rs) = ground (arith, count_where-swap p q rs)

-- After a prune, the project's terminal unpinned jobs fit the room that its pinned jobs leave of
-- the limit of ten bundles.
pub prune-fits :
    (project : ℕ) (t : TestTable)
    → count_where (is_prunable project) (prune_unpinned_test_jobs project t).1.rows
      ≤ bundle_limit - count_where (is_pinned project) t.rows
unfolding prune_unpinned_test_jobs doomed
prune-fits project t =
    let p = is_prunable project in
    let gone = doomed project t.rows in
    let q = λ (j : TestMatchJob). not (any_id j.id gone) in
    let sorted = order_by is_newer (select_where p t.rows) in
    let same : count_where p (select_where q t.rows) ≡ count_where q sorted =
      count_where-select p q t.rows
      ∙ count_where-swap q p t.rows
      ∙ sym (count_where-select q p t.rows)
      ∙ sym (count_where-order_by q is_newer (select_where p t.rows)) in
    rw same (count_where-take_drop q _ sorted (none_survives gone gone (λ j e. e)))

any_id-insert_by :
    (i : ℕ) (before : TestMatchJob → TestMatchJob → Bool) (r : TestMatchJob)
    (rs : List TestMatchJob)
    → any_id i (insert_by before r rs) ≡ any_id i (r ∷ rs)
unfolding any_id insert_by
any_id-insert_by i before r [] = refl
any_id-insert_by i before r (s ∷ ss) = ground (arith, any_id-insert_by i before r ss)

any_id-order_by :
    (i : ℕ) (before : TestMatchJob → TestMatchJob → Bool) (rs : List TestMatchJob)
    → any_id i (order_by before rs) ≡ any_id i rs
unfolding order_by any_id
any_id-order_by i before [] = refl
any_id-order_by i before (r ∷ rs) =
    any_id-insert_by i before r (order_by before rs)
    ∙ ap (λ b. r.id == i || b) (any_id-order_by i before rs)

any_id-drop : (i n : ℕ) (rs : List TestMatchJob) → any_id i (drop n rs) ≡ true → any_id i rs ≡ true
unfolding any_id
any_id-drop i zero rs h = h
any_id-drop i (suc n) [] h = cc
any_id-drop i (suc n) (r ∷ rs) h = ground (arith, any_id-drop i n rs)

-- `id` is the primary key.
abbrev pub IsUnique : List TestMatchJob → Type 0
IsUnique [] = Unit
IsUnique (r ∷ rs) = (any_id r.id rs ≡ false) × IsUnique rs

any_id-select :
    (i : ℕ) (p : TestMatchJob → Bool) (rs : List TestMatchJob)
    → any_id i rs ≡ false
    → any_id i (select_where p rs) ≡ false
unfolding any_id select_where
any_id-select i p [] h = refl
any_id-select i p (r ∷ rs) h = ground (arith, any_id-select i p rs)

-- A row that is not selected shares its id with no selected row.
abbrev Spares : (TestMatchJob → Bool) → List TestMatchJob → TestMatchJob → Type 0
Spares p rs r = p r ≡ false → any_id r.id (select_where p rs) ≡ false

Spares-cons :
    (p : TestMatchJob → Bool) (r : TestMatchJob) (rs ks : List TestMatchJob)
    → any_id r.id ks ≡ false
    → All (Spares p rs) ks
    → All (Spares p (r ∷ rs)) ks
unfolding any_id select_where
Spares-cons p r rs [] h all = tt
Spares-cons p r rs (k ∷ ks) h all =
    ((λ e. ground (arith, all.0 e)), Spares-cons p r rs ks (ground arith) all.1)

unique-Spares :
    (p : TestMatchJob → Bool) (rs : List TestMatchJob) → IsUnique rs → All (Spares p rs) rs
unfolding select_where
unique-Spares p [] u = tt
unique-Spares p (r ∷ rs) u =
    ((λ e. rw e (any_id-select r.id p rs u.0)), Spares-cons p r rs rs u.0 (unique-Spares p rs u.1))

select-select :
    (p d : TestMatchJob → Bool) (rs : List TestMatchJob)
    → All (λ r. p r ≡ false → d r ≡ false) rs
    → select_where (λ r. not (p r)) (select_where (λ r. not (d r)) rs)
      ≡ select_where (λ r. not (p r)) rs
unfolding select_where
select-select p d [] all = refl
select-select p d (r ∷ rs) all = ground (arith, all.0, select-select p d rs all.1)

doomed-Spares :
    (project : ℕ) (rows ks : List TestMatchJob)
    → All (Spares (is_prunable project) rows) ks
    → All (λ r. is_prunable project r ≡ false → any_id r.id (doomed project rows) ≡ false) ks
unfolding doomed
doomed-Spares project rows [] all = tt
doomed-Spares project rows (k ∷ ks) all =
    let p = is_prunable project in
    let n = bundle_limit - count_where (is_pinned project) rows in
    let sorted = order_by is_newer (select_where p rows) in
    (
      (λ e. elim (Bool-cases (any_id k.id (drop n sorted))) [
        | inl gone ↦ absurd (
            false≢true (
              sym (all.0 e)
              ∙ sym (any_id-order_by k.id is_newer (select_where p rows))
              ∙ any_id-drop k.id n sorted gone))
        | inr kept ↦ kept
      ]),
      doomed-Spares project rows ks all.1,
    )

-- With unique ids a prune touches no other row: the active and the pinned jobs, and those of other
-- projects, are all still there, in their order.
pub prune-spares :
    (project : ℕ) (t : TestTable)
    → IsUnique t.rows
    → select_where (λ j. not (is_prunable project j)) (prune_unpinned_test_jobs project t).1.rows
      ≡ select_where (λ j. not (is_prunable project j)) t.rows
unfolding prune_unpinned_test_jobs
prune-spares project t u =
    select-select (is_prunable project) (λ r. any_id r.id (doomed project t.rows)) t.rows
      (doomed-Spares project t.rows t.rows (unique-Spares (is_prunable project) t.rows u))

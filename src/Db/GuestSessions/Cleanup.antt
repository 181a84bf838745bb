-- ===== src/Db/GuestSessions/Cleanup.antt =====
-- services/sa_common/sa_common/db/guest_sessions.py: what the clean-up and a claim leave.
use Prim.Native.String.{String}
use snake_arena.Prelude.{
  ℕ, ◌≤◌, true, ◌≡◌, refl, sym, subst, ◌∙◌, Bool-cases, inl, inr, Bool, false, ◌||◌, not, none,
  some, List, [], ◌∷◌, ◌==◌, nat_key, string_key, arith, All, All-weaken,
}
use snake_arena.Prelude.Result.{All-trivial}
use snake_arena.Db.Rows.{update_where, select_where, count_where, All-update_where}
use snake_arena.Db.Projects.{Project, Projects}
use snake_arena.Db.TestJobs.{TestMatchJob, keys_of}
use snake_arena.Db.GuestSessions.{
  GuestSession, Tables, has_session_id, is_owned_by, given_to, tags_of, is_orphan, any_orphan,
  delete_sessions, claim_guest_session, is_expired, mem_key, distinct_keys,
  collect_and_delete_expired_sessions,
}

mem_key-distinct : (k : String) (ks : List String) → mem_key k ks ≡ mem_key k (distinct_keys ks)
mem_key-distinct k [] = refl
mem_key-distinct k (l ∷ ks) = ground (arith, mem_key-distinct k ks, string_key.same_iff l k)

abbrev pub mem_tag : ℕ → List ℕ → Bool
mem_tag g [] = false
mem_tag g (t ∷ ts) = t == g || mem_tag g ts

abbrev pub has_tag : ℕ → Project → Bool
has_tag g p = elim p.dev_image_tag [ none ↦ false | some t ↦ t == g ]

abbrev pub has_key : String → TestMatchJob → Bool
has_key k j = elim j.bundle_key [ none ↦ false | some l ↦ l == k ]

-- One condition implies another.
abbrev Implies {ℓ} : {A : Type ℓ} → (A → Bool) → (A → Bool) → Type ℓ
Implies {A = A} p q = (a : A) → p a ≡ true → q a ≡ true

-- Rows that are left out all show in the list of what the rows carry that meet a wider condition.
count_kept_tags :
    (gone found : Project → Bool) (g : ℕ) (ps : Projects)
    → Implies gone found
    → mem_tag g (tags_of (select_where found ps)) ≡ false
    → count_where (has_tag g) (select_where (λ p. not (gone p)) ps) ≡ count_where (has_tag g) ps
unfolding select_where count_where
count_kept_tags gone found g [] wide h = refl
count_kept_tags gone found g (p ∷ ps) wide h =
    ground (arith, wide p, count_kept_tags gone found g ps wide)

count_kept_keys :
    (gone found : TestMatchJob → Bool) (k : String) (js : List TestMatchJob)
    → Implies gone found
    → mem_key k (keys_of (select_where found js)) ≡ false
    → count_where (has_key k) (select_where (λ j. not (gone j)) js) ≡ count_where (has_key k) js
unfolding select_where count_where
count_kept_keys gone found k [] wide h = refl
count_kept_keys gone found k (j ∷ js) wide h =
    ground (arith, wide j, count_kept_keys gone found k js wide)

-- No session expires from the one time up to the other.
abbrev pub NoneExpires : ℕ → ℕ → List GuestSession → Type 0
NoneExpires from to ss = All (λ s. is_expired to s ≡ true → is_expired from s ≡ true) ss

orphan_wide :
    (from to : ℕ) (ss : List GuestSession)
    → NoneExpires from to ss
    → Implies (is_orphan (is_expired to) ss) (is_orphan (is_expired from) ss)
orphan_wide from to [] none_new p h = h
orphan_wide from to (s ∷ ss) none_new p h =
    ground (arith, none_new.0, orphan_wide from to ss none_new.1 p)

any_orphan-wide :
    (gone found : Project → Bool) (ps : Projects)
    → Implies gone found
    → (i : ℕ) → any_orphan gone i ps ≡ true
    → any_orphan found i ps ≡ true
any_orphan-wide gone found [] wide i h = h
any_orphan-wide gone found (p ∷ ps) wide i h =
    ground (arith, wide p, any_orphan-wide gone found ps wide i)

NoneExpires-later :
    (from later to : ℕ) (ss : List GuestSession)
    → from ≤ later
    → NoneExpires from to ss
    → NoneExpires later to ss
NoneExpires-later from later to [] le none_new = tt
NoneExpires-later from later to (s ∷ ss) le none_new =
    ((λ h. ground (arith, none_new.0)), NoneExpires-later from later to ss le none_new.1)

none_expired :
    (now : ℕ) (ss : List GuestSession)
    → count_where (is_expired now) (select_where (λ s. not (is_expired now s)) ss) ≡ 0
unfolding select_where count_where
none_expired now [] = refl
none_expired now (s ∷ ss) = ground (arith, none_expired now ss)

-- The three statements of the clean-up run one after the other. After them no session is expired at the
-- time of the deletion. If no session expires between the first statement and the deletion, an image tag
-- that is not reported is on as many projects as before, and a bundle key that is not reported is on as
-- many test matches: nothing that is deleted goes unreported.
pub collect_and_delete-reports :
    (tags_at keys_at deleted_at : ℕ) (t : Tables)
    → tags_at ≤ keys_at
    → NoneExpires tags_at deleted_at t.sessions
    → let found = collect_and_delete_expired_sessions tags_at keys_at deleted_at t in
      (count_where (is_expired deleted_at) found.1.sessions ≡ 0)
      × ((g : ℕ)
          → mem_tag g found.0.0 ≡ false
          → count_where (has_tag g) found.1.projects ≡ count_where (has_tag g) t.projects)
      × ((k : String)
          → mem_key k found.0.1 ≡ false
          → count_where (has_key k) found.1.tests.rows ≡ count_where (has_key k) t.tests.rows)
unfolding collect_and_delete_expired_sessions delete_sessions
collect_and_delete-reports tags_at keys_at deleted_at t le none_new =
    let wide = orphan_wide tags_at deleted_at t.sessions none_new in
    let wide_keys =
      orphan_wide keys_at deleted_at t.sessions
        (NoneExpires-later tags_at keys_at deleted_at t.sessions le none_new) in
    (
      none_expired deleted_at t.sessions,
      (λ g h. count_kept_tags _ _ g t.projects wide h),
      (λ k h.
          count_kept_keys _ _ k t.tests.rows
            (λ j. any_orphan-wide _ _ t.projects wide_keys j.player_project_id)
            (mem_key-distinct k _ ∙ h)),
    )

not_orphan :
    (i : String) (p : Project) (ss : List GuestSession)
    → is_owned_by i p ≡ false
    → is_orphan (has_session_id i) ss p ≡ false
not_orphan i p [] h = refl
not_orphan i p (s ∷ ss) h = elim (Bool-cases (s.session_id == i)) [
  | inl e ↦
      let same : s.session_id ≡ i = (string_key.same_iff s.session_id i).0 e in
      let free : is_owned_by s.session_id p ≡ false =
        subst (λ z. is_owned_by z p ≡ false) (sym same) h in
      ground (arith, e, free, not_orphan i p ss h)
  | inr e ↦ ground (arith, e, not_orphan i p ss h)
]

module _ {ℓ} {R : Type ℓ} (gone : R → Bool) where
  select-none_gone :
      (rs : List R) → All (λ r. gone r ≡ false) rs → select_where (λ r. not (gone r)) rs ≡ rs
  unfolding select_where
  select-none_gone [] all = refl
  select-none_gone (r ∷ rs) all = rw (all.0, select-none_gone rs all.1)

no_orphans :
    (gone : Project → Bool) (i : ℕ) (ps : Projects)
    → All (λ p. gone p ≡ false) ps
    → any_orphan gone i ps ≡ false
no_orphans gone i [] all = refl
no_orphans gone i (p ∷ ps) all = ground (arith, all.0, no_orphans gone i ps all.1)

-- Claiming a session deletes no project and no test match: every project of the session belongs to the
-- user afterwards, and all others are as they were.
pub claim_guest_session-keeps :
    (i : String) (user : ℕ) (t : Tables)
    → let found = claim_guest_session i user t in
      (found.1.projects ≡ update_where (is_owned_by i) (given_to user) t.projects)
      × (found.1.tests.rows ≡ t.tests.rows)
unfolding claim_guest_session delete_sessions
claim_guest_session-keeps i user t =
    let ps = update_where (is_owned_by i) (given_to user) t.projects in
    let free : All (λ p. is_orphan (has_session_id i) t.sessions p ≡ false) ps =
      All-update_where (λ p. Unit {0}) _ (is_owned_by i) (given_to user)
        (λ p u hit. not_orphan i (given_to user p) t.sessions refl)
        (λ p u miss. not_orphan i p t.sessions miss) t.projects (All-trivial t.projects) in
    (
      select-none_gone (is_orphan (has_session_id i) t.sessions) ps free,
      select-none_gone _ t.tests.rows (
          All-weaken (λ j. Unit {0}) _ t.tests.rows
            (λ j u.
              no_orphans (is_orphan (has_session_id i) t.sessions) j.player_project_id ps free)
            (All-trivial t.tests.rows)),
    )

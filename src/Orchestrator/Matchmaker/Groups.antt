-- ===== src/Orchestrator/Matchmaker/Groups.antt =====
-- services/orchestrator/orchestrator/matchmaker.py: what a group of `pick_match_group` is.
use snake_arena.Prelude.{
  ℕ, zero, suc, ◌+◌, ◌-◌, ◌≤◌, ◌≡◌, refl, ◌∙◌, ap, Bool, true, not, some, List, [], ◌∷◌, map, arith,
  ◌==◌, length, length-take, take, if◌then◌else◌, min, nat_key,
}
use snake_arena.Prelude.Result.{ok}
use snake_arena.Db.Rows.{
  select_where, count_where, insert_by, order_by, count_where-insert_by, count_where-order_by,
}
use snake_arena.Orchestrator.Matchmaker.{
  VersionRef, ref_key, VersionStats, Candidate, mem_ref, keyed, ranked, candidates, comes_before,
  pick_match_group,
}

abbrev is_fresh : Candidate → Bool
is_fresh c = not c.has_played

-- The candidates that the seed has not played come first.
abbrev FreshFirst : List Candidate → Type 0
FreshFirst [] = Unit
FreshFirst (c ∷ cs) = (c.has_played ≡ true → count_where is_fresh cs ≡ 0) × FreshFirst cs

insert_by-FreshFirst :
    (c : Candidate) (cs : List Candidate) → FreshFirst cs → FreshFirst (insert_by comes_before c cs)
unfolding insert_by count_where
insert_by-FreshFirst c [] h = ((λ e. refl), tt)
insert_by-FreshFirst c (d ∷ ds) h =
    ground
      (arith, h, insert_by-FreshFirst c ds h.1, count_where-insert_by is_fresh comes_before c ds)

order_by-FreshFirst : (cs : List Candidate) → FreshFirst (order_by comes_before cs)
unfolding order_by
order_by-FreshFirst [] = tt
order_by-FreshFirst (c ∷ cs) =
    insert_by-FreshFirst c (order_by comes_before cs) (order_by-FreshFirst cs)

count_where-take_none :
    (k : ℕ) (cs : List Candidate)
    → count_where is_fresh cs ≡ 0
    → count_where is_fresh (take k cs) ≡ 0
unfolding count_where
count_where-take_none zero cs h = refl
count_where-take_none (suc k) [] h = refl
count_where-take_none (suc k) (c ∷ cs) h = ground (arith, count_where-take_none k cs)

count_where-take_fresh :
    (k : ℕ) (cs : List Candidate)
    → FreshFirst cs
    → count_where is_fresh (take k cs) ≡ min k (count_where is_fresh cs)
unfolding count_where
count_where-take_fresh zero cs h = omega arith
count_where-take_fresh (suc k) [] h = omega arith
count_where-take_fresh (suc k) (c ∷ cs) h =
    ground (arith, h.0, count_where-take_fresh k cs h.1, count_where-take_none k cs)

count_where-take_le :
    (p : Candidate → Bool) (k : ℕ) (cs : List Candidate)
    → count_where p (take k cs) ≤ count_where p cs
unfolding count_where
count_where-take_le p zero cs = omega arith
count_where-take_le p (suc k) [] = omega arith
count_where-take_le p (suc k) (c ∷ cs) = ground (arith, count_where-take_le p k cs)

abbrev refs : List Candidate → List VersionRef
refs cs = map (λ c. c.ref) cs

take-refs : (k : ℕ) (cs : List Candidate) → take k (refs cs) ≡ refs (take k cs)
take-refs zero cs = refl
take-refs (suc k) [] = refl
take-refs (suc k) (c ∷ cs) = ap (λ r. c.ref ∷ r) (take-refs k cs)

length-refs : (cs : List Candidate) → length (refs cs) ≡ length cs
length-refs [] = refl
length-refs (c ∷ cs) = ap suc (length-refs cs)

count_where-refs :
    (p : VersionRef → Bool) (cs : List Candidate)
    → count_where p (refs cs) ≡ count_where (λ c. p c.ref) cs
unfolding count_where
count_where-refs p [] = refl
count_where-refs p (c ∷ cs) = ground (arith, count_where-refs p cs)

length-insert_by :
    (c : Candidate) (cs : List Candidate) → length (insert_by comes_before c cs) ≡ suc (length cs)
unfolding insert_by
length-insert_by c [] = refl
length-insert_by c (d ∷ ds) = ground (arith, length-insert_by c ds)

length-order_by : (cs : List Candidate) → length (order_by comes_before cs) ≡ length cs
unfolding order_by
length-order_by [] = refl
length-order_by (c ∷ cs) =
    length-insert_by c (order_by comes_before cs) ∙ ap suc (length-order_by cs)

module _ (played : List VersionRef) where
  abbrev pub is_unplayed : VersionRef → Bool
  is_unplayed v = not (mem_ref v played)

  -- A key that says of the version that it is unplayed when it is not, or the other way round.
  abbrev is_wrong : Candidate → Bool
  is_wrong c = if is_fresh c then not (is_unplayed c.ref) else is_unplayed c.ref

  count_where-right :
      (cs : List Candidate)
      → count_where is_wrong cs ≡ 0
      → count_where (λ c. is_unplayed c.ref) cs ≡ count_where is_fresh cs
  unfolding count_where
  count_where-right [] h = refl
  count_where-right (c ∷ cs) h = ground (arith, count_where-right cs)

  module _ (draw : ℕ → ℕ) (underplayed : List VersionStats) where
    keyed-right :
        (i : ℕ) (vs : List VersionRef)
        → count_where is_wrong (keyed draw played underplayed i vs) ≡ 0
    unfolding keyed count_where
    keyed-right i [] = refl
    keyed-right i (v ∷ vs) = ground (arith, keyed-right (suc i) vs)

    count_where-keyed :
        (p : VersionRef → Bool) (i : ℕ) (vs : List VersionRef)
        → count_where (λ c. p c.ref) (keyed draw played underplayed i vs) ≡ count_where p vs
    unfolding keyed count_where
    count_where-keyed p i [] = refl
    count_where-keyed p i (v ∷ vs) =
        ap (λ n. (if p v then 1 else 0) + n) (count_where-keyed p (suc i) vs)

    length-keyed :
        (i : ℕ) (vs : List VersionRef) → length (keyed draw played underplayed i vs) ≡ length vs
    unfolding keyed
    length-keyed i [] = refl
    length-keyed i (v ∷ vs) = ap suc (length-keyed (suc i) vs)

    count_where-ranked :
        (p : VersionRef → Bool) (vs : List VersionRef)
        → count_where (λ c. p c.ref) (ranked draw played underplayed vs) ≡ count_where p vs
    unfolding ranked
    count_where-ranked p vs =
        count_where-order_by _ comes_before (keyed draw played underplayed 0 vs)
        ∙ count_where-keyed p 0 vs

    ranked-right :
        (vs : List VersionRef) → count_where is_wrong (ranked draw played underplayed vs) ≡ 0
    unfolding ranked
    ranked-right vs =
        count_where-order_by _ comes_before (keyed draw played underplayed 0 vs) ∙ keyed-right 0 vs

    length-ranked : (vs : List VersionRef) → length (ranked draw played underplayed vs) ≡ length vs
    unfolding ranked
    length-ranked vs = length-order_by (keyed draw played underplayed 0 vs) ∙ length-keyed 0 vs

    ranked-FreshFirst : (vs : List VersionRef) → FreshFirst (ranked draw played underplayed vs)
    unfolding ranked
    ranked-FreshFirst vs = order_by-FreshFirst (keyed draw played underplayed 0 vs)

    -- The opponents that are seated, for `k` seats.
    abbrev seated : ℕ → List VersionRef → List VersionRef
    seated k vs = take k (map (λ c. c.ref) (ranked draw played underplayed vs))

    seated-refs :
        (k : ℕ) (vs : List VersionRef)
        → seated k vs ≡ refs (take k (ranked draw played underplayed vs))
    seated-refs k vs = take-refs k (ranked draw played underplayed vs)

    seated-unplayed :
        (k : ℕ) (vs : List VersionRef)
        → count_where is_unplayed (seated k vs) ≡ min k (count_where is_unplayed vs)
    seated-unplayed k vs =
        let cs = ranked draw played underplayed vs in
        let right = ranked-right vs in
        let less = count_where-take_le is_wrong k cs in
        let kept = count_where-right (take k cs) (omega (arith, right, less)) in
        let all = count_where-right cs right in
        let a = ap (count_where is_unplayed) (seated-refs k vs) in
        let b = count_where-refs is_unplayed (take k cs) in
        let c = count_where-take_fresh k cs (ranked-FreshFirst vs) in
        let d = count_where-ranked is_unplayed vs in omega (arith, a, b, c, d, kept, all)

    seated-length : (k : ℕ) (vs : List VersionRef) → length (seated k vs) ≡ min k (length vs)
    seated-length k vs =
        let a = length-take k (map (λ c. c.ref) (ranked draw played underplayed vs)) in
        let b = length-refs (ranked draw played underplayed vs) in
        omega (arith, a, b, length-ranked vs)

    seated-once :
        (p : VersionRef → Bool) (k : ℕ) (vs : List VersionRef)
        → count_where p (seated k vs) ≤ count_where p vs
    seated-once p k vs =
        let cs = ranked draw played underplayed vs in
        let a = ap (count_where p) (seated-refs k vs) in
        let b = count_where-refs p (take k cs) in
        let c = count_where-take_le (λ c. p c.ref) k cs in
        let d = count_where-ranked p vs in omega (arith, a, b, c, d)

-- A version's own seat.
abbrev pub is_ref : VersionRef → VersionRef → Bool
is_ref v w = w == v

length-candidates :
    (seed : VersionRef) (vs : List VersionRef)
    → length vs ≡ length (candidates seed vs) + count_where (is_ref seed) vs
unfolding candidates select_where count_where
length-candidates seed [] = refl
length-candidates seed (v ∷ vs) = ground (arith, length-candidates seed vs)

-- The candidates hold no seed, and the other versions as often as before.
count_where-candidates :
    (v seed : VersionRef) (vs : List VersionRef)
    → count_where (is_ref v) (candidates seed vs)
      ≡ (if seed == v then 0 else count_where (is_ref v) vs)
unfolding candidates select_where count_where
count_where-candidates v seed [] = ground arith
count_where-candidates v seed (w ∷ ws) = ground (arith, count_where-candidates v seed ws)

module _ (n : ℕ) (draw : ℕ → ℕ) (submitted : List VersionRef)
    (opponents : VersionRef → List VersionRef) (s : VersionStats) (ss : List VersionStats) where
  -- The group that the most underplayed version leads.
  abbrev others : List VersionRef
  others = seated (opponents s.ref) draw (s ∷ ss) (n - 1) (candidates s.ref submitted)

  picked :
      2 ≤ n
      → n ≤ length submitted
      → count_where (is_ref s.ref) submitted ≤ 1
      → (pick_match_group n draw submitted opponents (s ∷ ss) ≡ ok (some (s.ref ∷ others)))
        × (length others ≡ n - 1)
  unfolding pick_match_group
  picked multi enough once =
      let all = length-candidates s.ref submitted in
      let len =
        seated-length (opponents s.ref) draw (s ∷ ss) (n - 1) (candidates s.ref submitted) in
      let full : length others ≡ n - 1 = omega (arith, all, len) in (ground (arith, full), full)

  -- If there are enough submissions, a multi mode always gets a group of exactly as many versions
  -- as it has seats. The most underplayed version leads it, and as many of the others as possible
  -- are versions that it has not played yet.
  pub pick_match_group-seats :
      2 ≤ n
      → n ≤ length submitted
      → count_where (is_ref s.ref) submitted ≤ 1
      → (rest : List VersionRef) × (pick_match_group n draw submitted opponents (s ∷ ss)
          ≡ ok (some (s.ref ∷ rest)))
        × (length rest ≡ n - 1)
        × (count_where (is_unplayed (opponents s.ref)) rest
            ≡ min
                (n - 1)
                (count_where (is_unplayed (opponents s.ref)) (candidates s.ref submitted)))
  pick_match_group-seats multi enough once =
      let p = picked multi enough once in
      (
        others,
        p.0,
        p.1,
        seated-unplayed (opponents s.ref) draw (s ∷ ss) (n - 1) (candidates s.ref submitted),
      )

  -- No version has two seats in a group, if the submitted versions are distinct.
  pub pick_match_group-once :
      2 ≤ n
      → n ≤ length submitted
      → ((v : VersionRef) → count_where (is_ref v) submitted ≤ 1)
      → (g : List VersionRef) → pick_match_group n draw submitted opponents (s ∷ ss) ≡ ok (some g)
      → (v : VersionRef) → count_where (is_ref v) g ≤ 1
  unfolding count_where
  pick_match_group-once multi enough unique g h v =
      let p = picked multi enough (unique s.ref) in
      let same : g ≡ s.ref ∷ others = cc in
      let seats =
        seated-once (opponents s.ref) draw (s ∷ ss) (is_ref v) (n - 1)
          (candidates s.ref submitted) in
      let left = count_where-candidates v s.ref submitted in
      let bound = unique v in rw same (ground (arith, seats, left, bound))

-- ===== src/Runner/Results/Ranks.antt =====
-- services/runner/runner/match_results.py: the order of the survival ranks.
use Prim.Native.String.{String}
use snake_arena.Prelude.{
  ℕ, suc, ◌+◌, ◌≤◌, ◌<◌, ◌≡◌, refl, ◌∙◌, subst, inl, inr, Bool, true, false, ◌||◌, not, Bool-cases,
  Option, none, some, List, [], ◌∷◌, ltb, ◌==◌, nat_key, nat_beq_iff, string_key, arith, All,
  All-weaken, by_option,
}
use snake_arena.Prelude.Dict.{Dict, lookup, insert, lookup-insert}
use snake_arena.Prelude.Result.{Result, ok, err, IfOk, IfOk-then, IfOk-after}
use snake_arena.Scoring.Numbers.{Float}
use snake_arena.Types.{ParticipantRow}
use snake_arena.Db.Rows.{order_by}
use snake_arena.Db.Rows.Sorted.{IsSorted, order_by-IsSorted}
use snake_arena.Runner.Results.{
  Analysis, MatchResult, ResultError, key_error, no_final_length, no_start_length, no_exec_times,
  require, steps_of, death_order_key, ranked, rank_from, rank_of_snake, seat_of, seated_row,
  rows_of, build_participants, trapping_counts,
}

abbrev any_id : ℕ → List ℕ → Bool
any_id i [] = false
any_id i (j ∷ js) = j == i || any_id i js

-- Who is not listed keeps what the dict has, and who is gets a rank above the number.
rank_from-absent :
    (i a : ℕ) (xs : List ℕ) (d : Dict ℕ ℕ)
    → any_id a xs ≡ false
    → lookup a (rank_from i xs d) ≡ lookup a d
rank_from-absent i a [] d h = refl
rank_from-absent i a (x ∷ xs) d h =
    rank_from-absent (suc i) a xs (insert x (suc i) d) (ground (arith, h))
    ∙ ground (arith, lookup-insert x a (suc i) d)

rank_from_above :
    (i k b j m : ℕ) (xs : List ℕ) (d : Dict ℕ ℕ)
    → lookup b d ≡ some m
    → k ≤ m
    → k ≤ i
    → lookup b (rank_from i xs d) ≡ some j
    → k ≤ j
rank_from_above i k b j m [] d known low le h = ground (arith, known, h)
rank_from_above i k b j m (x ∷ xs) d known low le h = elim (Bool-cases (x == b)) [
  | inl e ↦
      rank_from_above (suc i) k b j (suc i) xs (insert x (suc i) d)
        (ground (arith, lookup-insert x b (suc i) d, e)) (omega (arith, le)) (omega (arith, le)) h
  | inr e ↦
      rank_from_above (suc i) k b j m xs (insert x (suc i) d)
        (ground (arith, lookup-insert x b (suc i) d, e)) low (omega (arith, le)) h
]

-- What may not stand behind `b` is not listed behind it.
all_differ :
    (before : ℕ → ℕ → Bool) (a b : ℕ) (xs : List ℕ)
    → before b a ≡ false
    → All (λ c. before b c ≡ true) xs
    → any_id a xs ≡ false
all_differ before a b [] later all = refl
all_differ before a b (x ∷ xs) later all = elim (Bool-cases (x == a)) [
  | inl e ↦
      let same : x ≡ a = ground (arith, e, nat_beq_iff x a) in
      let contra : before b a ≡ true = subst (λ z. before b z ≡ true) same all.0 in cc
  | inr e ↦ ground (arith, e, all_differ before a b xs later all.1)
]

-- Of two snakes, the one that comes first in every order has the better rank. So far the second is not
-- ranked, and the first at most at `i`.
rank_from-order :
    (before : ℕ → ℕ → Bool) (i a b m n : ℕ) (xs : List ℕ) (d : Dict ℕ ℕ)
    → before b a ≡ false
    → before b b ≡ true
    → IsSorted before xs
    → lookup b d ≡ none
    → ((r : ℕ) → lookup a d ≡ some r → r ≤ i)
    → lookup a (rank_from i xs d) ≡ some m
    → lookup b (rank_from i xs d) ≡ some n
    → m < n
rank_from-order before i a b m n [] d later self sorted fresh low ha hb = cc
rank_from-order before i a b m n (x ∷ xs) d later self sorted fresh low ha hb =
    let d' = insert x (suc i) d in
    let seen = lookup-insert x b (suc i) d in
    let own = lookup-insert x a (suc i) d in
    elim (Bool-cases (x == b)) [
      | inl e ↦
          let same : x ≡ b = ground (arith, e, nat_beq_iff x b) in
          let behind : All (λ c. before b c ≡ true) xs =
            subst (λ z. All (λ c. before z c ≡ true) xs) same sorted.0 in
          let differ : (x == a) ≡ false = elim (Bool-cases (x == a)) [
            | inl eq ↦
                let other : b ≡ a = ground (arith, e, eq, nat_beq_iff x b, nat_beq_iff x a) in
                let contra : before b a ≡ true = subst (λ z. before b z ≡ true) other self in cc
            | inr ne ↦ ne
          ] in
          let absent = all_differ before a b xs later behind in
          let m_low =
            low m (ground (arith, rank_from-absent (suc i) a xs d' absent, ha, own, differ)) in
          let n_high =
            rank_from_above (suc i) (suc i) b n (suc i) xs d' (ground (arith, seen, e))
              (omega arith) (omega arith) hb in
          omega (arith, m_low, n_high)
      | inr e ↦
          rank_from-order before (suc i) a b m n xs d' later self sorted.1
            (ground (arith, seen, e, fresh)) (λ r h. ground (arith, own, h, low r)) ha hb
    ]

rank_of_snake-order :
    (a : Analysis) (s t m n : ℕ)
    → death_order_key a t < death_order_key a s
    → lookup s (rank_of_snake a) ≡ some m
    → lookup t (rank_of_snake a) ≡ some n
    → m < n
unfolding rank_of_snake ranked
rank_of_snake-order a s t m n lives hs ht =
    let before : ℕ → ℕ → Bool = λ i j. not (ltb (death_order_key a i) (death_order_key a j)) in
    rank_from-order before 0 s t m n (order_by before a.snake_ids) [] (ground (arith, lives))
      (ground arith)
      (order_by-IsSorted before (λ i j h. ground (arith, h)) (λ i j k h h'. ground (arith, h, h'))
        a.snake_ids)
      refl (λ r h. cc) hs ht

-- How long a row's snake has lived.
abbrev lifetime : {W : Type 0} → Analysis → ParticipantRow W → ℕ
lifetime a row = elim row.fatal_step [ none ↦ a.final_step_idx + 1 | some step ↦ step ]

abbrev rank_below : Option ℕ → Option ℕ → Bool
rank_below (some i) (some j) = ltb i j
rank_below _ _ = false

-- A row of a snake of the analysis.
abbrev IsOf : {W : Type 0} → Analysis → ParticipantRow W → Type 0
IsOf a row =
    (sid : ℕ) × (row.fatal_step ≡ lookup sid a.fatal_steps)
    × ((n : ℕ) × (row.survival_rank ≡ some n) × (lookup sid (rank_of_snake a) ≡ some n))

-- A row that is made with the rank that was found.
last :
    {W : Type 0} (a : Analysis) (sid : ℕ) (rank : Option ℕ) (row : ℕ → ParticipantRow W)
    → lookup sid (rank_of_snake a) ≡ rank
    → ((n : ℕ) → (row n).fatal_step ≡ lookup sid a.fatal_steps)
    → ((n : ℕ) → (row n).survival_rank ≡ some n)
    → IfOk (IsOf a) (elim (require key_error rank) [ err e ↦ err e | ok n ↦ ok (row n) ])
last a sid none row found step given = tt
last a sid (some n) row found step given = (sid, step n, (n, given n, found))

module _ {W : Type 0} (f : Float W) where
  seated_row-IsOf :
      (result : MatchResult W) (projects versions : Dict String ℕ) (a : Analysis)
      (exec_times : Dict ℕ (List W)) (sid : ℕ) (name : String) (seat : ℕ)
      → IfOk (IsOf a) (seated_row f result projects versions a exec_times sid name seat)
  unfolding seated_row
  seated_row-IsOf result projects versions a exec_times sid name seat =
      IfOk-after (IsOf a) (require no_final_length (lookup sid a.final_lengths)) _ λ final_length.
        IfOk-after (IsOf a) (require no_start_length (lookup sid a.start_lengths)) _ λ start_length.
          IfOk-after (IsOf a) (steps_of f (lookup seat exec_times)) _ λ steps.
            IfOk-after (IsOf a)
              (require key_error
                (lookup sid (trapping_counts a.traps_mapping a.tail_visible_phases a.snake_ids)))
              _
              λ trapped. IfOk-after (IsOf a) (require key_error (lookup name projects)) _ λ project.
                IfOk-after (IsOf a) (require key_error (lookup name versions)) _ λ version.
                  last a sid (lookup sid (rank_of_snake a)) _ refl (λ n. refl) (λ n. refl)

  rows_of-All :
      (result : MatchResult W) (projects versions seats : Dict String ℕ) (a : Analysis)
      (exec_times : Dict ℕ (List W)) (sids : List ℕ)
      → IfOk (All (IsOf a)) (rows_of f result projects versions seats a exec_times sids)
  unfolding rows_of
  rows_of-All result projects versions seats a exec_times [] = tt
  rows_of-All result projects versions seats a exec_times (sid ∷ sids) =
      let rest = rows_of f result projects versions seats a exec_times sids in
      let ih = rows_of-All result projects versions seats a exec_times sids in
      by_option (IfOk (All (IsOf a))) (seat_of f result seats a sid) _ _ ih λ place e.
        IfOk-then (IsOf a) (All (IsOf a))
          (seated_row f result projects versions a exec_times sid place.0 place.1) _
          (seated_row-IsOf result projects versions a exec_times sid place.0 place.1)
          λ row e1 h. IfOk-then (All (IsOf a)) (All (IsOf a)) rest _ ih λ rows e2 all. (h, all)

  -- Who lives longer has the better rank.
  abbrev pub IsFair : Analysis → List (ParticipantRow W) → Type 0
  IsFair a rows =
      All
        (λ p.
          All (λ q. lifetime a q < lifetime a p → rank_below p.survival_rank q.survival_rank ≡ true)
            rows)
        rows

  two_rows-order :
      (a : Analysis) (p q : ParticipantRow W)
      → IsOf a p
      → IsOf a q
      → lifetime a q < lifetime a p
      → rank_below p.survival_rank q.survival_rank ≡ true
  two_rows-order a p q (s, ps, (m, pm, sm)) (t, qt, (n, qn, tn)) longer =
      let m_below_n = rank_of_snake-order a s t m n (ground (arith, longer, ps, qt)) sm tn in
      ground (arith, pm, qn, m_below_n)

  -- In the rows that `build_participants` returns, of two snakes the one that lives longer has the
  -- smaller survival rank; a snake without a fatal step lives one step longer than the match.
  pub build_participants-IsFair :
      (result : MatchResult W) (projects versions seats : Dict String ℕ) (a : Analysis)
      → result.run_analysis ≡ some a
      → IfOk (IsFair a) (build_participants f result projects versions seats)
  unfolding build_participants
  build_participants-IsFair result projects versions seats a analysed = rw analysed (
      IfOk-after (IsFair a) (require no_exec_times result.exec_times) _ λ exec_times.
        all_pairs (rows_of f result projects versions seats a exec_times a.snake_ids)
          (rows_of-All result projects versions seats a exec_times a.snake_ids))
    where
      all_pairs :
          (rows : Result ResultError (List (ParticipantRow W)))
          → IfOk (All (IsOf a)) rows
          → IfOk (IsFair a) rows
      all_pairs (ok rows) all =
          All-weaken _ _ rows
            (λ p own. All-weaken _ _ rows (λ q other. two_rows-order a p q own other) all) all
      all_pairs (err e) all = tt

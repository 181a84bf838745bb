-- ===== src/Db/AgentScores/Eligible.antt =====
-- services/sa_common/sa_common/db/agent_scores.py: the projects with enough matches.
use snake_arena.Prelude.{
  ℕ, ◌≡◌, refl, false, List, [], ◌∷◌, leb, ◌==◌, nat_key, nat_beq_iff, All, length, by_if, arith,
}
use snake_arena.Prelude.Dict.{Dict, insert, contains, contains-insert}
use snake_arena.Scoring.{category_key}
use snake_arena.Db.AgentScores.{Participation}
use snake_arena.Db.AgentScores.Aggregate.{is_among, eligible_projects, by_project}

-- A dict's keys are distinct.
abbrev pub HasOneKey {ℓ} : {A : Type ℓ} → Dict ℕ A → Type 0
HasOneKey [] = Unit
HasOneKey ((k, a) ∷ d) = (contains k d ≡ false) × HasOneKey d

insert-HasOneKey {ℓ} :
    {A : Type ℓ} (k : ℕ) (a : A) (d : Dict ℕ A) → HasOneKey d → HasOneKey (insert k a d)
insert-HasOneKey k a [] h = (refl, tt)
insert-HasOneKey k a ((j, b) ∷ d) h =
    by_if HasOneKey (j == k) _ _ (λ e. h)
      λ e. (
        ground (arith, contains-insert k j a d, nat_beq_iff j k, nat_beq_iff k j),
        insert-HasOneKey k a d h.1,
      )

pub by_project-HasOneKey :
    {W : Type 0} (ps : List (Participation W)) (d : Dict ℕ (List (Participation W)))
    → HasOneKey d
    → HasOneKey (by_project ps d)
by_project-HasOneKey [] d h = h
by_project-HasOneKey (p ∷ ps) d h = by_project-HasOneKey ps _ (insert-HasOneKey p.project_id _ d h)

module _ {ℓ} {A : Type ℓ} (least : ℕ) where
  -- Who is not in the dict is not eligible.
  is_among-absent :
      (k : ℕ) (d : Dict ℕ (List A))
      → contains k d ≡ false
      → is_among k (eligible_projects least d) ≡ false
  is_among-absent k [] h = refl
  is_among-absent k ((j, xs) ∷ d) h =
      ground (arith, is_among-absent k d, nat_beq_iff j k, nat_beq_iff k j)

  abbrev pub Agrees : Dict ℕ (List A) → ℕ × List A → Type 0
  Agrees d one = is_among one.0 (eligible_projects least d) ≡ leb least (length one.1)

  -- Another key ahead of the dict changes nothing for the others.
  weaken_behind :
      (j : ℕ) (xs : List A) (d rest : Dict ℕ (List A))
      → contains j rest ≡ false
      → All (Agrees d) rest
      → All (Agrees ((j, xs) ∷ d)) rest
  weaken_behind j xs d [] h all = tt
  weaken_behind j xs d ((k, ys) ∷ rest) h all = (
    ground (arith, all.0, h, nat_beq_iff k j, nat_beq_iff j k),
    weaken_behind j xs d rest (ground (arith, h)) all.1,
  )

  -- A project is eligible exactly when it has enough matches.
  pub is_among-eligible_projects : (d : Dict ℕ (List A)) → HasOneKey d → All (Agrees d) d
  is_among-eligible_projects [] h = tt
  is_among-eligible_projects ((k, xs) ∷ d) h = (
    ground (arith, is_among-absent k d h.0, nat_beq_iff k k),
    weaken_behind k xs d d h.0 (is_among-eligible_projects d h.1),
  )

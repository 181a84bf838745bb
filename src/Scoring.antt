-- ===== src/Scoring.antt =====
-- services/sa_common/sa_common/scoring.py: the scoring primitives. A float is a number of a type `W`
-- with the operations that the code uses; no value here is NaN, since none comes out of JSON.
pub mod Numbers
pub mod Range
pub mod Tests
use snake_arena.Prelude.{
  ℕ, ◌≡◌, ◌↔◌, Bool, true, false, ◌&&◌, not, Option, none, some, List, [], ◌∷◌, map, arith, ◌==◌,
  Key, nat_key, refl, length, if◌then◌else◌,
}
use snake_arena.Prelude.Dict.{Dict, lookup, insert}
use snake_arena.Prelude.Result.{Result, ok, err, traverse}
use snake_arena.Scoring.Numbers.{Float}

pub data Direction : Type 0 where
  higher lower : Direction

pub data ScoringKind : Type 0 where
  multi solo : ScoringKind

-- The names of the canonical categories.
pub data CategoryName : Type 0 where
  survival_rank trapping_count final_length : CategoryName

abbrev pub category_beq : CategoryName → CategoryName → Bool
category_beq survival_rank survival_rank = true
category_beq trapping_count trapping_count = true
category_beq final_length final_length = true
category_beq _ _ = false

pub category_beq_iff : (a b : CategoryName) → (category_beq a b ≡ true) ↔ (a ≡ b)
category_beq_iff a b = ground arith

instance abbrev pub category_key : Key CategoryName
category_key = record { same = category_beq; same_iff = category_beq_iff }

-- `Category`
pub record Category : Type 0 where
  pub name : CategoryName
  pub direction : Direction

-- `CANONICAL_MULTI_CATEGORIES` and `CANONICAL_SOLO_CATEGORIES`
abbrev pub canonical_multi_categories : List Category
canonical_multi_categories =
    record { name = survival_rank; direction = lower }
    ∷ record { name = trapping_count; direction = higher }
    ∷ record { name = final_length; direction = higher }
    ∷ []

abbrev pub canonical_solo_categories : List Category
canonical_solo_categories = record { name = final_length; direction = higher } ∷ []

-- `categories_for`
abbrev pub categories_for : ScoringKind → List Category
categories_for multi = canonical_multi_categories
categories_for solo = canonical_solo_categories

-- The exceptions of the scoring code.
pub data ScoreError : Type 0 where
  no_entries leader_not_positive missing_key missing_category too_few_participants no_mode
        not_a_number :
      ScoreError
  division_by_zero : ScoreError

-- `d[k]`
abbrev pub item {ℓ κ} : {K : Type ℓ} {V : Type κ} ⦃key : Key K⦄ → K → Dict K V → Result ScoreError V
item k d = elim (lookup k d) [ none ↦ err missing_key | some v ↦ ok v ]

-- `d.values()`
abbrev pub values {ℓ κ} : {K : Type ℓ} {V : Type κ} → Dict K V → List V
values [] = []
values ((k, v) ∷ d) = v ∷ values d

module _ {W : Type 0} (f : Float W) where
  open f use {zero, one, of_nat, add, sub, mul, div, sum, lt, le, cpu_penalty, multiplier, thousand}

  -- `per_step_budget_seconds`
  abbrev pub per_step_budget_seconds : W → W
  per_step_budget_seconds avg_budget_ms = div (mul avg_budget_ms multiplier) thousand

  -- Python's `max` and `min` of two numbers: the first, unless the second is beyond it.
  abbrev pub max_of : W → W → W
  max_of a b = if lt a b then b else a

  abbrev pub min_of : W → W → W
  min_of a b = if lt b a then b else a

  -- `max(values)` and `min(values)` of the numbers from the first on.
  abbrev pub maximum : W → List W → W
  maximum a [] = a
  maximum a (b ∷ bs) = maximum (max_of a b) bs

  abbrev pub minimum : W → List W → W
  minimum a [] = a
  minimum a (b ∷ bs) = minimum (min_of a b) bs

  -- `max(0.0, min(1.0, x))`
  abbrev pub clamp : W → W
  clamp x = max_of zero (min_of one x)

  -- One value's fraction of the leader.
  abbrev pub fraction_higher : W → W → W
  fraction_higher leader v = clamp (div v leader)

  abbrev pub fraction_lower : W → W → W
  fraction_lower leader v = if lt zero v then clamp (div leader v) else zero

  abbrev pub map_values {ℓ} : {K : Type ℓ} → (W → W) → Dict K W → Dict K W
  map_values g [] = []
  map_values g ((k, v) ∷ d) = (k, g v) ∷ map_values g d

  -- `fraction_of_leader`
  unfoldable pub fraction_of_leader {ℓ} :
      {K : Type ℓ} → Dict K W → Direction → Result ScoreError (Dict K W)
  fraction_of_leader [] direction = err no_entries
  fraction_of_leader ((k, v) ∷ d) higher =
      let leader = maximum v (values d) in
      if le leader zero
      then ok (map_values (λ x. zero) ((k, v) ∷ d))
      else ok (map_values (fraction_higher leader) ((k, v) ∷ d))
  fraction_of_leader ((k, v) ∷ d) lower =
      let leader = minimum v (values d) in
      if le leader zero
      then err leader_not_positive
      else ok (map_values (fraction_lower leader) ((k, v) ∷ d))

  -- `{k: v[cat.name] for k, v in peers.items()}`
  abbrev pub one_column {ℓ} :
      {K : Type ℓ} → CategoryName → K × Dict CategoryName W → Result ScoreError (K × W)
  one_column name (k, v) = elim (item name v) [ err e ↦ err e | ok x ↦ ok (k, x) ]

  -- One category of `multi_match_quality`.
  unfoldable pub multi_category {ℓ} :
      {K : Type ℓ} ⦃key : Key K⦄
      → Dict K (Dict CategoryName W)
      → K
      → Category
      → Result ScoreError (CategoryName × W)
  unfolding fraction_of_leader traverse
  multi_category peers me cat = elim (traverse (one_column cat.name) peers) [
    | err e ↦ err e
    | ok column ↦ elim (fraction_of_leader column cat.direction) [
      | err e ↦ err e
      | ok fractions ↦ elim (item me fractions) [ err e ↦ err e | ok x ↦ ok (cat.name, x) ]
    ]
  ]

  -- `multi_match_quality`
  unfoldable pub multi_match_quality {ℓ} :
      {K : Type ℓ} ⦃key : Key K⦄
      → Dict K (Dict CategoryName W)
      → K
      → List Category
      → Result ScoreError (Dict CategoryName W)
  unfolding multi_category traverse
  multi_match_quality peers me categories = traverse (multi_category peers me) categories

  abbrev pub solo_fraction : Direction → W → W → W
  solo_fraction higher basis raw = if le basis zero then zero else clamp (div raw basis)
  solo_fraction lower basis raw = if le raw zero then zero else clamp (div basis raw)

  -- One category of `solo_match_quality`.
  unfoldable pub solo_category :
      Dict CategoryName W → Dict CategoryName W → Category → Result ScoreError (CategoryName × W)
  solo_category own leader_basis cat = elim (item cat.name own) [
    | err e ↦ err e
    | ok raw ↦ elim (item cat.name leader_basis) [
      | err e ↦ err e
      | ok basis ↦ ok (cat.name, solo_fraction cat.direction basis raw)
    ]
  ]

  -- `solo_match_quality`
  unfoldable pub solo_match_quality :
      Dict CategoryName W
      → Dict CategoryName W
      → List Category
      → Result ScoreError (Dict CategoryName W)
  unfolding solo_category traverse
  solo_match_quality own leader_basis categories =
      traverse (solo_category own leader_basis) categories

  -- `cpu_factor`
  unfoldable pub cpu_factor : W → W → W
  cpu_factor avg_cpu_ms avg_budget_ms =
      if le avg_budget_ms zero
      then one
      else sub one (mul cpu_penalty (min_of (div (max_of avg_cpu_ms zero) avg_budget_ms) one))

  -- `_mean` of agent_scores.py
  abbrev pub mean : List W → Result ScoreError W
  mean [] = err division_by_zero
  mean (x ∷ xs) = ok (div (sum (x ∷ xs)) (of_nat (length (x ∷ xs))))

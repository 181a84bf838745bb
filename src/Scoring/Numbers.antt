-- ===== src/Scoring/Numbers.antt =====
-- The floats of services/sa_common/sa_common/scoring.py: the operations that the scoring code uses and
-- the laws of rounded arithmetic that it relies on.
use snake_arena.Prelude.{ℕ, ◌≡◌, ◌<◌, ◌⊎◌, Bool, true, false, not, List, length, All}

pub record Float (W : Type 0) : Type 0 where
  pub zero : W
  pub one : W
  pub of_nat : ℕ → W
  pub add : W → W → W
  pub sub : W → W → W
  pub mul : W → W → W
  pub div : W → W → W
  -- `sum`, which keeps more precision than a chain of additions
  pub sum : List W → W
  pub le : W → W → Bool
  pub lt : W → W → Bool
  -- `CPU_PENALTY`, `PER_STEP_BUDGET_MULTIPLIER` and 1000.0
  pub cpu_penalty : W
  pub multiplier : W
  pub thousand : W

module _ {W : Type 0} (f : Float W) where
  infix 4 ◌≼◌
  abbrev pub ◌≼◌ : W → W → Type 0
  x ≼ y = f.le x y ≡ true

  -- The number lies between 0 and 1.
  abbrev pub InUnit : W → Type 0
  InUnit x = (◌≼◌ f.zero x) × (◌≼◌ x f.one)

  -- The laws: a total order, and rounded operations that are monotone and exact at 0 and 1.
  pub record IsFloat : Type 0 where
    pub le_refl : (x : W) → ◌≼◌ x x
    pub le_trans : (x y z : W) → ◌≼◌ x y → ◌≼◌ y z → ◌≼◌ x z
    pub le_total : (x y : W) → (◌≼◌ x y) ⊎ (◌≼◌ y x)
    pub lt-eq-not-le : (x y : W) → f.lt x y ≡ not (f.le y x)
    pub one_above : ◌≼◌ f.zero f.one
    pub mul_mono : (a x y : W) → InUnit a → ◌≼◌ x y → ◌≼◌ (f.mul a x) (f.mul a y)
    pub mul-zero : (a : W) → InUnit a → f.mul a f.zero ≡ f.zero
    pub mul-one : (a : W) → f.mul a f.one ≡ a
    pub sub_mono : (x y : W) → ◌≼◌ x y → ◌≼◌ (f.sub f.one y) (f.sub f.one x)
    pub sub-zero : (a : W) → f.sub a f.zero ≡ a
    pub penalty_range : InUnit f.cpu_penalty × (◌≼◌ f.zero (f.sub f.one f.cpu_penalty))
    pub div_above : (a b : W) → ◌≼◌ f.zero a → f.le b f.zero ≡ false → ◌≼◌ f.zero (f.div a b)
    pub of_nat_above : (n : ℕ) → 0 < n → f.le (f.of_nat n) f.zero ≡ false
    pub sum_range :
        (xs : List W)
        → All InUnit xs
        → (◌≼◌ f.zero (f.sum xs)) × (◌≼◌ (f.sum xs) (f.of_nat (length xs)))
    pub div_count : (x : W) (n : ℕ) → 0 < n → ◌≼◌ x (f.of_nat n) → ◌≼◌ (f.div x (f.of_nat n)) f.one

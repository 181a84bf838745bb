-- ===== src/Scoring/Tests.antt =====
-- Runs of the model of services/sa_common/sa_common/scoring.py at concrete inputs, with hundredths in
-- place of floats.
use native.Mathlib.Nat.{div-le_of_le-mul, mul-le-mul_left}
use snake_arena.Prelude.{
  ℕ, ◌≡◌, ◌+◌, ◌-◌, ◌*◌, ◌/◌, refl, inl, inr, true, Bool-cases, List, [], ◌∷◌, arith, All, length,
  leb, ltb, leb→le,
}
use snake_arena.Scoring.Numbers.{Float, IsFloat, InUnit}
use snake_arena.Scoring.{cpu_factor}

abbrev total : List ℕ → ℕ
total [] = 0
total (x ∷ xs) = x + total xs

abbrev pub hundredths : Float ℕ
hundredths = record {
  zero = 0;
  one = 100;
  of_nat = λ n. n * 100;
  add = λ a b. a + b;
  sub = λ a b. a - b;
  mul = λ a b. a * b / 100;
  div = λ a b. a * 100 / b;
  sum = total;
  le = leb;
  lt = ltb;
  cpu_penalty = 40;
  multiplier = 200;
  thousand = 100_000;
}

total_range : (xs : List ℕ) → All (InUnit hundredths) xs → leb (total xs) (length xs * 100) ≡ true
total_range [] all = refl
total_range (x ∷ xs) all = ground (arith, total_range xs all.1, all.0.1)

pub hundredths-IsFloat : IsFloat hundredths
hundredths-IsFloat = record {
  le_refl = λ x. ground arith;
  le_trans = λ x y z h h'. ground arith;
  le_total = λ x y. elim (Bool-cases (leb x y)) [ inl e ↦ inl e | inr e ↦ inr (ground (arith, e)) ];
  lt-eq-not-le = λ x y. ground arith;
  one_above = refl;
  mul_mono = λ a x y h h'. ground (arith, mul-le-mul_left a (leb→le x y h'));
  mul-zero = λ a h. omega arith;
  mul-one = λ a. omega arith;
  sub_mono = λ x y h. ground arith;
  sub-zero = λ a. omega arith;
  penalty_range = ((refl, refl), refl);
  div_above = λ a b h p. ground arith;
  of_nat_above = λ n p. ground arith;
  sum_range = λ xs all. (ground arith, total_range xs all);
  div_count = λ x n pos h. ground (
    arith,
    div-le_of_le-mul (n * 100) {m = x * 100} {n = 100} (omega (arith, leb→le x (n * 100) h)),
  );
}

-- A snake that used half of its budget keeps four fifths of its score.
cpu_factor_half : cpu_factor hundredths 50 100 ≡ 80
unfolding cpu_factor
cpu_factor_half = refl

-- ===== src/Scoring/Range.antt =====
-- services/sa_common/sa_common/scoring.py: the range of every score.
use snake_arena.Prelude.{
  false, ◌≡◌, inl, inr, Bool-cases, some, List, [], ◌∷◌, arith, ◌==◌, Key, length, All, by_if,
  by_found, subst,
}
use snake_arena.Prelude.Dict.{Dict, lookup}
use snake_arena.Prelude.Result.{
  Result, ok, err, traverse, IfOk, IfOk-then, traverse-IfOk, All-trivial,
}
use snake_arena.Scoring.Numbers.{Float, IsFloat, ◌≼◌, InUnit}
use snake_arena.Scoring.{
  Direction, higher, lower, CategoryName, Category, category_key, item, values, max_of, min_of,
  clamp, maximum, minimum, map_values, one_column, fraction_higher, fraction_lower,
  fraction_of_leader, multi_category, multi_match_quality, solo_fraction, solo_category,
  solo_match_quality, cpu_factor, mean,
}

module _ {W : Type 0} (f : Float W) (laws : IsFloat f) where
  open laws use {le_refl, le_trans, le_total, lt-eq-not-le, one_above, mul_mono, mul-zero, mul-one}

  max_of-range : (a b lo : W) → ◌≼◌ f lo a → (◌≼◌ f lo (max_of f a b)) × (◌≼◌ f b (max_of f a b))
  max_of-range a b lo h = elim (le_total b a) [
    | inl e ↦ ground (arith, lt-eq-not-le a b)
    | inr e ↦ ground (arith, lt-eq-not-le a b, le_trans lo a b, le_refl b)
  ]

  min_of-range :
      (a b lo : W)
      → ◌≼◌ f lo a
      → ◌≼◌ f lo b
      → (◌≼◌ f lo (min_of f a b)) × (◌≼◌ f (min_of f a b) a) × (◌≼◌ f (min_of f a b) b)
  min_of-range a b lo ha hb = elim (le_total a b) [
    | inl e ↦ ground (arith, lt-eq-not-le b a, le_refl a)
    | inr e ↦ ground (arith, lt-eq-not-le b a, le_refl b, le_refl a)
  ]

  trivially {ℓ κ} : {E : Type ℓ} {A : Type κ} (r : Result E A) → IfOk (λ (a : A). Unit {0}) r
  trivially (ok a) = tt
  trivially (err e) = tt

  zero-InUnit : InUnit f f.zero
  zero-InUnit = (le_refl f.zero, one_above)

  clamp-InUnit : (x : W) → InUnit f (clamp f x)
  clamp-InUnit x = ground (
    arith,
    lt-eq-not-le x f.one,
    lt-eq-not-le f.zero x,
    lt-eq-not-le f.zero f.one,
    le_total f.zero x,
    le_total x f.one,
    le_refl f.zero,
    le_refl f.one,
    one_above,
  )

  -- The numbers of a dict.
  abbrev pub AllInUnit {ℓ} : {K : Type ℓ} → Dict K W → Type 0
  AllInUnit d = All (InUnit f) (values d)

  map_values-AllInUnit {ℓ} :
      {K : Type ℓ} (g : W → W) (d : Dict K W)
      → ((x : W) → InUnit f (g x))
      → AllInUnit (map_values f g d)
  map_values-AllInUnit g [] h = tt
  map_values-AllInUnit g ((k, v) ∷ d) h = (h v, map_values-AllInUnit g d h)

  fraction_lower-InUnit : (leader v : W) → InUnit f (fraction_lower f leader v)
  fraction_lower-InUnit leader v =
      by_if (InUnit f) (f.lt f.zero v) _ _ (λ e. clamp-InUnit (f.div leader v)) (λ e. zero-InUnit)

  fraction_of_leader-InUnit {ℓ} :
      {K : Type ℓ} (d : Dict K W) (direction : Direction)
      → IfOk (λ (r : Dict K W). AllInUnit r) (fraction_of_leader f d direction)
  unfolding fraction_of_leader
  fraction_of_leader-InUnit [] direction = tt
  fraction_of_leader-InUnit ((k, v) ∷ d) higher =
      let leader = maximum f v (values d) in
      by_if (IfOk AllInUnit) (f.le leader f.zero) _ _
        (λ e. map_values-AllInUnit (λ x. f.zero) ((k, v) ∷ d) (λ x. zero-InUnit))
        (λ e.
          map_values-AllInUnit (fraction_higher f leader) ((k, v) ∷ d)
            (λ x. clamp-InUnit (f.div x leader)))
  fraction_of_leader-InUnit ((k, v) ∷ d) lower =
      let leader = minimum f v (values d) in
      by_if (IfOk AllInUnit) (f.le leader f.zero) _ _ (λ e. tt)
        (λ e.
          map_values-AllInUnit (fraction_lower f leader) ((k, v) ∷ d)
            (fraction_lower-InUnit leader))

  lookup-InUnit {ℓ} :
      {K : Type ℓ} ⦃key : Key K⦄ (k : K) (d : Dict K W) (v : W)
      → AllInUnit d
      → lookup k d ≡ some v
      → InUnit f v
  lookup-InUnit k [] v all h = cc
  lookup-InUnit k ((j, x) ∷ d) v all h = elim (Bool-cases (j == k)) [
    | inl here ↦ let same : x ≡ v = ground (arith, here) in subst (InUnit f) same all.0
    | inr there ↦ lookup-InUnit k d v all.1 (ground (arith, there))
  ]

  item-InUnit {ℓ} :
      {K : Type ℓ} ⦃key : Key K⦄ (k : K) (d : Dict K W) → AllInUnit d → IfOk (InUnit f) (item k d)
  item-InUnit k d all =
      by_found (IfOk (InUnit f)) (lookup k d) _ _ (λ e. tt) λ v e. lookup-InUnit k d v all e

  multi_category-InUnit {ℓ} :
      {K : Type ℓ} ⦃key : Key K⦄ (peers : Dict K (Dict CategoryName W)) (me : K) (cat : Category)
      → IfOk (λ x. InUnit f x.1) (multi_category f peers me cat)
  unfolding multi_category
  multi_category-InUnit {K = K} peers me cat =
      let Q : CategoryName × W → Type 0 = λ x. InUnit f x.1 in
      IfOk-then (λ c. Unit {0}) Q (traverse (one_column f cat.name) peers) _
        (trivially (traverse (one_column f cat.name) peers))
        λ column e u.
          IfOk-then (λ (r : Dict K W). AllInUnit r) Q (fraction_of_leader f column cat.direction) _
            (fraction_of_leader-InUnit column cat.direction)
            λ fractions e' all.
              IfOk-then (InUnit f) Q (item me fractions) _ (item-InUnit me fractions all)
                λ x e'' h. h

  -- All fractions of a match lie between 0 and 1.
  abbrev pub HasRange : Dict CategoryName W → Type 0
  HasRange d = All (λ x. InUnit f x.1) d

  pub multi_match_quality-InUnit {ℓ} :
      {K : Type ℓ} ⦃key : Key K⦄ (peers : Dict K (Dict CategoryName W)) (me : K)
      (categories : List Category)
      → IfOk HasRange (multi_match_quality f peers me categories)
  unfolding multi_match_quality
  multi_match_quality-InUnit peers me categories =
      traverse-IfOk (λ c. Unit {0}) (λ x. InUnit f x.1) (multi_category f peers me)
        (λ cat u. multi_category-InUnit peers me cat) categories (All-trivial categories)

  solo_fraction-InUnit :
      (direction : Direction) (basis raw : W) → InUnit f (solo_fraction f direction basis raw)
  solo_fraction-InUnit higher basis raw =
      by_if (InUnit f) (f.le basis f.zero) _ _ (λ e. zero-InUnit)
        (λ e. clamp-InUnit (f.div raw basis))
  solo_fraction-InUnit lower basis raw =
      by_if (InUnit f) (f.le raw f.zero) _ _ (λ e. zero-InUnit)
        (λ e. clamp-InUnit (f.div basis raw))

  solo_category-InUnit :
      (own leader_basis : Dict CategoryName W) (cat : Category)
      → IfOk (λ x. InUnit f x.1) (solo_category f own leader_basis cat)
  unfolding solo_category
  solo_category-InUnit own leader_basis cat =
      let Q : CategoryName × W → Type 0 = λ x. InUnit f x.1 in
      IfOk-then (λ r. Unit {0}) Q (item cat.name own) _ (trivially (item cat.name own))
        λ raw e u.
          IfOk-then (λ r. Unit {0}) Q (item cat.name leader_basis) _
            (trivially (item cat.name leader_basis))
            λ basis e' u'. solo_fraction-InUnit cat.direction basis raw

  pub solo_match_quality-InUnit :
      (own leader_basis : Dict CategoryName W) (categories : List Category)
      → IfOk HasRange (solo_match_quality f own leader_basis categories)
  unfolding solo_match_quality
  solo_match_quality-InUnit own leader_basis categories =
      traverse-IfOk (λ c. Unit {0}) (λ x. InUnit f x.1) (solo_category f own leader_basis)
        (λ cat u. solo_category-InUnit own leader_basis cat) categories (All-trivial categories)

  HasRange-values : (d : Dict CategoryName W) → HasRange d → AllInUnit d
  HasRange-values [] h = tt
  HasRange-values ((k, x) ∷ d) h = (h.0, HasRange-values d h.1)

  pub mean-InUnit : (xs : List W) → All (InUnit f) xs → IfOk (InUnit f) (mean f xs)
  mean-InUnit [] all = tt
  mean-InUnit (x ∷ xs) all =
      let s = laws.sum_range (x ∷ xs) all in
      (
        laws.div_above _ _ s.0 (laws.of_nat_above (length (x ∷ xs)) (omega arith)),
        laws.div_count _ (length (x ∷ xs)) (omega arith) s.1,
      )

  pub mean_quality-InUnit :
      (d : Dict CategoryName W) → HasRange d → IfOk (InUnit f) (mean f (values d))
  mean_quality-InUnit d h = mean-InUnit (values d) (HasRange-values d h)

  ratio-InUnit :
      (c b : W) → f.le b f.zero ≡ false → InUnit f (min_of f (f.div (max_of f c f.zero) b) f.one)
  ratio-InUnit c b positive =
      let above = laws.div_above (max_of f c f.zero) b (max_above c) positive in
      let r = min_of-range (f.div (max_of f c f.zero) b) f.one f.zero above one_above in (r.0, r.2)
    where
      max_above : (a : W) → ◌≼◌ f f.zero (max_of f a f.zero)
      max_above a = ground (arith, lt-eq-not-le a f.zero, le_total a f.zero, le_refl f.zero)

  -- One less the penalty of a ratio between 0 and 1.
  penalty_range_at :
      (ratio : W)
      → InUnit f ratio
      → (◌≼◌ f (f.sub f.one f.cpu_penalty) (f.sub f.one (f.mul f.cpu_penalty ratio)))
        × (◌≼◌ f (f.sub f.one (f.mul f.cpu_penalty ratio)) f.one)
  penalty_range_at ratio r =
      let p = f.cpu_penalty in
      let low : ◌≼◌ f f.zero (f.mul p ratio) =
        subst (λ z. ◌≼◌ f z (f.mul p ratio)) (mul-zero p laws.penalty_range.0)
          (mul_mono p f.zero ratio laws.penalty_range.0 r.0) in
      let high : ◌≼◌ f (f.mul p ratio) p =
        subst (λ z. ◌≼◌ f (f.mul p ratio) z) (mul-one p)
          (mul_mono p ratio f.one laws.penalty_range.0 r.1) in
      (
        laws.sub_mono (f.mul p ratio) p high,
        subst (λ z. ◌≼◌ f (f.sub f.one (f.mul p ratio)) z) (laws.sub-zero f.one)
            (laws.sub_mono f.zero (f.mul p ratio) low),
      )

  -- The factor lies between `1 - CPU_PENALTY` and 1.
  pub cpu_factor_range :
      (avg_cpu_ms avg_budget_ms : W)
      → (◌≼◌ f (f.sub f.one f.cpu_penalty) (cpu_factor f avg_cpu_ms avg_budget_ms))
        × (◌≼◌ f (cpu_factor f avg_cpu_ms avg_budget_ms) f.one)
  unfolding cpu_factor
  cpu_factor_range c b =
      let Q : W → Type 0 = λ x. (◌≼◌ f (f.sub f.one f.cpu_penalty) x) × (◌≼◌ f x f.one) in
      by_if Q (f.le b f.zero) _ _
        (λ e. (
          subst (λ z. ◌≼◌ f (f.sub f.one f.cpu_penalty) z) (laws.sub-zero f.one)
              (laws.sub_mono f.zero f.cpu_penalty laws.penalty_range.0.0),
          le_refl f.one,
        ))
        (λ e. penalty_range_at _ (ratio-InUnit c b e))

  pub cpu_factor-InUnit : (c b : W) → InUnit f (cpu_factor f c b)
  cpu_factor-InUnit c b =
      let r = cpu_factor_range c b in
      (le_trans f.zero (f.sub f.one f.cpu_penalty) (cpu_factor f c b) laws.penalty_range.1 r.0, r.1)

  pub product-InUnit : (a b : W) → InUnit f a → InUnit f b → InUnit f (f.mul a b)
  product-InUnit a b ha hb = (
    subst (λ z. ◌≼◌ f z (f.mul a b)) (mul-zero a ha) (mul_mono a f.zero b ha hb.0),
    le_trans (f.mul a b) a f.one
        (subst (λ z. ◌≼◌ f (f.mul a b) z) (mul-one a) (mul_mono a b f.one ha hb.1)) ha.1,
  )

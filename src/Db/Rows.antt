-- ===== src/Db/Rows.antt =====
-- What the SQL statements of services/sa_common/sa_common/db use: UPDATE, DELETE, COUNT and ORDER BY.
pub mod Sorted
use snake_arena.Prelude.{
  ℕ, zero, suc, ◌+◌, ◌≤◌, ◌≡◌, refl, ap, Bool, true, false, ◌&&◌, Option, none, some, List, [], ◌∷◌,
  arith, leb, drop, if◌then◌else◌, ◌∙◌, subst, inl, inr, Bool-cases, Option-cases, All, by_if,
}

module _ {ℓ} {R : Type ℓ} where
  -- `UPDATE … SET … WHERE …`
  unfoldable pub update_where : (R → Bool) → (R → R) → List R → List R
  update_where p f [] = []
  update_where p f (r ∷ rs) = (if p r then f r else r) ∷ update_where p f rs

  -- `SELECT … WHERE …`
  unfoldable pub select_where : (R → Bool) → List R → List R
  select_where p [] = []
  select_where p (r ∷ rs) = let rest = select_where p rs in if p r then r ∷ rest else rest

  -- `SELECT COUNT(*) … WHERE …`
  unfoldable pub count_where : (R → Bool) → List R → ℕ
  count_where p [] = 0
  count_where p (r ∷ rs) = (if p r then 1 else 0) + count_where p rs

  -- `SELECT … WHERE … ORDER BY at ASC LIMIT 1`; of equal rows, the first in the table.
  abbrev pub older : (R → Bool) → (R → ℕ) → R → Option R → Option R
  older p at r none = if p r then some r else none
  older p at r (some s) = if p r && leb (at r) (at s) then some r else some s

  unfoldable pub oldest : (R → Bool) → (R → ℕ) → List R → Option R
  oldest p at [] = none
  oldest p at (r ∷ rs) = older p at r (oldest p at rs)

  -- `ORDER BY`: `before r s` says that `r` may stand before `s`.
  unfoldable pub insert_by : (R → R → Bool) → R → List R → List R
  insert_by before r [] = r ∷ []
  insert_by before r (s ∷ ss) = if before r s then r ∷ s ∷ ss else s ∷ insert_by before r ss

  unfoldable pub order_by : (R → R → Bool) → List R → List R
  unfolding insert_by
  order_by before [] = []
  order_by before (r ∷ rs) = insert_by before r (order_by before rs)

  pub oldest-none :
      (p : R → Bool) (at : R → ℕ) (rs : List R) → oldest p at rs ≡ none → count_where p rs ≡ 0
  unfolding oldest count_where
  oldest-none p at [] h = refl
  oldest-none p at (x ∷ xs) h = ground (arith, oldest-none p at xs)

  -- Every row that meets the condition is at least as young as `bound`.
  abbrev pub NoneOlder : (R → Bool) → (R → ℕ) → ℕ → List R → Type 0
  NoneOlder p at bound [] = Unit
  NoneOlder p at bound (r ∷ rs) = (p r ≡ true → bound ≤ at r) × NoneOlder p at bound rs

  NoneOlder-le :
      (p : R → Bool) (at : R → ℕ) (a b : ℕ) (rs : List R)
      → a ≤ b
      → NoneOlder p at b rs
      → NoneOlder p at a rs
  NoneOlder-le p at a b [] le h = tt
  NoneOlder-le p at a b (r ∷ rs) le h =
      ((λ e. omega (arith, h.0 e, le)), NoneOlder-le p at a b rs le h.1)

  oldest-NoneOlder :
      (p : R → Bool) (at : R → ℕ) (a : ℕ) (rs : List R)
      → oldest p at rs ≡ none
      → NoneOlder p at a rs
  unfolding oldest
  oldest-NoneOlder p at a [] h = tt
  oldest-NoneOlder p at a (r ∷ rs) h = elim (Option-cases (oldest p at rs)) [
    | inl e ↦
        let h' : older p at r none ≡ none = rw e at h in
        ((λ q. absurd (ground arith)), oldest-NoneOlder p at a rs e)
    | inr (s, e) ↦ let h' : older p at r (some s) ≡ none = rw e at h in absurd (ground arith)
  ]

  -- The row that is found meets the condition, and no row that meets it is older.
  pub oldest-some :
      (p : R → Bool) (at : R → ℕ) (rs : List R) (r : R)
      → oldest p at rs ≡ some r
      → (p r ≡ true) × NoneOlder p at (at r) rs
  unfolding oldest
  oldest-some p at [] r h = cc
  oldest-some p at (x ∷ xs) r h = elim (Option-cases (oldest p at xs)) [
    | inl e ↦
        let h' : older p at x none ≡ some r = rw e at h in
        let same : x ≡ r = ground arith in
        (ground arith, ((λ q. rw same (omega arith)), oldest-NoneOlder p at (at r) xs e))
    | inr (s, e) ↦
        let h' : older p at x (some s) ≡ some r = rw e at h in
        let ih = oldest-some p at xs s e in by_older x s r h' ih.0 ih.1
  ]
    where
      by_older :
          (x s r : R)
          → older p at x (some s) ≡ some r
          → p s ≡ true
          → NoneOlder p at (at s) xs
          → (p r ≡ true) × NoneOlder p at (at r) (x ∷ xs)
      by_older x s r h ps rest = elim (Bool-cases (p x && leb (at x) (at s))) [
        | inl first ↦
            let same : x ≡ r = ground arith in
            (
              ground arith,
              (
                (λ q. rw same (omega arith)),
                NoneOlder-le p at (at r) (at s) xs
                    (subst (λ (z : R). at z ≤ at s) same (ground arith)) rest,
              ),
            )
        | inr second ↦
            let same : s ≡ r = ground arith in
            (
              subst (λ (z : R). p z ≡ true) same ps,
              (
                (λ q. subst (λ (z : R). at z ≤ at x) same (ground arith)),
                subst (λ (z : R). NoneOlder p at (at z) xs) same rest,
              ),
            )
      ]

  -- What holds of every row holds of the row that is found.
  pub oldest-All {κ} :
      (P : R → Type κ) (p : R → Bool) (at : R → ℕ) (rs : List R) (r : R)
      → All P rs
      → oldest p at rs ≡ some r
      → P r
  unfolding oldest
  oldest-All P p at [] r all h = cc
  oldest-All P p at (x ∷ xs) r all h = elim (Option-cases (oldest p at xs)) [
    | inl e ↦
        let h' : older p at x none ≡ some r = rw e at h in
        let same : x ≡ r = ground arith in subst P same all.0
    | inr (s, e) ↦
        let h' : older p at x (some s) ≡ some r = rw e at h in
        elim (Bool-cases (p x && leb (at x) (at s))) [
          | inl first ↦ let same : x ≡ r = ground arith in subst P same all.0
          | inr second ↦
              let same : s ≡ r = ground arith in subst P same (oldest-All P p at xs s all.1 e)
        ]
  ]

  -- Sorting changes no count, and a row that no condition meets adds nothing.
  pub count_where-insert_by :
      (p : R → Bool) (before : R → R → Bool) (r : R) (rs : List R)
      → count_where p (insert_by before r rs) ≡ count_where p (r ∷ rs)
  unfolding insert_by count_where
  count_where-insert_by p before r [] = refl
  count_where-insert_by p before r (s ∷ ss) = ground (arith, count_where-insert_by p before r ss)

  pub count_where-order_by :
      (p : R → Bool) (before : R → R → Bool) (rs : List R)
      → count_where p (order_by before rs) ≡ count_where p rs
  unfolding order_by count_where
  count_where-order_by p before [] = refl
  count_where-order_by p before (r ∷ rs) =
      count_where-insert_by p before r (order_by before rs)
      ∙ (unfold count_where in
          ap (λ n. (if p r then 1 else 0) + n) (count_where-order_by p before rs))

  pub count_where-select :
      (p q : R → Bool) (rs : List R)
      → count_where p (select_where q rs) ≡ count_where (λ r. q r && p r) rs
  unfolding select_where count_where
  count_where-select p q [] = refl
  count_where-select p q (r ∷ rs) = ground (arith, count_where-select p q rs)

  -- Rows that all fail a condition but for the first `n` are at most `n`.
  pub count_where-take_drop :
      (p : R → Bool) (n : ℕ) (rs : List R) → count_where p (drop n rs) ≡ 0 → count_where p rs ≤ n
  unfolding count_where
  count_where-take_drop p zero rs h = omega arith
  count_where-take_drop p (suc n) [] h = omega arith
  count_where-take_drop p (suc n) (r ∷ rs) h = ground (arith, count_where-take_drop p n rs h)

-- What an UPDATE makes of rows that all satisfy `P`.
pub All-update_where {ℓ κ ν} :
    {R : Type ℓ} (P : R → Type κ) (Q : R → Type ν) (c : R → Bool) (f : R → R)
    → ((r : R) → P r → c r ≡ true → Q (f r))
    → ((r : R) → P r → c r ≡ false → Q r)
    → (rs : List R) → All P rs
    → All Q (update_where c f rs)
unfolding update_where
All-update_where P Q c f hit miss [] all = tt
All-update_where P Q c f hit miss (r ∷ rs) all =
    (by_if Q (c r) (f r) r (hit r all.0) (miss r all.0), All-update_where P Q c f hit miss rs all.1)

pub All-select_where {ℓ κ} :
    {R : Type ℓ} (P : R → Type κ) (c : R → Bool) (rs : List R)
    → All P rs
    → All P (select_where c rs)
unfolding select_where
All-select_where P c [] all = tt
All-select_where P c (r ∷ rs) all =
    let rest = All-select_where P c rs all.1 in
    by_if (All P) (c r) (r ∷ select_where c rs) (select_where c rs) (λ _. (all.0, rest)) λ _. rest

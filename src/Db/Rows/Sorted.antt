-- ===== src/Db/Rows/Sorted.antt =====
-- What `ORDER BY` guarantees, for an order that is total and transitive.
use snake_arena.Prelude.{◌≡◌, Bool, true, false, List, [], ◌∷◌, All, All-weaken, by_if}
use snake_arena.Db.Rows.{insert_by, order_by}

module _ {ℓ κ} {A : Type ℓ} (P : A → Type κ) where
  pub All-insert_by :
      (before : A → A → Bool) (a : A) (xs : List A) → P a → All P xs → All P (insert_by before a xs)
  unfolding insert_by
  All-insert_by before a [] h all = (h, tt)
  All-insert_by before a (x ∷ xs) h all =
      by_if (All P) (before a x) _ _ (λ e. (h, all))
        (λ e. (all.0, All-insert_by before a xs h all.1))

  pub All-order_by : (before : A → A → Bool) (xs : List A) → All P xs → All P (order_by before xs)
  unfolding order_by
  All-order_by before [] all = tt
  All-order_by before (x ∷ xs) all =
      All-insert_by before x (order_by before xs) all.0 (All-order_by before xs all.1)

-- Each row may stand before all that follow it.
abbrev pub IsSorted {ℓ} : {A : Type ℓ} → (A → A → Bool) → List A → Type 0
IsSorted before [] = Unit
IsSorted before (a ∷ rest) = All (λ b. before a b ≡ true) rest × IsSorted before rest

module _ {ℓ} {A : Type ℓ} (before : A → A → Bool)
    (total : (a b : A) → before a b ≡ false → before b a ≡ true)
    (trans : (a b c : A) → before a b ≡ true → before b c ≡ true → before a c ≡ true) where
  insert_by-IsSorted :
      (a : A) (xs : List A) → IsSorted before xs → IsSorted before (insert_by before a xs)
  unfolding insert_by
  insert_by-IsSorted a [] h = (tt, tt)
  insert_by-IsSorted a (x ∷ xs) h =
      by_if (IsSorted before) (before a x) _ _
        (λ e. ((e, All-weaken _ _ xs (λ b r. trans a x b e r) h.0), h))
        (λ e. (All-insert_by _ before a xs (total a x e) h.0, insert_by-IsSorted a xs h.1))

  pub order_by-IsSorted : (xs : List A) → IsSorted before (order_by before xs)
  unfolding order_by
  order_by-IsSorted [] = tt
  order_by-IsSorted (x ∷ xs) = insert_by-IsSorted x (order_by before xs) (order_by-IsSorted xs)

-- ===== src/Prelude/Result.antt =====
-- Code that may raise: a value, or the exception.
use mathlib.Core.Path.{◌≡◌, refl}
use mathlib.Core.List.{List, [], ◌∷◌}
use snake_arena.Prelude.Lists.{All}

pub data Result {ℓ κ} (E : Type ℓ) (A : Type κ) : Type (ℓ ⊔ κ) where
  ok : A → Result E A
  err : E → Result E A

pub by_result {ℓ κ ν μ} :
    {E : Type ℓ} {A : Type κ} {B : Type ν} (Q : B → Type μ) (r : Result E A) (f : A → B) (g : E → B)
    → ((a : A) → r ≡ ok a → Q (f a))
    → ((e : E) → r ≡ err e → Q (g e))
    → Q (elim r [ ok a ↦ f a | err e ↦ g e ])
by_result Q (ok a) f g hf hg = hf a refl
by_result Q (err e) f g hf hg = hg e refl

-- For `do`: the first exception ends the block.
module _ {ℓ κ ν} {E : Type ℓ} {A : Type κ} {B : Type ν} where
  infixl 5 ◌>>=◌
  abbrev pub ◌>>=◌ : Result E A → (A → Result E B) → Result E B
  r >>= next = elim r [ err e ↦ err e | ok a ↦ next a ]

-- A list of results, up to the first exception.
unfoldable pub traverse {ℓ κ ν} :
    {E : Type ℓ} {A : Type κ} {B : Type ν} → (A → Result E B) → List A → Result E (List B)
traverse f [] = ok []
traverse f (a ∷ rest) = elim (f a) [
  | err e ↦ err e
  | ok b ↦ elim (traverse f rest) [ err e ↦ err e | ok bs ↦ ok (b ∷ bs) ]
]

-- What the value satisfies, where there is one.
abbrev pub IfOk {ℓ κ ν} : {E : Type ℓ} {A : Type κ} → (A → Type ν) → Result E A → Type ν
IfOk P (ok a) = P a
IfOk P (err e) = Unit

pub IfOk-then {ℓ κ ν μ η} :
    {E : Type ℓ} {A : Type κ} {B : Type ν} (P : A → Type μ) (Q : B → Type η) (r : Result E A)
    (g : A → Result E B)
    → IfOk P r
    → ((a : A) → r ≡ ok a → P a → IfOk Q (g a))
    → IfOk Q (elim r [ err e ↦ err e | ok a ↦ g a ])
IfOk-then P Q (ok a) g h then = then a refl h
IfOk-then P Q (err e) g h then = tt

-- The same where nothing is known of the first value.
pub IfOk-after {ℓ κ ν μ} :
    {E : Type ℓ} {A : Type κ} {B : Type ν} (Q : B → Type μ) (r : Result E A) (g : A → Result E B)
    → ((a : A) → IfOk Q (g a))
    → IfOk Q (elim r [ err e ↦ err e | ok a ↦ g a ])
IfOk-after Q (ok a) g then = then a
IfOk-after Q (err e) g then = tt

pub traverse-IfOk {ℓ κ ν μ η} :
    {E : Type ℓ} {A : Type κ} {B : Type ν} (P : A → Type μ) (Q : B → Type η) (g : A → Result E B)
    → ((a : A) → P a → IfOk Q (g a))
    → (xs : List A) → All P xs
    → IfOk (All Q) (traverse g xs)
unfolding traverse
traverse-IfOk P Q g each [] all = tt
traverse-IfOk P Q g each (a ∷ rest) all = IfOk-then Q (All Q) (g a) _ (each a all.0) λ b e q.
    IfOk-then (All Q) (All Q) (traverse g rest) _ (traverse-IfOk P Q g each rest all.1)
      λ bs e' qs. (q, qs)

-- Where nothing is known of the elements.
pub All-trivial {ℓ} : {A : Type ℓ} (xs : List A) → All (λ (x : A). Unit {0}) xs
All-trivial [] = tt
All-trivial (x ∷ xs) = (tt, All-trivial xs)

-- ===== src/Prelude/Tests.antt =====
-- Boolean tests on the native numbers, the conditional, and equality as an interface.
use Prim.Native.Nat.{ℕ, ◌≤◌, ◌<◌, compare, Ordering}
use Prim.Native.String.{String}
use mathlib.Core.Path.{◌≡◌, refl}
use mathlib.Core.Logic.{◌↔◌, ◌⊎◌, inl, inr}
use mathlib.Core.Bool.{Bool, true, false}
use mathlib.Core.Option.{Option, none, some}
use mathlib.Core.List.{List, [], ◌∷◌}
use native.Mathlib.Omega.{arith}
use text.Mathlib.Text.{◌==◌ as str_eq}
use text.Mathlib.TextEquality.{eq_iff}

abbrev pub ltb : ℕ → ℕ → Bool
ltb a b = elim (compare a b) [ Ordering.lt ↦ true | _ ↦ false ]

abbrev pub leb : ℕ → ℕ → Bool
leb a b = elim (compare a b) [ Ordering.gt ↦ false | _ ↦ true ]

abbrev pub nat_beq : ℕ → ℕ → Bool
nat_beq a b = elim (compare a b) [ Ordering.eq ↦ true | _ ↦ false ]

infix 1 if◌then◌else◌
abbrev pub if◌then◌else◌ {ℓ} : {A : Type ℓ} → Bool → A → A → A
if true then x else y = x
if false then x else y = y

pub nat_beq_iff : (a b : ℕ) → (nat_beq a b ≡ true) ↔ (a ≡ b)
nat_beq_iff a b = ground arith

pub leb→le : (a b : ℕ) → leb a b ≡ true → a ≤ b
leb→le a b h = ground arith

pub ltb→lt : (a b : ℕ) → ltb a b ≡ true → a < b
ltb→lt a b h = ground arith

pub lt→ltb : (a b : ℕ) → a < b → ltb a b ≡ true
lt→ltb a b h = ground arith

pub ltb→le : (a b : ℕ) → ltb a b ≡ false → b ≤ a
ltb→le a b h = ground arith

-- To split on a computed value and keep the equation.
pub Bool-cases : (b : Bool) → (b ≡ true) ⊎ (b ≡ false)
Bool-cases true = inl refl
Bool-cases false = inr refl

pub Option-cases {ℓ} : {A : Type ℓ} (o : Option A) → (o ≡ none) ⊎ ((a : A) × (o ≡ some a))
Option-cases none = inl refl
Option-cases (some a) = inr (a, refl)

-- What both branches satisfy, the conditional satisfies.
pub if_both {ℓ κ} :
    {A : Type ℓ} (Q : A → Type κ) (c : Bool) (x y : A) → Q x → Q y → Q (if c then x else y)
if_both Q true x y hx hy = hx
if_both Q false x y hx hy = hy

-- What holds in each case of a match, with the case's equation, holds of the match.
module _ {ℓ κ} {B : Type ℓ} (Q : B → Type κ) where
  pub by_if : (c : Bool) (x y : B) → (c ≡ true → Q x) → (c ≡ false → Q y) → Q (if c then x else y)
  by_if true x y hx hy = hx refl
  by_if false x y hx hy = hy refl

  pub by_option {ν} :
      {A : Type ν} (o : Option A) (x : B) (f : A → B)
      → Q x
      → ((a : A) → o ≡ some a → Q (f a))
      → Q (elim o [ none ↦ x | some a ↦ f a ])
  by_option none x f hx hf = hx
  by_option (some a) x f hx hf = hf a refl

  pub by_found {ν} :
      {A : Type ν} (o : Option A) (x : B) (f : A → B)
      → (o ≡ none → Q x)
      → ((a : A) → o ≡ some a → Q (f a))
      → Q (elim o [ none ↦ x | some a ↦ f a ])
  by_found none x f hx hf = hx refl
  by_found (some a) x f hx hf = hf a refl

  pub by_list {ν} :
      {A : Type ν} (xs : List A) (x : B) (f : A → List A → B)
      → Q x
      → ((a : A) (rest : List A) → Q (f a rest))
      → Q (elim xs [ [] ↦ x | a ∷ rest ↦ f a rest ])
  by_list [] x f hx hf = hx
  by_list (a ∷ rest) x f hx hf = hf a rest

-- The types whose values may be keys of a dict: `==` decides their equality.
pub record Key {ℓ} (K : Type ℓ) : Type ℓ where
  pub same : K → K → Bool
  pub same_iff : (i k : K) → (same i k ≡ true) ↔ (i ≡ k)

instance abbrev pub string_key : Key String
string_key = record { same = str_eq; same_iff = eq_iff }

instance abbrev pub nat_key : Key ℕ
nat_key = record { same = nat_beq; same_iff = nat_beq_iff }

module _ {ℓ} {K : Type ℓ} ⦃key : Key K⦄ where
  infix 50 ◌==◌
  abbrev pub ◌==◌ : K → K → Bool
  i == k = key.same i k

  pub same_self : (k : K) → (k == k) ≡ true
  same_self k = (key.same_iff k k).1 refl

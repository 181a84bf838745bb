-- ===== src/Runner/Match/Keeps.antt =====
-- services/runner/runner/match.py: predicates on runs along the sequencing, the exception handlers and the
-- calls that `match.py` is written in.
use snake_arena.Prelude.{◌≡◌, arith, Bool, true, false, List, [], ◌∷◌, if◌then◌else◌}
use snake_arena.Prelude.Result.{Result, ok, err, by_result}
use snake_arena.Runner.Match.Docker.{
  Error, is_api_error, Call, Reply, Run, Daemon, M, return, raise, try, finally, ◌>>=◌, perform,
  do_call, recorded, attempt, safe, for_each,
}

by_bool {ℓ κ} :
    {B : Type ℓ} (Q : B → Type κ) (b : Bool) (x y : B)
    → Q x
    → Q y
    → Q (elim b [ true ↦ x | false ↦ y ])
by_bool Q true x y hx hy = hx
by_bool Q false x y hx hy = hy

module _ {ℓ} (P : Run → Type ℓ) where
  pub record Keeps {κ} {A : Type κ} (m : M A) : Type (ℓ ⊔ κ) where
    pub keep : (s : Run) → P s → P (m s).1

  module _ {κ ν} {A : Type κ} {B : Type ν} where
    pub Keeps-bind : {m : M A} {f : A → M B} → Keeps m → ((a : A) → Keeps (f a)) → Keeps (m >>= f)
    unfolding ◌>>=◌
    Keeps-bind {m} {f} hm hf = record {
      keep = λ s p.
          by_result (λ (x : Result Error B × Run). P x.1) (m s).0 (λ a. f a (m s).1)
            (λ e. (err e, (m s).1)) (λ a _. (hf a).keep (m s).1 (hm.keep s p)) λ e _. hm.keep s p;
    }

    pub Keeps-finally : {m : M A} {h : M B} → Keeps m → Keeps h → Keeps (finally m h)
    unfolding finally
    Keeps-finally {m} {h} hm hh = record {
      keep = λ s p.
          let t = h (m s).1 in
          let q = hh.keep (m s).1 (hm.keep s p) in
          by_result (λ (x : Result Error A × Run). P x.1) t.0 (λ b. ((m s).0, t.1))
            (λ e. (err e, t.1)) (λ b _. q) λ e _. q;
    }

  pub Keeps-try {κ} :
      {A : Type κ} {m : M A} (c : Error → Bool) {h : Error → M A}
      → Keeps m
      → ((e : Error) → Keeps (h e))
      → Keeps (try m c h)
  unfolding try
  Keeps-try {A} {m} c {h} hm hh = record {
    keep = λ s p.
        let t = (m s).1 in
        let q = hm.keep s p in
        by_result (λ (x : Result Error A × Run). P x.1) (m s).0 (λ a. (ok a, t))
          (λ e. elim (c e) [ true ↦ h e t | false ↦ (err e, t) ]) (λ a _. q)
          λ e _.
            by_bool (λ (x : Result Error A × Run). P x.1) (c e) (h e t) (err e, t) ((hh e).keep t q)
              q;
  }

  pub Keeps-return {κ} : {A : Type κ} (a : A) → Keeps (return a)
  unfolding return
  Keeps-return a = record { keep = λ s p. p }

  pub Keeps-raise {κ} : (A : Type κ) (e : Error) → Keeps (raise {A = A} e)
  unfolding raise
  Keeps-raise A e = record { keep = λ s p. p }

  -- The choices of the code.
  pub Keeps-if {κ} :
      {A : Type κ} (b : Bool) {m n : M A} → Keeps m → Keeps n → Keeps (if b then m else n)
  Keeps-if true hm hn = hm
  Keeps-if false hm hn = hn

  pub Keeps-for_each {κ} :
      {A : Type κ} {f : A → M (Unit {0})}
      → ((a : A) → Keeps (f a))
      → (xs : List A) → Keeps (for_each f xs)
  unfolding for_each
  Keeps-for_each each [] = Keeps-return tt
  Keeps-for_each each (x ∷ xs) = Keeps-bind (each x) λ _. Keeps-for_each each xs

  pub Keeps-safe : {m : M (Unit {0})} → Keeps m → Keeps (safe m)
  unfolding safe
  Keeps-safe keep = Keeps-try (λ e. true) keep λ e. Keeps-return tt

  module _ (d : Daemon) (c : Call) (each : (r : Reply) (s : Run) → P s → P (recorded c r s)) where
    pub Keeps-perform : Keeps (perform d c)
    unfolding perform
    Keeps-perform = record { keep = λ s p. each (d s.events c) s p }

    pub Keeps-do_call : Keeps (do_call d c)
    unfolding do_call
    Keeps-do_call = Keeps-bind Keeps-perform λ r. Keeps-return tt

    pub Keeps-attempt : Keeps (attempt d c)
    unfolding attempt
    Keeps-attempt = Keeps-try is_api_error Keeps-do_call λ e. Keeps-return tt

pub finally_lead {ℓ ν ω κ μ} :
    {A : Type κ} {B : Type μ} (P : Run → Type ℓ) (R : Run → Type ω) (Q : Run → Type ν) (m : M A)
    (h : M B)
    → ((s : Run) → P s → R (m s).1)
    → ((t : Run) → R t → Q (h t).1)
    → (s : Run) → P s
    → Q (finally m h s).1
unfolding finally
finally_lead {A} P R Q m h hm hh s p =
    let t = h (m s).1 in
    let q = hh (m s).1 (hm s p) in
    by_result (λ (x : Result Error A × Run). Q x.1) t.0 (λ b. ((m s).0, t.1)) (λ e. (err e, t.1))
      (λ b _. q) λ e _. q

-- A last part that raises nothing leaves the result.
pub finally_result {κ μ} :
    {A : Type κ} {B : Type μ} (m : M A) (h : M B) (b : B) (s : Run)
    → (h (m s).1).0 ≡ ok b
    → finally m h s ≡ ((m s).0, (h (m s).1).1)
unfolding finally
finally_result m h b s e = ground (arith, e)

pub Keeps-both {ℓ ν κ} :
    {A : Type κ} (P : Run → Type ℓ) (Q : Run → Type ν) {m : M A}
    → Keeps P m
    → Keeps Q m
    → Keeps (λ s. P s × Q s) m
Keeps-both P Q hp hq = record { keep = λ s p. (hp.keep s p.0, hq.keep s p.1) }

-- The same where a predicate gives way to a weaker one: whatever raises first leaves one of the two.
module _ {ℓ ν} (P : Run → Type ℓ) (Q : Run → Type ν) (weaken : (s : Run) → P s → Q s) where
  pub record Leads {κ} {A : Type κ} (m : M A) : Type (ℓ ⊔ ν ⊔ κ) where
    pub lead : (s : Run) → P s → Q (m s).1

  pub Leads-kept {κ} : {A : Type κ} {m : M A} → Keeps P m → Leads m
  Leads-kept {m} hm = record { lead = λ s p. weaken (m s).1 (hm.keep s p) }

  module _ {κ μ} {A : Type κ} {B : Type μ} {m : M A} {f : A → M B} where
    pub Leads-after : Keeps P m → ((a : A) → Leads (f a)) → Leads (m >>= f)
    unfolding ◌>>=◌
    Leads-after hm hf = record {
      lead = λ s p.
          let q = hm.keep s p in
          by_result (λ (x : Result Error B × Run). Q x.1) (m s).0 (λ a. f a (m s).1)
            (λ e. (err e, (m s).1)) (λ a _. (hf a).lead (m s).1 q) λ e _. weaken (m s).1 q;
    }

    pub Leads-then : Leads m → ((a : A) → Keeps Q (f a)) → Leads (m >>= f)
    unfolding ◌>>=◌
    Leads-then hm hf = record {
      lead = λ s p.
          let q = hm.lead s p in
          by_result (λ (x : Result Error B × Run). Q x.1) (m s).0 (λ a. f a (m s).1)
            (λ e. (err e, (m s).1)) (λ a _. (hf a).keep (m s).1 q) λ e _. q;
    }

  pub Leads-if {κ} :
      {A : Type κ} (b : Bool) {m n : M A} → Leads m → Leads n → Leads (if b then m else n)
  Leads-if true hm hn = hm
  Leads-if false hm hn = hn

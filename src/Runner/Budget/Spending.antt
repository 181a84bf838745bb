-- ===== src/Runner/Budget/Spending.antt =====
-- services/runner/runner/agent_container_manager.py: what a seat can spend over many cycles.
use snake_arena.Prelude.{
  ℕ, ◌+◌, ◌≡◌, refl, inl, inr, true, false, List, [], ◌∷◌, arith, Bool-cases, if◌then◌else◌,
}
use snake_arena.Prelude.Int.{ℤ, pos, ◌+ℤ◌, ◌*ℤ◌, ◌≤ℤ◌, int_laws}
use snake_arena.Runner.Budget.Data.{Tracker, Budgets}
use snake_arena.Runner.Budget.Cycle.{answered, poll_tracker}
use snake_arena.Runner.Budget.Banks.{
  Cycle, one_cycle, cycle_debit, cycle_refills, IsFunded, step_tracker-bank,
}

-- What can happen to a seat between its registration and the end of the match: its snake decides, a
-- round of the poll thread looks at it, or a step ends its cycle.
pub data Moment : Type 0 where
  decide : ℤ → Moment
  look : ℤ → ℤ → Moment
  close : Cycle → Moment

module _ (b : Budgets) where
  -- The seat's tracker after it; `look now current` is a reading of the poll thread, which passes over a
  -- seat that has answered.
  abbrev pub one_moment : Moment → Tracker → Tracker
  one_moment (decide wall) t = answered wall t
  one_moment (look now current) t =
      if t.in_startup then t else if t.responded then t else poll_tracker b now current t
  one_moment (close c) t = one_cycle b c t

  -- The tracker over any such course: a killed seat is skipped.
  unfoldable pub cycles : List Moment → Tracker → Tracker
  cycles [] t = t
  cycles (e ∷ es) t = elim t.killed [ true ↦ t | false ↦ cycles es (one_moment e t) ]

  -- The CPU that the cycles of a course debit in all, and how many of them refill the bank.
  abbrev moment_debit : Moment → Tracker → ℤ
  moment_debit (close c) t = cycle_debit b c t
  moment_debit _ t = pos 0

  abbrev moment_refills : Moment → Tracker → ℕ
  moment_refills (close c) t = cycle_refills b c t
  moment_refills _ t = 0

  unfoldable pub debited : List Moment → Tracker → ℤ
  debited [] t = pos 0
  debited (e ∷ es) t = moment_debit e t +ℤ debited es (one_moment e t)

  unfoldable pub refilled : List Moment → Tracker → ℕ
  refilled [] t = 0
  refilled (e ∷ es) t = moment_refills e t + refilled es (one_moment e t)

  cycles-killed : (es : List Moment) (t : Tracker) → t.killed ≡ true → cycles es t ≡ t
  unfolding cycles
  cycles-killed [] t h = refl
  cycles-killed (e ∷ es) t h = ground arith

  pub cycles-live :
      (e : Moment) (es : List Moment) (t : Tracker)
      → t.killed ≡ false
      → cycles (e ∷ es) t ≡ cycles es (one_moment e t)
  unfolding cycles
  cycles-live e es t h = ground arith

  -- The poll thread moves no bank.
  poll_tracker-IsFunded :
      (now current : ℤ) (t : Tracker) → IsFunded b t → IsFunded b (poll_tracker b now current t)
  unfolding poll_tracker
  poll_tracker-IsFunded now current t f = grind (arith, f)

  poll_tracker-cpu_bank :
      (now current : ℤ) (t : Tracker) → (poll_tracker b now current t).cpu_bank ≡ t.cpu_bank
  unfolding poll_tracker
  poll_tracker-cpu_bank now current t = ground arith

  look-bank :
      (now current : ℤ) (t : Tracker)
      → IsFunded b t
      → let u = one_moment (look now current) t in IsFunded b u × (u.cpu_bank ≡ t.cpu_bank)
  look-bank now current t f =
      ground (arith, f, poll_tracker-IsFunded now current t f, poll_tracker-cpu_bank now current t)

  one_moment-bank :
      (e : Moment) (t : Tracker)
      → (one_moment e t).killed ≡ false
      → IsFunded b t
      → IsFunded b (one_moment e t)
        × ((one_moment e t).cpu_bank +ℤ moment_debit e t
            ≤ℤ t.cpu_bank +ℤ (moment_refills e t *ℤ b.cpu_refill))
  one_moment-bank (decide wall) t live f = (
    record {
      cpu_low = f.cpu_low;
      cpu_high = f.cpu_high;
      wall_low = f.wall_low;
      wall_high = f.wall_high;
    },
    omega int_laws,
  )
  one_moment-bank (look now current) t live f =
      let same = look-bank now current t f in (same.0, rw same.1 (omega int_laws))
  one_moment-bank (close c) t live f = step_tracker-bank b c t live f.cpu_low f.cpu_high

  pub cycles-alive :
      (es : List Moment) (t : Tracker) → (cycles es t).killed ≡ false → t.killed ≡ false
  cycles-alive es t live = elim (Bool-cases t.killed) [
    | inl h ↦ rw (cycles-killed es t h) at live
    | inr h ↦ h
  ]

  -- Over any course of decisions, looks of the poll thread and cycles that a seat survives, the CPU that
  -- is charged to it is at most what its bank held at first and one refill for each busy cycle, and both
  -- banks end within 0 and their caps.
  pub cycles-debited :
      (es : List Moment) (t : Tracker)
      → IsFunded b t
      → (cycles es t).killed ≡ false
      → IsFunded b (cycles es t) × (debited es t ≤ℤ t.cpu_bank +ℤ (refilled es t *ℤ b.cpu_refill))
  unfolding debited refilled
  cycles-debited [] t funded live = unfold cycles in (funded, omega (int_laws, funded.cpu_low))
  cycles-debited (e ∷ es) t funded live =
      let t' = one_moment e t in
      let lives = cycles-alive (e ∷ es) t live in
      let same = cycles-live e es t lives in
      let rest : (cycles es t').killed ≡ false = rw same at live in
      let paid = one_moment-bank e t (cycles-alive es t' rest) funded in
      let later = cycles-debited es t' paid.0 rest in
      (rw same later.0, omega (int_laws, later.1, paid.1))

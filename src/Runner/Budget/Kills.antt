-- ===== src/Runner/Budget/Kills.antt =====
-- services/runner/runner/agent_container_manager.py: what becomes of a killed seat. The rules for the loops of the
-- handlers, and what the handlers of a running match do to seats that are already killed.
use snake_arena.Prelude.{
  ℕ, ◌≡◌, refl, inl, inr, true, none, some, List, [], ◌∷◌, arith, Option-cases, ◌==◌, nat_key,
  if◌then◌else◌, if_both,
}
use snake_arena.Prelude.Int.{ℤ}
use snake_arena.Prelude.Dict.{lookup, keys, lookup-insert}
use snake_arena.Runner.Cgroup.{Host}
use snake_arena.Runner.Budget.Data.{Tracker, Budgets, Manager}
use snake_arena.Runner.Budget.Handlers.{
  Outcome, for_each, put_tracker, StepData, step_seat, notify_step, notify_decision, poll_seat,
  poll_tick, end_poll,
}

-- What each round of a loop keeps, the loop keeps, also when it ends by an exception.
pub for_each_inv {ℓ κ} :
    {K : Type ℓ} (P : Manager → Type κ) (body : K → Manager → Outcome)
    → ((k : K) (m : Manager) → P m → P (body k m).0)
    → (ks : List K) (m : Manager) → P m
    → P (for_each body ks m).0
unfolding for_each
for_each_inv P body keep [] m h = h
for_each_inv P body keep (k ∷ ks) m h = elim (Option-cases (body k m).1) [
  | inl e ↦ rw (e, for_each) (for_each_inv P body keep ks (body k m).0 (keep k m h))
  | inr (x, e) ↦ rw (e, for_each) (keep k m h)
]

pub lookup-put_tracker :
    (seat j : ℕ) (old t : Tracker) (m : Manager)
    → lookup j (put_tracker seat old t m).trackers
      ≡ (if seat == j then some t else lookup j m.trackers)
unfolding put_tracker
lookup-put_tracker seat j old t m = lookup-insert seat j t m.trackers

module _ (seat : ℕ) (t : Tracker) (dead : t.killed ≡ true) where
  -- The seat's tracker is `t`.
  abbrev Holds : Manager → Type 0
  Holds m = lookup seat m.trackers ≡ some t

  step_seat-Holds :
      (b : Budgets) (d : StepData) (k : ℕ) (m : Manager) → Holds m → Holds (step_seat b d k m).0
  unfolding step_seat
  step_seat-Holds b d k m h = grind (arith, lookup-put_tracker)

  poll_seat-Holds :
      (b : Budgets) (h : Host) (clock : ℕ → ℤ) (k : ℕ) (m : Manager)
      → Holds m
      → Holds (poll_seat b h clock k m).0
  unfolding poll_seat
  poll_seat-Holds b h clock k m e = grind (arith, lookup-put_tracker)

  notify_decision-Holds :
      (snake_id : ℕ) (wall : ℤ) (m : Manager) → Holds m → Holds (notify_decision snake_id wall m)
  unfolding notify_decision
  notify_decision-Holds snake_id wall m h = grind (arith, lookup-insert)

-- What can happen to the manager while a match is running.
pub data Event : Type 0 where
  decision : ℕ → ℤ → Event
  step : StepData → Event
  poll : Host → (ℕ → ℤ) → Event

-- The state after one event; an exception has left the state where it stood.
unfoldable pub after : Budgets → Event → Manager → Manager
unfolding notify_step poll_tick
after b (decision snake_id wall) m = notify_decision snake_id wall m
after b (step d) m = (notify_step b d m).0
after b (poll h clock) m = poll_tick b h clock m

unfoldable pub run : Budgets → List Event → Manager → Manager
unfolding after
run b [] m = m
run b (e ∷ es) m = run b es (after b e m)

pub end_poll-trackers : (o : Outcome) → (end_poll o).trackers ≡ o.0.trackers
end_poll-trackers (m, none) = refl
end_poll-trackers (m, some e) = refl

module _ (seat : ℕ) (t : Tracker) (dead : t.killed ≡ true) (b : Budgets) where
  after-Holds : (e : Event) (m : Manager) → Holds seat t dead m → Holds seat t dead (after b e m)
  unfolding after notify_step poll_tick
  after-Holds (decision snake_id wall) m h = notify_decision-Holds seat t dead snake_id wall m h
  after-Holds (step d) m h =
      for_each_inv (Holds seat t dead) (step_seat b d) (step_seat-Holds seat t dead b d)
        (keys m.trackers) m h
  after-Holds (poll host clock) m h =
      if_both (Holds seat t dead) m.polling _ m
        (rw end_poll-trackers (
          for_each_inv (Holds seat t dead) (poll_seat b host clock)
            (poll_seat-Holds seat t dead b host clock) (keys m.trackers) m h))
        h

  -- A tracker that is killed keeps its value, so its kill reason too, through any events of a
  -- running match: decisions, steps and poll rounds, in any order, also where one of them raises.
  pub run-killed :
      (es : List Event) (m : Manager)
      → lookup seat m.trackers ≡ some t
      → lookup seat (run b es m).trackers ≡ some t
  unfolding run
  run-killed [] m h = h
  run-killed (e ∷ es) m h = run-killed es (after b e m) (after-Holds e m h)

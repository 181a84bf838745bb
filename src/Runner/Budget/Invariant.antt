-- ===== src/Runner/Budget/Invariant.antt =====
-- services/runner/runner/agent_container_manager.py: what holds of every tracker of a running match.
use snake_arena.Prelude.{
  ℕ, ◌≡◌, Bool, true, false, ◌||◌, Option, none, some, List, [], ◌∷◌, arith, ◌==◌, nat_key,
  same_self, if_both, by_if, by_option,
}
use snake_arena.Prelude.Int.{ℤ}
use snake_arena.Prelude.Dict.{lookup, keys, lookup-insert}
use snake_arena.Prelude.Result.{by_result}
use snake_arena.Runner.Cgroup.{Host, read_cpu_ns}
use snake_arena.Runner.Budget.Data.{Tracker, Budgets, Manager, KillReason}
use snake_arena.Runner.Budget.Cycle.{step_tracker, poll_tracker, wall_step_ns}
use snake_arena.Runner.Budget.Handlers.{
  Outcome, put_tracker, StepData, alive_of, step_seat, notify_step, notify_decision, poll_seat,
  poll_tick, end_poll,
}
use snake_arena.Runner.Budget.Kills.{for_each_inv, Event, decision, step, poll, after, run}
use snake_arena.Runner.Budget.Banks.{Cycle, IsFunded, step_tracker-bank}

abbrev pub is_given : Option KillReason → Bool
is_given none = false
is_given (some r) = true

abbrev pub mem : ℕ → List ℕ → Bool
mem c [] = false
mem c (k ∷ ks) = k == c || mem c ks

-- A live tracker has its banks within bounds and no kill reason; a killed one has a reason, and its
-- container was sent the kill.
pub record IsSound (b : Budgets) (kills : List ℕ) (t : Tracker) : Type 0 where
  pub funded : t.killed ≡ false → IsFunded b t
  pub no_reason : t.killed ≡ false → t.kill_reason ≡ none
  pub reason : t.killed ≡ true → is_given t.kill_reason ≡ true
  pub sent : t.killed ≡ true → mem t.container kills ≡ true

-- Every tracker of the manager is sound.
pub record IsWellFormed (b : Budgets) (m : Manager) : Type 0 where
  pub sound : (seat : ℕ) (t : Tracker) → lookup seat m.trackers ≡ some t → IsSound b m.kills t

-- What a body may do to a live tracker.
pub record IsUpdate (b : Budgets) (old t : Tracker) : Type 0 where
  pub same : t.container ≡ old.container
  pub funded : t.killed ≡ false → IsFunded b t
  pub no_reason : t.killed ≡ false → t.kill_reason ≡ none
  pub reason : t.killed ≡ true → is_given t.kill_reason ≡ true

module _ (b : Budgets) where
  put_tracker-IsSound :
      (seat j : ℕ) (old t u : Tracker) (m : Manager)
      → old.killed ≡ false
      → IsUpdate b old t
      → IsWellFormed b m
      → lookup j (put_tracker seat old t m).trackers ≡ some u
      → IsSound b (put_tracker seat old t m).kills u
  unfolding put_tracker
  put_tracker-IsSound seat j old t u m live up w h =
      grind (arith, lookup-insert seat j t m.trackers, w.sound j u, same_self {K = ℕ} old.container)

  step_tracker-reason :
      (wall now n : ℤ) (alive : Option Bool) (reading : ℤ) (t : Tracker)
      → t.killed ≡ false
      → t.kill_reason ≡ none
      → let t' = step_tracker b wall now n alive reading t in
        (t'.container ≡ t.container)
        × (t'.killed ≡ false → t'.kill_reason ≡ none)
        × (t'.killed ≡ true → is_given t'.kill_reason ≡ true)
  unfolding step_tracker
  step_tracker-reason wall now n alive reading t live none_yet = grind arith

  step_tracker-IsUpdate :
      (c : Cycle) (t : Tracker)
      → t.killed ≡ false
      → t.kill_reason ≡ none
      → IsFunded b t
      → IsUpdate b t (step_tracker b c.wall c.now c.step c.alive c.reading t)
  step_tracker-IsUpdate c t live none_yet f =
      let r = step_tracker-reason c.wall c.now c.step c.alive c.reading t live none_yet in
      record {
        same = r.0;
        funded = λ h. (step_tracker-bank b c t h f.cpu_low f.cpu_high).0;
        no_reason = r.1;
        reason = r.2;
      }

  poll_tracker-IsUpdate :
      (now current : ℤ) (t : Tracker)
      → t.killed ≡ false
      → t.kill_reason ≡ none
      → IsFunded b t
      → IsUpdate b t (poll_tracker b now current t)
  unfolding poll_tracker
  poll_tracker-IsUpdate now current t live none_yet f = grind arith

  pub put_tracker-IsWellFormed :
      (seat : ℕ) (old t : Tracker) (m : Manager)
      → old.killed ≡ false
      → IsUpdate b old t
      → IsWellFormed b m
      → IsWellFormed b (put_tracker seat old t m)
  put_tracker-IsWellFormed seat old t m live up w = record {
    sound = λ j u. put_tracker-IsSound seat j old t u m live up w;
  }

  abbrev cycle_of : StepData → ℕ → Manager → ℤ → Cycle
  cycle_of d seat m reading = record {
    wall = wall_step_ns d.total_time;
    now = d.now;
    step = d.step;
    alive = alive_of d seat m;
    reading = reading;
  }

  end_poll-IsWellFormed : (o : Outcome) → IsWellFormed b o.0 → IsWellFormed b (end_poll o)
  end_poll-IsWellFormed (m, none) w = w
  end_poll-IsWellFormed (m, some e) w = record { sound = w.sound }

  step_seat-IsWellFormed :
      (d : StepData) (seat : ℕ) (m : Manager)
      → IsWellFormed b m
      → IsWellFormed b (step_seat b d seat m).0
  unfolding step_seat
  step_seat-IsWellFormed d seat m w =
      let Q : Outcome → Type 0 = λ o. IsWellFormed b o.0 in
      by_option Q (lookup seat m.trackers) _ _ w λ t e.
        by_if Q t.killed _ _ (λ dead. w)
          λ live.
            by_result Q (read_cpu_ns d.host t.container) _ _
              (λ reading got.
                put_tracker-IsWellFormed seat t _ _ live
                  (step_tracker-IsUpdate (cycle_of d seat m reading) t live
                    ((w.sound seat t e).no_reason live) ((w.sound seat t e).funded live))
                  (record { sound = w.sound }))
              (λ x got. w)

  poll_seat-IsWellFormed :
      (h : Host) (clock : ℕ → ℤ) (seat : ℕ) (m : Manager)
      → IsWellFormed b m
      → IsWellFormed b (poll_seat b h clock seat m).0
  unfolding poll_seat
  poll_seat-IsWellFormed h clock seat m w =
      let Q : Outcome → Type 0 = λ o. IsWellFormed b o.0 in
      by_option Q (lookup seat m.trackers) _ _ w λ t e.
        by_if Q t.killed _ _ (λ dead. w)
          λ live.
            by_if Q t.in_startup _ _ (λ _. w)
              λ _.
                by_if Q t.responded _ _ (λ _. w)
                  λ _.
                    by_result Q (read_cpu_ns h t.container) _ _
                      (λ current got.
                        put_tracker-IsWellFormed seat t _ m live
                          (poll_tracker-IsUpdate (clock seat) current t live
                            ((w.sound seat t e).no_reason live) ((w.sound seat t e).funded live))
                          w)
                      (λ x got. w)

  notify_decision-IsWellFormed :
      (snake_id : ℕ) (wall : ℤ) (m : Manager)
      → IsWellFormed b m
      → IsWellFormed b (notify_decision snake_id wall m)
  unfolding notify_decision
  notify_decision-IsWellFormed snake_id wall m w =
      by_option (IsWellFormed b) (lookup snake_id m.seat_by_snake_id) _ _ w λ seat known.
        by_option (IsWellFormed b) (lookup seat m.trackers) _ _ w λ t e.
          by_if (IsWellFormed b) t.killed _ _ (λ dead. w)
            λ live. record {
              sound = λ j u h.
                  grind (arith, lookup-insert {V = Tracker} seat j, w.sound j u, w.sound seat t e);
            }

  after-IsWellFormed : (e : Event) (m : Manager) → IsWellFormed b m → IsWellFormed b (after b e m)
  unfolding after notify_step poll_tick
  after-IsWellFormed (decision snake_id wall) m w = notify_decision-IsWellFormed snake_id wall m w
  after-IsWellFormed (step d) m w =
      for_each_inv (IsWellFormed b) (step_seat b d) (step_seat-IsWellFormed d) (keys m.trackers) m w
  after-IsWellFormed (poll h clock) m w =
      if_both (IsWellFormed b) m.polling _ m
        (end_poll-IsWellFormed _ (
          for_each_inv (IsWellFormed b) (poll_seat b h clock) (poll_seat-IsWellFormed h clock)
            (keys m.trackers) m w))
        w

  -- Through any decisions, steps and poll rounds of a match, in any order and whatever is read,
  -- every live tracker has both banks between 0 and their caps and no kill reason, and every killed
  -- one has a reason and was sent the kill.
  pub run-IsWellFormed :
      (es : List Event) (m : Manager) → IsWellFormed b m → IsWellFormed b (run b es m)
  unfolding run
  run-IsWellFormed [] m w = w
  run-IsWellFormed (e ∷ es) m w = run-IsWellFormed es (after b e m) (after-IsWellFormed e m w)

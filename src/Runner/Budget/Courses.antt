-- ===== src/Runner/Budget/Courses.antt =====
-- services/runner/runner/agent_container_manager.py: what the events of a match do to one seat is a course of
-- the moments of Spending.
use snake_arena.Prelude.{
  ℕ, ◌≡◌, ◌∙◌, refl, sym, ap, subst, ◌⊎◌, inl, inr, false, some, List, [], ◌∷◌, ◌++◌, arith, ◌==◌,
  nat_key, by_if, by_found, Bool-cases, if_both,
}
use snake_arena.Prelude.Int.{ℤ}
use snake_arena.Prelude.Dict.{Dict, lookup, insert, keys, lookup-insert}
use snake_arena.Prelude.Result.{by_result}
use snake_arena.Runner.Cgroup.{Host, read_cpu_ns}
use snake_arena.Runner.Budget.Data.{Tracker, Budgets, Manager}
use snake_arena.Runner.Budget.Cycle.{wall_step_ns, poll_tracker}
use snake_arena.Runner.Budget.Handlers.{
  Outcome, put_tracker, StepData, alive_of, step_seat, notify_step, notify_decision, poll_seat,
  poll_tick,
}
use snake_arena.Runner.Budget.Kills.{
  Event, decision, step, poll, after, run, for_each_inv, end_poll-trackers,
}
use snake_arena.Runner.Budget.Spending.{
  Moment, decide, look, close, one_moment, cycles, cycles-alive,
}

module _ (b : Budgets) where
  cycles-snoc :
      (es : List Moment) (e : Moment) (t : Tracker)
      → (cycles b es t).killed ≡ false
      → cycles b (es ++ e ∷ []) t ≡ one_moment b e (cycles b es t)
  unfolding cycles
  cycles-snoc [] e t live = ground arith
  cycles-snoc (x ∷ es) e t live =
      ground (arith, cycles-alive b (x ∷ es) t live, cycles-snoc es e (one_moment b x t))

  look_same :
      (now current : ℤ) (t : Tracker)
      → t.in_startup ≡ false
      → t.responded ≡ false
      → one_moment b (look now current) t ≡ poll_tracker b now current t
  look_same now current t started waits = ground (arith, started, waits)

  module _ (seat : ℕ) where
    -- The seat's tracker is as it was, or it was not killed and one moment has passed.
    abbrev Moves : Dict ℕ Tracker → Dict ℕ Tracker → Type 0
    Moves d d' =
        (lookup seat d' ≡ lookup seat d)
        ⊎ ((t : Tracker) × (e : Moment) × (lookup seat d ≡ some t)
            × (t.killed ≡ false)
            × (lookup seat d' ≡ some (one_moment b e t)))

    insert-Moves :
        (k : ℕ) (t : Tracker) (e : Moment) (d : Dict ℕ Tracker)
        → lookup k d ≡ some t
        → t.killed ≡ false
        → Moves d (insert k (one_moment b e t) d)
    insert-Moves k t e d found live =
        let new = lookup-insert k seat (one_moment b e t) d in
        elim (Bool-cases (k == seat)) [
          | inl same ↦ inr (
            t,
            e,
            subst (λ i. lookup i d ≡ some t) ((nat_key.same_iff k seat).0 same) found,
            live,
            ground (arith, new, same),
          )
          | inr other ↦ inl (ground (arith, new, other))
        ]

    step_seat-Moves :
        (d : StepData) (k : ℕ) (m : Manager) → Moves m.trackers (step_seat b d k m).0.trackers
    unfolding step_seat put_tracker
    step_seat-Moves d k m =
        let P = λ (r : Outcome). Moves m.trackers r.0.trackers in
        by_found P (lookup k m.trackers) _ _ (λ absent. inl refl)
          λ t found.
            by_if P t.killed _ _ (λ dead. inl refl)
              λ live.
                by_result P (read_cpu_ns d.host t.container) _ _
                  (λ reading _.
                    insert-Moves k t
                      (close (record {
                        wall = wall_step_ns d.total_time;
                        now = d.now;
                        step = d.step;
                        alive = alive_of d k m;
                        reading = reading;
                      }))
                      m.trackers found live)
                  λ e _. inl refl

    poll_seat-Moves :
        (h : Host) (clock : ℕ → ℤ) (k : ℕ) (m : Manager)
        → Moves m.trackers (poll_seat b h clock k m).0.trackers
    unfolding poll_seat put_tracker
    poll_seat-Moves h clock k m =
        let P = λ (r : Outcome). Moves m.trackers r.0.trackers in
        by_found P (lookup k m.trackers) _ _ (λ absent. inl refl)
          λ t found.
            by_if P t.killed _ _ (λ dead. inl refl)
              λ live.
                by_if P t.in_startup _ _ (λ _. inl refl)
                  λ started.
                    by_if P t.responded _ _ (λ _. inl refl)
                      λ waits.
                        by_result P (read_cpu_ns h t.container) _ _
                          (λ current _.
                            let moved =
                              insert-Moves k t (look (clock k) current) m.trackers found live in
                            subst (λ (u : Tracker). Moves m.trackers (insert k u m.trackers))
                              (look_same (clock k) current t started waits) moved)
                          λ e _. inl refl

    notify_decision-Moves :
        (snake_id : ℕ) (wall : ℤ) (m : Manager)
        → Moves m.trackers (notify_decision snake_id wall m).trackers
    unfolding notify_decision
    notify_decision-Moves snake_id wall m =
        let P = λ (n : Manager). Moves m.trackers n.trackers in
        by_found P (lookup snake_id m.seat_by_snake_id) _ _ (λ absent. inl refl)
          λ k _.
            by_found P (lookup k m.trackers) _ _ (λ absent. inl refl)
              λ t found.
                by_if P t.killed _ _ (λ dead. inl refl)
                  λ live. insert-Moves k t (decide wall) m.trackers found live

    module _ (t : Tracker) where
      -- The seat has gone through some course from the tracker `t`.
      abbrev pub HasCourse : Manager → Type 0
      HasCourse m = (es : List Moment) × (lookup seat m.trackers ≡ some (cycles b es t))

      Moves-HasCourse : (m n : Manager) → Moves m.trackers n.trackers → HasCourse m → HasCourse n
      Moves-HasCourse m n (inl same) (es, here) = (es, same ∙ here)
      Moves-HasCourse m n (inr (u, e, before, live, moved)) (es, here) =
          let same : u ≡ cycles b es t = ground (arith, here, before) in
          let lives : (cycles b es t).killed ≡ false =
            subst (λ (v : Tracker). v.killed ≡ false) same live in
          (
            es ++ e ∷ [],
            moved
                ∙ ap (λ v. some (one_moment b e v)) same
                ∙ ap some (sym (cycles-snoc es e t lives)),
          )

      after-HasCourse : (e : Event) (m : Manager) → HasCourse m → HasCourse (after b e m)
      unfolding after notify_step poll_tick
      after-HasCourse (decision snake_id wall) m h =
          Moves-HasCourse m (notify_decision snake_id wall m)
            (notify_decision-Moves snake_id wall m) h
      after-HasCourse (step d) m h =
          for_each_inv HasCourse (step_seat b d)
            (λ k n g. Moves-HasCourse n (step_seat b d k n).0 (step_seat-Moves d k n) g)
            (keys m.trackers) m h
      after-HasCourse (poll host clock) m h =
          if_both HasCourse m.polling _ m
            (rw end_poll-trackers (
              for_each_inv HasCourse (poll_seat b host clock)
                (λ k n g.
                  Moves-HasCourse n (poll_seat b host clock k n).0 (poll_seat-Moves host clock k n)
                    g)
                (keys m.trackers) m h))
            h

      -- Whatever the events of a running match, in any order and also where one of them raises: a seat goes
      -- through a course of moments, so that what holds of every course holds of the seat.
      pub run-HasCourse : (es : List Event) (m : Manager) → HasCourse m → HasCourse (run b es m)
      unfolding run
      run-HasCourse [] m h = h
      run-HasCourse (e ∷ es) m h = run-HasCourse es (after b e m) (after-HasCourse e m h)

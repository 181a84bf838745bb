-- ===== src/Runner/Budget/Start.antt =====
-- services/runner/runner/agent_container_manager.py: how `notify_start` settles every seat.
use Prim.Native.String.{String}
use snake_arena.Prelude.{
  ℕ, ◌≡◌, refl, inl, inr, true, false, none, some, List, [], ◌∷◌, arith, Bool-cases, Option-cases,
  ◌==◌, nat_key, string_key, nat_beq_iff, same_self, sym, subst, by_option,
}
use snake_arena.Prelude.Int.{pos, ◌≤ℤ◌}
use snake_arena.Prelude.Dict.{Dict, lookup, contains, keys, lookup-insert, contains-insert}
use snake_arena.Prelude.Result.{by_result}
use snake_arena.Runner.Cgroup.{Host, read_cpu_ns}
use snake_arena.Runner.Budget.Data.{Tracker, Budgets, Manager}
use snake_arena.Runner.Budget.Handlers.{
  Outcome, for_each, put_tracker, StartData, start_snake, drop_absent, cleared, then_drop,
  restart_poll, notify_start,
}
use snake_arena.Runner.Budget.Kills.{for_each_inv, Event, run}
use snake_arena.Runner.Budget.Invariant.{IsWellFormed, mem, run-IsWellFormed}
use snake_arena.Runner.Budget.Setup.{
  track, start_thread, installed, same_seats, set_agent_containers,
}

-- A seat whose tracker is alive is known by a snake of the sim.
abbrev IsSettled : ℕ → Manager → Type 0
IsSettled seat m =
    (t : Tracker)
    → lookup seat m.trackers ≡ some t
    → t.killed ≡ false
    → contains seat m.snake_id_by_seat ≡ true

drop_absent_self : (seat : ℕ) (m : Manager) → IsSettled seat (drop_absent seat m).0
unfolding drop_absent put_tracker
drop_absent_self seat m t h live = grind (arith, lookup-insert, same_self {K = ℕ} seat)

drop_absent-IsSettled :
    (seat k : ℕ) (m : Manager) → IsSettled seat m → IsSettled seat (drop_absent k m).0
unfolding drop_absent put_tracker
drop_absent-IsSettled seat k m s t h live = grind (arith, lookup-insert, s t)

drop_absent-quiet : (k : ℕ) (m : Manager) → (drop_absent k m).1 ≡ none
unfolding drop_absent
drop_absent-quiet k m = ground arith

for_each-drop :
    (k : ℕ) (ks : List ℕ) (m : Manager)
    → for_each drop_absent (k ∷ ks) m ≡ for_each drop_absent ks (drop_absent k m).0
unfolding for_each
for_each-drop k ks m = ground (arith, drop_absent-quiet k m)

drops-IsSettled :
    (seat : ℕ) (ks : List ℕ) (m : Manager)
    → mem seat ks ≡ true
    → IsSettled seat (for_each drop_absent ks m).0
drops-IsSettled seat [] m h = cc
drops-IsSettled seat (k ∷ ks) m h = rw for_each-drop (elim (Bool-cases (k == seat)) [
  | inl e ↦ for_each_inv (IsSettled seat) drop_absent (drop_absent-IsSettled seat) ks _ (
      subst (λ j. IsSettled seat (drop_absent j m).0) (sym ((nat_beq_iff k seat).0 e))
        (drop_absent_self seat m))
  | inr e ↦ drops-IsSettled seat ks _ (ground arith)
])

keys-mem :
    (seat : ℕ) (t : Tracker) (d : Dict ℕ Tracker)
    → lookup seat d ≡ some t
    → mem seat (keys d) ≡ true
keys-mem seat t [] h = cc
keys-mem seat t ((k, u) ∷ d) h = ground (arith, keys-mem seat t d)

drop_absent-absent :
    (seat k : ℕ) (m : Manager)
    → lookup seat m.trackers ≡ none
    → lookup seat (drop_absent k m).0.trackers ≡ none
unfolding drop_absent put_tracker
drop_absent-absent seat k m h = grind (arith, lookup-insert)

-- The second loop settles every seat.
all-IsSettled :
    (seat : ℕ) (m : Manager) → IsSettled seat (for_each drop_absent (keys m.trackers) m).0
all-IsSettled seat m = elim (Option-cases (lookup seat m.trackers)) [
  | inl e ↦ λ t h live. absurd (
      cc (
        for_each_inv (λ n. lookup seat n.trackers ≡ none) drop_absent (drop_absent-absent seat)
          (keys m.trackers) m e))
  | inr (t, e) ↦ drops-IsSettled seat (keys m.trackers) m (keys-mem seat t m.trackers e)
]

-- A seat that is known by a snake has left startup.
abbrev HasStarted : ℕ → Manager → Type 0
HasStarted seat m =
    (t : Tracker)
    → lookup seat m.trackers ≡ some t
    → contains seat m.snake_id_by_seat ≡ true
    → t.in_startup ≡ false

drop_absent-HasStarted :
    (seat k : ℕ) (m : Manager) → HasStarted seat m → HasStarted seat (drop_absent k m).0
unfolding drop_absent put_tracker
drop_absent-HasStarted seat k m s t h known = grind (arith, lookup-insert, s)

start_snake-HasStarted :
    (b : Budgets) (d : StartData) (seat : ℕ) (snake : ℕ × String) (m : Manager)
    → HasStarted seat m
    → HasStarted seat (start_snake b d snake m).0
unfolding start_snake
start_snake-HasStarted b d seat (snake_id, tag) m s =
    let Q : Outcome → Type 0 = λ o. HasStarted seat o.0 in
    by_option Q (lookup tag m.seat_by_target) _ _ s λ k known.
      by_option Q (lookup k m.trackers) _ _ s λ t e.
        by_result Q (read_cpu_ns d.host t.container) _ _
          (λ current got u h c. grind (
            arith,
            lookup-insert {V = Tracker} k seat,
            contains-insert {V = ℕ} k seat,
            s,
            nat_beq_iff k seat,
          ))
          (λ x got. s)

restart_poll-same :
    (o : Outcome)
    → ((restart_poll o).0.trackers ≡ o.0.trackers)
      × ((restart_poll o).0.snake_id_by_seat ≡ o.0.snake_id_by_seat)
restart_poll-same (m, none) = (refl, refl)
restart_poll-same (m, some e) = (refl, refl)

-- The two loops, from the outcome of the first.
loops_settle :
    (o : Outcome)
    → ((seat : ℕ) → HasStarted seat o.0)
    → (restart_poll (then_drop o)).1 ≡ none
    → (seat : ℕ) (t : Tracker) → lookup seat (then_drop o).0.trackers ≡ some t
    → t.killed ≡ false
    → (contains seat (then_drop o).0.snake_id_by_seat ≡ true) × (t.in_startup ≡ false)
loops_settle (m, some e) started quiet seat t h live = cc
loops_settle (m, none) started quiet seat t h live =
    let known = all-IsSettled seat m t h live in
    (
      known,
      for_each_inv (HasStarted seat) drop_absent (drop_absent-HasStarted seat) (keys m.trackers) m
          (started seat) t h known,
    )

-- When `notify_start` ends without an exception, every seat that is still alive belongs to a snake
-- of the sim and has left startup: no seat is left out of both the poll loop and the kills.
pub notify_start-settles :
    (b : Budgets) (d : StartData) (m : Manager)
    → (notify_start b d m).1 ≡ none
    → (seat : ℕ) (t : Tracker) → lookup seat (notify_start b d m).0.trackers ≡ some t
    → t.killed ≡ false
    → (contains seat (notify_start b d m).0.snake_id_by_seat ≡ true) × (t.in_startup ≡ false)
unfolding notify_start
notify_start-settles b d m quiet seat t h live =
    let o = for_each (start_snake b d) d.snake_tags (cleared m) in
    let same = restart_poll-same (then_drop o) in
    let started : (k : ℕ) → HasStarted k o.0 = λ k.
      for_each_inv (HasStarted k) (start_snake b d) (start_snake-HasStarted b d k) d.snake_tags
        (cleared m) (λ u e c. cc) in
    rw (same.1) (loops_settle o started quiet seat t (rw same.0 at h) live)

-- Budgets whose banks start between 0 and their caps.
pub record IsSane (b : Budgets) : Type 0 where
  pub cpu_low : pos 0 ≤ℤ b.cpu_initial
  pub cpu_high : b.cpu_initial ≤ℤ b.cpu_max
  pub wall_low : pos 0 ≤ℤ b.wall_initial
  pub wall_high : b.wall_initial ≤ℤ b.wall_max

module _ (b : Budgets) (sane : IsSane b) where
  start_snake-IsWellFormed :
      (d : StartData) (snake : ℕ × String) (m : Manager)
      → IsWellFormed b m
      → IsWellFormed b (start_snake b d snake m).0
  unfolding start_snake
  start_snake-IsWellFormed d (snake_id, tag) m w =
      let Q : Outcome → Type 0 = λ o. IsWellFormed b o.0 in
      by_option Q (lookup tag m.seat_by_target) _ _ w λ seat known.
        by_option Q (lookup seat m.trackers) _ _ w λ t e.
          by_result Q (read_cpu_ns d.host t.container) _ _
            (λ current got. record {
              sound = λ j u h. grind (
                arith,
                lookup-insert {V = Tracker} seat j,
                w.sound j u,
                w.sound seat t e,
                same_self {K = ℕ} t.container,
              );
            })
            (λ x got. w)

  drop_absent-IsWellFormed :
      (k : ℕ) (m : Manager) → IsWellFormed b m → IsWellFormed b (drop_absent k m).0
  unfolding drop_absent put_tracker
  drop_absent-IsWellFormed k m w =
      by_option (λ (o : Outcome). IsWellFormed b o.0) (lookup k m.trackers) _ _ w
        λ t e. record {
          sound = λ j u h. grind (
            arith,
            lookup-insert {V = Tracker} k j,
            w.sound j u,
            w.sound k t e,
            same_self {K = ℕ} t.container,
          );
        }

  loops-IsWellFormed :
      (o : Outcome) → IsWellFormed b o.0 → IsWellFormed b (restart_poll (then_drop o)).0
  loops-IsWellFormed (m, some e) w = w
  loops-IsWellFormed (m, none) w =
      let o = for_each drop_absent (keys m.trackers) m in
      restart-IsWellFormed o
        (for_each_inv (IsWellFormed b) drop_absent drop_absent-IsWellFormed (keys m.trackers) m w)
    where
      restart-IsWellFormed : (o : Outcome) → IsWellFormed b o.0 → IsWellFormed b (restart_poll o).0
      restart-IsWellFormed (n, none) v = record { sound = v.sound }
      restart-IsWellFormed (n, some e) v = v

  -- `notify_start` establishes what the events of the match keep, from trackers that are sound.
  pub notify_start-IsWellFormed :
      (d : StartData) (m : Manager) → IsWellFormed b m → IsWellFormed b (notify_start b d m).0
  unfolding notify_start
  notify_start-IsWellFormed d m w = loops-IsWellFormed _ (
      for_each_inv (IsWellFormed b) (start_snake b d) (start_snake-IsWellFormed d) d.snake_tags
        (cleared m) (record { sound = w.sound }))

  track-IsWellFormed :
      (h : Host) (sc : ℕ × ℕ) (m : Manager) → IsWellFormed b m → IsWellFormed b (track h sc m).0
  unfolding track
  track-IsWellFormed h (seat, container) m w =
      by_result (λ (o : Outcome). IsWellFormed b o.0) (read_cpu_ns h container) _ _
        (λ baseline got. record {
          sound = λ j u e. grind (arith, lookup-insert {V = Tracker} seat j, w.sound j u, sane);
        })
        (λ x got. w)

  start_thread-IsWellFormed : (o : Outcome) → IsWellFormed b o.0 → IsWellFormed b (start_thread o).0
  start_thread-IsWellFormed (m, none) w = record { sound = w.sound }
  start_thread-IsWellFormed (m, some e) w = w

  -- From any manager that accepts the containers, through `notify_start` and any events of the
  -- match, every live tracker has both banks between 0 and their caps and no kill reason, and every
  -- killed one has a reason and its container was sent the kill.
  pub match-IsWellFormed :
      (h : Host) (containers : Dict ℕ ℕ) (targets : Dict ℕ String) (d : StartData) (es : List Event)
      (m : Manager)
      → same_seats containers targets ≡ true
      → IsWellFormed b
          (run b es (notify_start b d (set_agent_containers h containers targets m).0).0)
  unfolding set_agent_containers
  match-IsWellFormed h containers targets d es m same = run-IsWellFormed b es _ (
      notify_start-IsWellFormed d _ (
        rw same (
          start_thread-IsWellFormed _ (
            for_each_inv (IsWellFormed b) (track h) (track-IsWellFormed h) containers
              (installed containers targets m) (record { sound = λ j u e. cc })))))

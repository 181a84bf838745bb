-- ===== src/Runner/Match/Sweep/Live.antt =====
-- services/runner/runner/match.py: whose resources `sweep_orphan_resources` removes.
use snake_arena.Prelude.{
  ◌≡◌, ◌≢◌, refl, arith, true, false, Option, none, some, List, [], ◌∷◌, take, All, by_if, by_found,
  by_option,
}
use snake_arena.Types.{Text, text_key, text_beq_iff}
use snake_arena.Runner.Match.Docker.{Error, is_api_error}
use snake_arena.Runner.Match.Sweep.{
  Listed, live_ids, is_live, is_orphan, Swept, sweep, sweep_orphan_resources,
}

-- Its runner's container is not among those that there are.
abbrev pub IsLeftover : List Text → Listed → Type 0
IsLeftover ids c =
    (owner : Text) × (c.owner ≡ some owner) × (owner ≢ []) × All (λ i. take 12 i ≢ owner) ids

is_live-none :
    (owner : Text) (ids : List Text)
    → is_live owner (live_ids ids) ≡ false
    → All (λ i. take 12 i ≢ owner) ids
is_live-none owner [] h = tt
is_live-none owner (i ∷ rest) h =
    (ground (arith, h, text_beq_iff (take 12 i) owner), is_live-none owner rest (ground (arith, h)))

leftover :
    (ids : List Text) (c : Listed) (owner : Option Text)
    → c.owner ≡ owner
    → is_orphan (live_ids ids) owner ≡ true
    → IsLeftover ids c
leftover ids c none e h = cc
leftover ids c (some []) e h = cc
leftover ids c (some (a ∷ rest)) e h =
    (a ∷ rest, e, ground arith, is_live-none (a ∷ rest) ids (ground (arith, h)))

sweep-IsLeftover :
    (answers : Text → Option Error) (ids : List Text) (cs : List Listed)
    → All (IsLeftover ids) (sweep answers (live_ids ids) cs).asked
unfolding sweep
sweep-IsLeftover answers ids [] = tt
sweep-IsLeftover answers ids (c ∷ cs) =
    let rest = sweep-IsLeftover answers ids cs in
    let Q = λ (r : Swept). All (IsLeftover ids) r.asked in
    by_if Q (is_orphan (live_ids ids) c.owner) _ (sweep answers (live_ids ids) cs)
      (λ h.
        let l = leftover ids c c.owner refl h in
        by_found Q (answers c.id) _ _ (λ _. (l, rest))
          λ e _.
            by_if Q (is_api_error e) _ record { asked = c ∷ []; swept = 0; raised = some e }
              (λ _. (l, rest)) λ _. (l, tt))
      λ _. rest

-- The sweep asks only for the removal of resources whose runner's container does not exist, running or
-- not, and which carry a runner's label.
pub sweep_orphan_resources-IsLeftover :
    (answers : Text → Option Error) (ids : List Text) (containers networks : List Listed)
    → let r = sweep_orphan_resources answers ids containers networks in
      All (IsLeftover ids) r.0.asked × All (IsLeftover ids) r.1.asked
unfolding sweep_orphan_resources
sweep_orphan_resources-IsLeftover answers ids containers networks =
    let first = sweep answers (live_ids ids) containers in
    let second = sweep answers (live_ids ids) networks in
    let P = λ (r : Swept). All (IsLeftover ids) r.asked in
    by_option (λ (r : Swept × Swept). P r.0 × P r.1) first.raised (first, second)
      (λ e. (first, record { asked = []; swept = 0; raised = some e }))
      (sweep-IsLeftover answers ids containers, sweep-IsLeftover answers ids networks)
      λ e _. (sweep-IsLeftover answers ids containers, tt)

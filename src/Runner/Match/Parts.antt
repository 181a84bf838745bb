-- ===== src/Runner/Match/Parts.antt =====
-- services/runner/runner/match.py: the result of `run_match`, its variables and the values that it computes.
use snake_arena.Prelude.{
  ℕ, suc, Bool, true, false, Option, none, some, List, [], ◌∷◌, ◌++◌, nat_key, ◌==◌, length,
  if◌then◌else◌,
}
use snake_arena.Prelude.Int.{ℤ}
use snake_arena.Prelude.Dict.{Dict, lookup, insert}
use snake_arena.Prelude.Result.{ok}
use snake_arena.Types.{Text, text_key}
use snake_arena.Runner.Budget.Data.{KillReason, Manager}
use snake_arena.Runner.Budget.Setup.{get_kill_reason}
use snake_arena.Runner.Match.Docker.{
  Error, image_not_found, Status, exited, dead, Container, Network, Event, Run, M,
}
use snake_arena.Runner.Match.Console.{Banners}
use snake_arena.Runner.Match.Args.{AgentSpec, target_of}

-- `MatchResult`
pub record Outcome : Type 0 where
  pub success : Bool
  pub error : Option Text
  pub sim_logs : Text
  pub agent_logs : Option (Dict Text Text)
  pub tags_to_names : Option (Dict Text Text)
  pub dev_agent_step_logs : Option (List Text)
  pub exec_times : Option (Dict ℕ (List ℤ))
  pub wall_step_times : Option (Dict ℕ (List ℤ))
  pub kill_reasons : Option (Dict ℕ (Option KillReason))
  pub init_failed_seats : Option (List ℕ)
  pub seat_by_snake_id : Option (Dict ℕ ℕ)

-- The errors that a result names.
pub data Failure : Type 0 where
  no_image : Text → Failure
  not_running exited_early not_listening : Failure

pub record Outside : Type 0 where
  pub str : ℕ → Text
  pub full_log : List Event → ℕ → Text
  pub manager : List Event → Manager
  pub banners : Banners
  pub errors : Failure → Text

abbrev pub failed_result : Failure → (Failure → Text) → Outcome
failed_result e text = record {
  success = false;
  error = some (text e);
  sim_logs = [];
  agent_logs = none;
  tags_to_names = none;
  dev_agent_step_logs = none;
  exec_times = none;
  wall_step_times = none;
  kill_reasons = none;
  init_failed_seats = none;
  seat_by_snake_id = none;
}

-- Assignments to the variables that the `finally` reads.
unfoldable pub get : M Run
get s = (ok s, s)

unfoldable pub push_network : Network → M (Unit {0})
push_network n s = (ok tt, record s { networks = s.networks ++ n ∷ [] })

unfoldable pub push_agent : Container → M (Unit {0})
push_agent c s = (ok tt, record s { agents = s.agents ++ c ∷ [] })

unfoldable pub push_streamer : Container → M (Unit {0})
push_streamer c s = (ok tt, record s { streamed = s.streamed ++ c ∷ [] })

unfoldable pub set_sim : Container → M (Unit {0})
set_sim c s = (ok tt, record s { sim = some c })

unfoldable pub set_observable : M (Unit {0})
set_observable s = (ok tt, record s { observable = true })

abbrev pub is_image_not_found : Error → Bool
is_image_not_found image_not_found = true
is_image_not_found _ = false

abbrev pub is_over : Status → Bool
is_over exited = true
is_over dead = true
is_over _ = false

-- `networks[:-1]`
abbrev pub all_but_last {ℓ} : {A : Type ℓ} → List A → List A
all_but_last [] = []
all_but_last (x ∷ []) = []
all_but_last (x ∷ y ∷ xs) = x ∷ all_but_last (y ∷ xs)

-- `[i for i, t in enumerate(targets) if t in failed_set]`
abbrev pub is_among : Text → List Text → Bool
is_among t [] = false
is_among t (f ∷ fs) = if f == t then true else is_among t fs

unfoldable pub seats_from : ℕ → List Text → List Text → List ℕ
seats_from i [] failed = []
seats_from i (t ∷ ts) failed =
    let rest = seats_from (suc i) ts failed in if is_among t failed then i ∷ rest else rest

abbrev pub unless_empty {ℓ} : {A : Type ℓ} → List A → Option (List A)
unless_empty [] = none
unless_empty (x ∷ xs) = some (x ∷ xs)

abbrev pub names_of : List AgentSpec → Dict Text Text → Dict Text Text
names_of [] acc = acc
names_of (a ∷ rest) acc = names_of rest (insert (target_of a) a.name acc)

-- `{seat: … for seat in range(len(agents))}`
abbrev pub reasons_from : Manager → ℕ → List AgentSpec → Dict ℕ (Option KillReason)
reasons_from manager seat [] = []
reasons_from manager seat (a ∷ rest) =
    (seat, get_kill_reason seat manager) ∷ reasons_from manager (suc seat) rest

abbrev pub steps_seen : ℕ → Manager → ℕ
steps_seen seat manager = elim (lookup seat manager.exec_times) [
  | none ↦ 0
  | some times ↦ length times
]

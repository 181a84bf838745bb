-- ===== src/Runner/Match/Args.antt =====
-- services/runner/runner/match.py: what a match is given, and the names and command line made of it.
use Prim.Native.Char.{code}
use Prim.Native.String.{String}
use snake_arena.Prelude.{
  ℕ, zero, suc, Bool, Option, none, some, List, [], ◌∷◌, ◌++◌, map, if◌then◌else◌,
}
use snake_arena.Types.{Text}
use snake_arena.Runner.Budget.Data.{Budgets}
use snake_arena.Runner.Match.Router.{Router}

-- The character codes of a text of the source.
abbrev pub codes : String → Text
codes String.[] = []
codes (String.◌∷◌ c s) = code c ∷ codes s

pub record AgentSpec : Type 0 where
  pub image : Text
  pub name : Text

-- The arguments of `run_match`; `sim_args` is the result of `to_args()`, `budgets` what the manager
-- derives from its arguments, `reports` says that there is an `on_result`.
pub record Match : Type 0 where
  pub sim_image : Text
  pub agents : List AgentSpec
  pub sim_args : List Text
  pub router : Router
  pub match_id : Text
  pub budgets : Budgets
  pub mem_limit : Text
  pub nano_cpus : ℕ
  pub pids_limit : ℕ
  pub grpc_ready_timeout : ℕ
  pub reports : Bool
  pub end_on_last_standing_when_longest : Bool
  pub end_on_last_standing_buffer_steps : Option ℕ
  pub end_when_dead_buffer_steps : ℕ
  pub dev_seat : Option ℕ

-- `f"{match_id}-{…}"`
abbrev pub named : Match → Text → Text
named m name = m.match_id ++ b'-' ∷ name

-- `f"{agent.name}:50051"`
abbrev pub target_of : AgentSpec → Text
target_of a = a.name ++ codes ":50051"

abbrev pub targets_of : Match → List Text
targets_of m = map target_of m.agents

abbrev pub nth {ℓ} : {A : Type ℓ} → ℕ → List A → Option A
nth i [] = none
nth zero (x ∷ xs) = some x
nth (suc i) (x ∷ xs) = nth i xs

module _ (str : ℕ → Text) where
  abbrev buffer_args : Option ℕ → List Text
  buffer_args none = []
  buffer_args (some n) = codes "--end-on-last-standing-buffer-steps" ∷ str n ∷ []

  abbrev longest_args : Match → List Text
  longest_args m =
      if m.end_on_last_standing_when_longest
      then codes "--end-on-last-standing-when-longest"
        ∷ buffer_args m.end_on_last_standing_buffer_steps
      else []

  -- `targets[dev_seat]`, which raises out of range
  abbrev dead_args : Match → Option ℕ → Option (List Text)
  dead_args m none = some []
  dead_args m (some seat) = elim (nth seat (targets_of m)) [
    | none ↦ none
    | some target ↦ some (
        codes "--end-when-dead-tag"
        ∷ target
        ∷ codes "--end-when-dead-buffer-steps"
        ∷ str m.end_when_dead_buffer_steps
        ∷ [])
  ]

  abbrev fixed_args : Text → List Text
  fixed_args address =
      codes "--ext-conn-timeout"
      ∷ codes "30.0"
      ∷ codes "--ext-init-timeout"
      ∷ codes "1.0"
      ∷ codes "--decision-timeout-ms"
      ∷ codes "0"
      ∷ codes "--no-render"
      ∷ codes "--no-record"
      ∷ codes "--snake-count"
      ∷ codes "0"
      ∷ codes "--socket-observer"
      ∷ address
      ∷ codes "--log-dir"
      ∷ codes "/tmp"
      ∷ codes "--log-level"
      ∷ codes "DEBUG"
      ∷ []

  abbrev after_targets : Match → Text → List Text
  after_targets m address = targets_of m ++ (fixed_args address ++ (m.sim_args ++ longest_args m))

  -- `full_sim_args`; none where the dev seat is out of range
  unfoldable pub full_sim_args : Match → Text → Option (List Text)
  full_sim_args m address = elim (dead_args m m.dev_seat) [
    | none ↦ none
    | some dead ↦ some (codes "compute" ∷ codes "--ext-targets" ∷ (after_targets m address ++ dead))
  ]

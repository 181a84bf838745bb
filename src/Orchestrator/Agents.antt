-- ===== src/Orchestrator/Agents.antt =====
-- services/orchestrator/orchestrator/agents.py: from the projects of a job to the setup of its match. The
-- text `f"agent_{i}"` is a function `agent_name` of the number.
use Prim.Native.String.{String}
use snake_arena.Prelude.{
  ℕ, suc, none, some, List, [], ◌∷◌, ◌++◌, ◌==◌, nat_key, string_key, if◌then◌else◌,
}
use snake_arena.Prelude.Dict.{Dict, insert}
use snake_arena.Prelude.Result.{Result, ok, err}
use snake_arena.Db.Projects.{Projects}
use snake_arena.Db.Projects.Reads.{get_project_meta}

pub record AgentSpec : Type 0 where
  pub image : ℕ
  pub name : String

-- `AgentSetup`
pub record AgentSetup : Type 0 where
  pub specs : List AgentSpec
  pub project_by_name : Dict String ℕ
  pub version_by_name : Dict String ℕ
  pub seat_by_name : Dict String ℕ

-- The messages of `SetupError`.
pub data SetupError : Type 0 where
  no_project_ids : SetupError
  not_found never_submitted no_submitted_image_tag no_dev_build not_submitted : ℕ → SetupError

abbrev empty_setup : AgentSetup
empty_setup = record { specs = []; project_by_name = []; version_by_name = []; seat_by_name = [] }

-- One seat more.
abbrev pub with_seat : String → ℕ → ℕ → ℕ → ℕ → AgentSetup → AgentSetup
with_seat name seat image project version s = record {
  specs = s.specs ++ record { image = image; name = name } ∷ [];
  project_by_name = insert name project s.project_by_name;
  version_by_name = insert name version s.version_by_name;
  seat_by_name = insert name seat s.seat_by_name;
}

module _ (agent_name : ℕ → String) (projects : Projects) where
  -- The loop of `resolve_agents`, from seat `i` on.
  unfoldable pub resolve_from : ℕ → List ℕ → AgentSetup → Result SetupError AgentSetup
  unfolding get_project_meta
  resolve_from i [] s = ok s
  resolve_from i (pid ∷ pids) s = elim (get_project_meta pid projects) [
    | none ↦ err (not_found pid)
    | some meta ↦
        if meta.submitted_version == 0
        then err (never_submitted pid)
        else elim meta.submitted_image_tag [
          | none ↦ err (no_submitted_image_tag pid)
          | some image ↦
              resolve_from (suc i) pids
                (with_seat (agent_name i) i image meta.id meta.submitted_version s)
        ]
  ]

  -- `resolve_agents`
  unfoldable pub resolve_agents : List ℕ → Result SetupError AgentSetup
  unfolding resolve_from
  resolve_agents [] = err no_project_ids
  resolve_agents (pid ∷ pids) = resolve_from 0 (pid ∷ pids) empty_setup

  -- The loop of `resolve_test_agents` over the opponents.
  unfoldable pub resolve_opponents : ℕ → List ℕ → AgentSetup → Result SetupError AgentSetup
  unfolding get_project_meta
  resolve_opponents i [] s = ok s
  resolve_opponents i (pid ∷ pids) s = elim (get_project_meta pid projects) [
    | none ↦ err (not_found pid)
    | some meta ↦
        if meta.submitted_version == 0
        then err (not_submitted pid)
        else elim meta.submitted_image_tag [
          | none ↦ err (not_submitted pid)
          | some image ↦
              resolve_opponents (suc i) pids
                (with_seat (agent_name i) i image meta.id meta.submitted_version s)
        ]
  ]

  -- `resolve_test_agents`: the player has seat 0 and version 0.
  unfoldable pub resolve_test_agents : ℕ → List ℕ → Result SetupError AgentSetup
  unfolding get_project_meta resolve_opponents
  resolve_test_agents player opponents = elim (get_project_meta player projects) [
    | none ↦ err (not_found player)
    | some meta ↦ elim meta.dev_image_tag [
      | none ↦ err (no_dev_build player)
      | some image ↦
          resolve_opponents 1 opponents (with_seat (agent_name 0) 0 image meta.id 0 empty_setup)
    ]
  ]

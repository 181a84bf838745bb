-- ===== src/Runner/Match/Sweep.antt =====
-- services/runner/runner/match.py: the labels of what a runner creates, and `sweep_orphan_resources`. What
-- docker lists and answers is given; an id is the list of its characters' codes.
pub mod Live
use snake_arena.Prelude.{
  ℕ, suc, ◌+◌, Bool, true, false, Option, none, some, List, [], ◌∷◌, map, take, ◌==◌, if◌then◌else◌,
}
use snake_arena.Prelude.Dict.{Dict}
use snake_arena.Types.{Text, text_key}
use snake_arena.Runner.Match.Docker.{Error, is_api_error}
use snake_arena.Runner.Match.Args.{codes}

-- `_resource_labels`
unfoldable pub resource_labels : Text → Dict Text Text
resource_labels runner_id =
    (codes "gridsnake.match_resource", codes "1") ∷ (codes "gridsnake.runner_id", runner_id) ∷ []

-- A container or a network of a listing, with its label of the runner.
pub record Listed : Type 0 where
  pub id : Text
  pub owner : Option Text

-- `{c["Id"][:12] for c in …}`
abbrev pub live_ids : List Text → List Text
live_ids ids = map (take 12) ids

abbrev pub is_live : Text → List Text → Bool
is_live owner [] = false
is_live owner (i ∷ is) = if i == owner then true else is_live owner is

-- `not (not owner or owner in live_ids)`
abbrev pub is_orphan : List Text → Option Text → Bool
is_orphan live none = false
is_orphan live (some []) = false
is_orphan live (some (c ∷ cs)) = if is_live (c ∷ cs) live then false else true

-- What was asked of docker, how many removals it did, and the exception that ended the loop.
pub record Swept : Type 0 where
  pub asked : List Listed
  pub swept : ℕ
  pub raised : Option Error

abbrev asking : Listed → ℕ → Swept → Swept
asking c n rest = record { asked = c ∷ rest.asked; swept = n + rest.swept; raised = rest.raised }

-- A loop over a listing: `answers` is what a removal raises.
unfoldable pub sweep : (Text → Option Error) → List Text → List Listed → Swept
sweep answers live [] = record { asked = []; swept = 0; raised = none }
sweep answers live (c ∷ cs) =
    let rest = sweep answers live cs in
    if is_orphan live c.owner
    then elim (answers c.id) [
      | none ↦ asking c 1 rest
      | some e ↦
          if is_api_error e
          then asking c 0 rest
          else record { asked = c ∷ []; swept = 0; raised = some e }
    ]
    else rest

abbrev then_sweep : Swept → Swept → Swept × Swept
then_sweep first second = elim first.raised [
  | none ↦ (first, second)
  | some e ↦ (first, record { asked = []; swept = 0; raised = some e })
]

-- `sweep_orphan_resources`: the ids of all containers, the labelled containers and the labelled networks.
unfoldable pub sweep_orphan_resources :
    (Text → Option Error) → List Text → List Listed → List Listed → Swept × Swept
unfolding sweep
sweep_orphan_resources answers ids containers networks =
    then_sweep (sweep answers (live_ids ids) containers) (sweep answers (live_ids ids) networks)

-- ===== src/Runner/Match/Play/Swept.antt =====
-- services/runner/runner/match.py: the containers and networks that a match leaves behind.
use snake_arena.Prelude.{◌≡◌, true, false, ◌||◌}
use snake_arena.Runner.Match.Docker.{Run, Daemon}
use snake_arena.Runner.Match.Keeps.{Keeps}
use snake_arena.Runner.Match.Resources.{Resource, made_in, removed_in, held}
use snake_arena.Runner.Match.Args.{Match}
use snake_arena.Runner.Match.Parts.{Outside}
use snake_arena.Runner.Match.Play.Quiet
use snake_arena.Runner.Match.Play.Steps
use snake_arena.Runner.Match.Play.Tracked.{Tracked, Unset}

module _ (d : Daemon) (o : Outside) (m : Match) (x : Resource) where
  abbrev weaken : (s : Run) → Unset x s → Tracked x false s
  weaken s p = p.0

  -- What a run holds when the clean-up starts.
  abbrev HeldAt : Run → Run → Type 0
  HeldAt t u = made_in x u.events ≡ true → (held t x || removed_in x u.events) ≡ true

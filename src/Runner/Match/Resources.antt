-- ===== src/Runner/Match/Resources.antt =====
-- services/runner/runner/match.py: which containers and networks the events of a match have made, which it
-- has tried to remove, and which its variables hold.
use snake_arena.Prelude.{
  ℕ, ◌≡◌, arith, Bool, true, false, ◌||◌, Option, none, some, List, [], ◌∷◌, nat_key, ◌==◌,
}
use snake_arena.Runner.Match.Docker.{
  Container, Network, Call, create_network, run_container, create_container, reload, kill, remove,
  remove_network, on_result, Reply, Event, Run, recorded,
}
use snake_arena.Types.{is_given}

pub data Resource : Type 0 where
  container : ℕ → Resource
  network : ℕ → Resource

abbrev pub is_container : ℕ → Resource → Bool
is_container i (container j) = i == j
is_container i (network j) = false

abbrev pub is_network : ℕ → Resource → Bool
is_network i (container j) = false
is_network i (network j) = i == j

-- The call was answered by a new resource, which is handed over.
abbrev pub made_by : Call → ℕ → Resource → Bool
made_by (create_network _ _) i x = is_network i x
made_by (run_container _) i x = is_container i x
made_by (create_container _ _ _ _) i x = is_container i x
made_by _ i x = false

abbrev pub makes : Event → Resource → Bool
makes e x = elim e.reply.error [ none ↦ made_by e.call e.reply.id x | some _ ↦ false ]

unfoldable pub made_in : Resource → List Event → Bool
made_in x [] = false
made_in x (e ∷ es) = makes e x || made_in x es

-- `containers.run` has raised after it may have created the container, and has not handed it over.
abbrev pub not_handed_by : Call → Bool → ℕ → Resource → Bool
not_handed_by (run_container _) true i x = is_container i x
not_handed_by _ raised i x = false

unfoldable pub not_handed_in : Resource → List Event → Bool
not_handed_in x [] = false
not_handed_in x (e ∷ es) =
    not_handed_by e.call (is_given e.reply.error) e.reply.id x || not_handed_in x es

-- Every resource that may exist by the calls of the match.
unfoldable pub created_in : Resource → List Event → Bool
unfolding made_in not_handed_in
created_in x es = made_in x es || not_handed_in x es

-- A removal, successful or not; or docker raised when the container was looked at or killed.
abbrev pub removal : Call → Bool → Resource → Bool
removal (remove i) raised x = is_container i x
removal (remove_network i) raised x = is_network i x
removal (reload i) true x = is_container i x
removal (kill i) true x = is_container i x
removal _ raised x = false

abbrev pub removes : Event → Resource → Bool
removes e x = removal e.call (is_given e.reply.error) x

unfoldable pub removed_in : Resource → List Event → Bool
removed_in x [] = false
removed_in x (e ∷ es) = removes e x || removed_in x es

abbrev pub any_of {ℓ} : {A : Type ℓ} → (A → Resource → Bool) → List A → Resource → Bool
any_of has [] x = false
any_of has (a ∷ rest) x = has a x || any_of has rest x

abbrev pub is_of : Container → Resource → Bool
is_of c = is_container c.id

abbrev pub is_net : Network → Resource → Bool
is_net n = is_network n.id

abbrev pub sim_is : Option Container → Resource → Bool
sim_is none x = false
sim_is (some c) x = is_of c x

-- The variables of the run hold it.
unfoldable pub held : Run → Resource → Bool
held s x = sim_is s.sim x || (any_of is_of s.agents x || any_of is_net s.networks x)

pub removed_in-recorded :
    (c : Call) (r : Reply) (x : Resource) (s : Run)
    → removed_in x s.events ≡ true
    → removed_in x (recorded c r s).events ≡ true
unfolding removed_in recorded
removed_in-recorded c r x s h = ground arith

-- Calls that make nothing and report no result.
abbrev pub is_quiet : Call → Bool
is_quiet (create_network _ _) = false
is_quiet (run_container _) = false
is_quiet (create_container _ _ _ _) = false
is_quiet on_result = false
is_quiet _ = true

-- What survives every quiet call.
abbrev pub Survives {ℓ} : (Run → Type ℓ) → Type ℓ
Survives P = (c : Call) → is_quiet c ≡ true → (r : Reply) (s : Run) → P s → P (recorded c r s)

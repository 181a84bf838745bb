-- ===== src/Runner/Match/Play/Tracked.antt =====
-- services/runner/runner/match.py: what a match has made is held by its variables or removed again.
use snake_arena.Prelude.{
  ℕ, sym, by_if, subst, Option-cases, inl, inr, ◌≡◌, arith, Bool, true, false, ◌||◌, Option, none,
  some, List, [], ◌∷◌, ◌++◌, nat_key, if◌then◌else◌,
}
use snake_arena.Prelude.Result.{Result, ok, err, by_result}
use snake_arena.Types.{Text}
use snake_arena.Runner.Match.Docker.{
  Error, other, is_api_error, Network, Call, create_network, run_container, create_container,
  remove, on_result, Reply, Run, Daemon, return, try, ◌>>=◌, recorded, answer, perform, do_call,
  attempt,
}
use snake_arena.Runner.Match.Keeps.{
  Keeps, Leads, finally_lead, Keeps-both, Keeps-bind, Keeps-return, Keeps-raise, Keeps-if,
}
use snake_arena.Runner.Match.Resources.{
  Resource, is_container, any_of, is_of, is_net, made_in, removed_in, held, Survives,
}
use snake_arena.Runner.Match.Ready.{create_probe, probe_targets, probe_or, wait_for_grpc_ready}
use snake_arena.Runner.Match.Args.{AgentSpec, Match, named, codes}
use snake_arena.Runner.Match.Parts.{
  Outside, push_network, push_agent, push_streamer, set_sim, set_observable,
}
use snake_arena.Runner.Match.Play.{options_of, create_net, start_agent, create_sim}
use snake_arena.Runner.Match.Play.Quiet.{wait_for_grpc-Keeps, connect_all-Keeps, run_probe-Keeps}

-- If the match has made it, then a variable holds it, or it is removed, or it is the one in hand.
abbrev pub Tracked : Resource → Bool → Run → Type 0
Tracked x in_hand s =
    made_in x s.events ≡ true → (in_hand || (held s x || removed_in x s.events)) ≡ true

any_of-append {ℓ} :
    {A : Type ℓ} (has : A → Resource → Bool) (xs : List A) (a : A) (x : Resource)
    → any_of has (xs ++ a ∷ []) x ≡ (any_of has xs x || has a x)
any_of-append has [] a x = ground arith
any_of-append has (y ∷ xs) a x = ground (arith, any_of-append has xs a x)

module _ (x : Resource) (b : Bool) where
  pub Tracked-survives : Survives (Tracked x b)
  unfolding made_in removed_in recorded held
  Tracked-survives _ q r s p = ground (arith, p)

  pub Tracked-reported :
      (r : Reply) (s : Run) → Tracked x b s → Tracked x b (recorded on_result r s)
  unfolding made_in removed_in recorded held
  Tracked-reported r s p = ground (arith, p)

-- There is no container of the simulation yet.
abbrev pub Unset : Resource → Run → Type 0
Unset x s = Tracked x false s × (s.sim ≡ none)

sim_survives : Survives (λ s. s.sim ≡ none)
unfolding recorded
sim_survives c q r s p = p

pub Unset-survives : (x : Resource) → Survives (Unset x)
unfolding recorded
Unset-survives x c q r s p = (Tracked-survives x false c q r s p.0, p.1)

module _ (d : Daemon) (x : Resource) where
  probe_made :
      (i n c : Text) (args : List Text) (s : Run)
      → Tracked x false s
      → let e = create_container i n c args in
        let r = d s.events e in Tracked x (is_container r.id x) (recorded e r s)
  unfolding made_in removed_in recorded held
  probe_made i n c args s p = ground (arith, p)

  probe_removed :
      (probe : ℕ) (s : Run)
      → Tracked x (is_container probe x) s
      → Tracked x false (attempt d (remove probe) s).1
  unfolding attempt recorded answer return made_in removed_in held
  probe_removed probe s p = ground (arith, p)

  probe_targets-Tracked :
      (probe : ℕ) (nets : List Network) (targets : List Text) (s : Run)
      → Tracked x (is_container probe x) s
      → Tracked x false (probe_targets d probe nets targets s).1
  unfolding probe_targets
  probe_targets-Tracked probe nets targets =
      let P = Tracked x (is_container probe x) in
      let survives = Tracked-survives x (is_container probe x) in
      let body = Keeps-bind P (connect_all-Keeps d P survives probe nets) λ connected.
        Keeps-if P connected (run_probe-Keeps d P survives probe targets)
          (Keeps-return P targets) in
      finally_lead P P (Tracked x false) _ (attempt d (remove probe)) body.keep
        (probe_removed probe)

  abbrev After : Result Error (Option ℕ) → Run → Type 0
  After (ok (some i)) t = Tracked x (is_container i x) t
  After (ok none) t = Tracked x false t
  After (err e) t = Tracked x false t

  module _ (image name network : Text) (args : List Text) (s : Run) where
    abbrev probe_call : Call
    probe_call = create_container image name network args

    abbrev probe_reply : Reply
    probe_reply = d s.events probe_call

    abbrev asked : Run
    asked = recorded probe_call probe_reply s

    probe_answered :
        probe_reply.error ≡ none
        → create_probe d image name network args s ≡ (ok (some probe_reply.id), asked)
    unfolding create_probe ◌>>=◌ try return perform answer
    probe_answered h = ground (arith, h)

    probe_refused :
        (e : Error)
        → probe_reply.error ≡ some e
        → create_probe d image name network args s
          ≡ (if is_api_error e then ok none else err e, asked)
    unfolding create_probe ◌>>=◌ try return perform answer
    probe_refused e h = ground (arith, h)

    probe_unmade :
        (e : Error) → probe_reply.error ≡ some e → Tracked x false s → Tracked x false asked
    unfolding made_in removed_in recorded held
    probe_unmade e h p = ground (arith, h, p)

    create_probe-After :
        Tracked x false s
        → After
            (create_probe d image name network args s).0
            (create_probe d image name network args s).1
    create_probe-After p = elim (Option-cases probe_reply.error) [
      | inl h ↦
          subst (λ y. After y.0 y.1) (sym (probe_answered h))
            (probe_made image name network args s p)
      | inr (e, h) ↦
          subst (λ y. After y.0 y.1) (sym (probe_refused e h))
            (by_if (λ y. After y asked) (is_api_error e) (ok none) (err e) (λ _. probe_unmade e h p)
              λ _. probe_unmade e h p)
    ]

  probe_or-After :
      (nets : List Network) (targets : List Text) (found : Option ℕ) (s : Run)
      → After (ok found) s
      → Tracked x false (probe_or d found nets targets s).1
  unfolding return
  probe_or-After nets targets none s p = p
  probe_or-After nets targets (some i) s p = probe_targets-Tracked i nets targets s p

  wait_for_grpc-Tracked :
      (image name limit : Text) (targets : List Text) (nets : List Network)
      → Keeps (Tracked x false) (wait_for_grpc_ready d image name limit targets nets)
  unfolding wait_for_grpc_ready ◌>>=◌
  wait_for_grpc-Tracked image name limit [] nets = Keeps-return (Tracked x false) []
  wait_for_grpc-Tracked image name limit (t ∷ ts) [] =
      Keeps-raise (Tracked x false) (List Text) other
  wait_for_grpc-Tracked image name limit (t ∷ ts) (net ∷ nets) = record {
    keep = λ s p.
        let c = create_probe d image name net.name (limit ∷ t ∷ ts) s in
        let q = create_probe-After image name net.name (limit ∷ t ∷ ts) s p in
        by_result (λ (y : Result Error (List Text) × Run). Tracked x false y.1) c.0
          (λ found. probe_or d found nets (t ∷ ts) c.1) (λ e. (err e, c.1))
          (λ found h. probe_or-After nets (t ∷ ts) found c.1 (subst (λ y. After y c.1) h q))
          λ e h. subst (λ y. After y c.1) h q;
  }

module _ (d : Daemon) (o : Outside) (m : Match) (x : Resource) where
  pub create_net-Tracked :
      (name : Text) (internal : Bool) → Keeps (Tracked x false) (create_net d o m name internal)
  unfolding create_net perform answer push_network ◌>>=◌ return made_in removed_in recorded held
  create_net-Tracked name internal = record {
    keep = λ s p.
        let r = d s.events (create_network name internal) in
        ground (arith, p, any_of-append is_net s.networks record { id = r.id; name = name } x);
  }

  pub start_agent-Tracked :
      (a : AgentSpec) (net : Network) → Keeps (Tracked x false) (start_agent d o m a net)
  unfolding start_agent perform answer push_agent push_streamer do_call ◌>>=◌ return made_in
      removed_in recorded held
  start_agent-Tracked a net = record {
    keep = λ s p.
        let r = d s.events (run_container (options_of d o m a net)) in
        ground
          (arith, p, any_of-append is_of s.agents record { id = r.id; name = named m a.name } x);
  }

  net_unset :
      (name : Text) (internal : Bool) → Keeps (λ s. s.sim ≡ none) (create_net d o m name internal)
  unfolding create_net perform answer push_network ◌>>=◌ return recorded
  net_unset name internal = record {
    keep = λ s p. let r = d s.events (create_network name internal) in ground (arith, p);
  }

  agent_unset :
      (a : AgentSpec) (net : Network) → Keeps (λ s. s.sim ≡ none) (start_agent d o m a net)
  unfolding start_agent perform answer push_agent push_streamer do_call ◌>>=◌ return recorded
  agent_unset a net = record { keep = λ s p. ground (arith, p) }

  pub create_net-Unset :
      (name : Text) (internal : Bool) → Keeps (Unset x) (create_net d o m name internal)
  create_net-Unset name internal =
      Keeps-both (Tracked x false) (λ s. s.sim ≡ none) (create_net-Tracked name internal)
        (net_unset name internal)

  pub start_agent-Unset :
      (a : AgentSpec) (net : Network) → Keeps (Unset x) (start_agent d o m a net)
  start_agent-Unset a net =
      Keeps-both (Tracked x false) (λ s. s.sim ≡ none) (start_agent-Tracked a net)
        (agent_unset a net)

  pub observable-Unset : Keeps (Unset x) set_observable
  unfolding set_observable held
  observable-Unset = record { keep = λ s p. p }

  -- The simulation's container takes the place of none.
  pub create_sim-Leads :
      (made : Text × List Text)
      → Leads (Unset x) (Tracked x false) (λ s p. p.0) (create_sim d o m made)
  unfolding create_sim perform answer set_sim ◌>>=◌ return made_in removed_in recorded held
  create_sim-Leads (network, args) = record {
    lead = λ s p. let name = named m (codes "sim") in ground (arith, p.0, p.1);
  }

  pub wait_for_grpc-Unset :
      (image name limit : Text) (targets : List Text) (nets : List Network)
      → Keeps (Unset x) (wait_for_grpc_ready d image name limit targets nets)
  unfolding recorded
  wait_for_grpc-Unset image name limit targets nets =
      Keeps-both (Tracked x false) (λ s. s.sim ≡ none)
        (wait_for_grpc-Tracked d x image name limit targets nets)
        (wait_for_grpc-Keeps d (λ s. s.sim ≡ none) sim_survives (λ i n c a r s p. p) image name
          limit targets nets)

-- ===== src/Runner/Match/Docker.antt =====
-- services/runner/runner/match.py: the calls that a match makes of docker, of the clock and of its
-- observers and callbacks. Each call is answered by an arbitrary function of the calls so far, and the events of a run
-- are kept, the last first. `containers.run` creates a container and starts it: where it raises, the reply's
-- id is the container that it may have created and does not hand over.
use snake_arena.Prelude.{ℕ, Bool, true, false, Option, none, some, List, [], ◌∷◌, nat_key}
use snake_arena.Prelude.Result.{Result, ok, err}
use snake_arena.Types.{Text}

pub data Status : Type 0 where
  running exited dead pending : Status

-- The classes of exceptions that the handlers tell apart.
pub data Error : Type 0 where
  image_not_found not_found api_error other interrupted stuck : Error

-- `except (NotFound, APIError)`: the two former are subclasses of `APIError`.
abbrev pub is_api_error : Error → Bool
is_api_error image_not_found = true
is_api_error not_found = true
is_api_error api_error = true
is_api_error _ = false

-- `except Exception`, which a `KeyboardInterrupt` is not.
abbrev pub is_exception : Error → Bool
is_exception interrupted = false
is_exception stuck = false
is_exception _ = true

pub record Container : Type 0 where
  pub id : ℕ
  pub name : Text

pub record Network : Type 0 where
  pub id : ℕ
  pub name : Text

-- The arguments of `containers.run` for an agent; `runsc`, `read_only`, `cap_drop`, `security_opt`,
-- `user` and the log cap are the same for each.
pub record AgentOptions : Type 0 where
  pub image : Text
  pub name : Text
  pub network : Text
  pub hostname : Text
  pub mem_limit : Text
  pub memswap_limit : Text
  pub nano_cpus : ℕ
  pub pids_limit : ℕ

pub data Call : Type 0 where
  create_network : Text → Bool → Call
  remove_network : ℕ → Call
  run_container : AgentOptions → Call
  create_container : Text → Text → Text → List Text → Call
  connect disconnect : ℕ → ℕ → Call
  get_container start reload wait kill read_logs remove : ℕ → Call
  start_streamer : ℕ → Call
  resolve_host set_agent_containers new_observable add_observers start_observable stop_observable :
      Call
  on_result clock sleep : Call

-- What a call answers: it raises, or the caller reads the part that the call is about.
pub record Reply : Type 0 where
  pub error : Option Error
  pub id : ℕ
  pub status : Status
  pub exit_code : ℕ
  pub output : Text
  pub time : ℕ

pub record Event : Type 0 where
  pub call : Call
  pub reply : Reply

abbrev pub Daemon : Type 0
Daemon = List Event → Call → Reply

-- The variables of `run_match` that its `finally` reads, with the events.
pub record Run : Type 0 where
  pub events : List Event
  pub networks : List Network
  pub agents : List Container
  pub streamed : List Container
  pub sim : Option Container
  pub observable : Bool

abbrev pub new_run : Run
new_run = record {
  events = [];
  networks = [];
  agents = [];
  streamed = [];
  sim = none;
  observable = false;
}

abbrev pub M {ℓ} : Type ℓ → Type ℓ
M A = Run → Result Error A × Run

module _ {ℓ} {A : Type ℓ} where
  unfoldable pub return : A → M A
  return a s = (ok a, s)

  unfoldable pub raise : Error → M A
  raise e s = (err e, s)

infixl 5 ◌>>=◌ ◌>>◌
unfoldable pub ◌>>=◌ {ℓ κ} : {A : Type ℓ} {B : Type κ} → M A → (A → M B) → M B
◌>>=◌ m f s = let r = m s in elim r.0 [ ok a ↦ f a r.1 | err e ↦ (err e, r.1) ]

abbrev pub ◌>>◌ {ℓ κ} : {A : Type ℓ} {B : Type κ} → M A → M B → M B
m >> k = m >>= λ _. k

-- `try: m except …: h`
unfoldable pub try {ℓ} : {A : Type ℓ} → M A → (Error → Bool) → (Error → M A) → M A
try m handles h s =
    let r = m s in
    elim r.0 [
      | ok a ↦ (ok a, r.1)
      | err e ↦ elim (handles e) [ true ↦ h e r.1 | false ↦ (err e, r.1) ]
    ]

-- `try: m finally: h`
unfoldable pub finally {ℓ κ} : {A : Type ℓ} {B : Type κ} → M A → M B → M A
finally m h s =
    let r = m s in let t = h r.1 in elim t.0 [ ok b ↦ (r.0, t.1) | err e ↦ (err e, t.1) ]

-- The event is kept, whether the call raises or not.
unfoldable pub recorded : Call → Reply → Run → Run
recorded c r s = record s { events = record { call = c; reply = r } ∷ s.events }

unfoldable pub answer : Reply → Result Error Reply
answer r = elim r.error [ none ↦ ok r | some e ↦ err e ]

module _ (d : Daemon) where
  unfoldable pub perform : Call → M Reply
  unfolding recorded answer
  perform c s = let r = d s.events c in (answer r, recorded c r s)

  -- The same, where the code ignores what the call returns.
  unfoldable pub do_call : Call → M (Unit {0})
  unfolding perform return ◌>>=◌
  do_call c = perform c >> return tt

  -- `try: … except (NotFound, APIError): pass`
  unfoldable pub attempt : Call → M (Unit {0})
  unfolding do_call try return
  attempt c = try (do_call c) is_api_error (λ e. return tt)

-- `_safe`
unfoldable pub safe : M (Unit {0}) → M (Unit {0})
unfolding try return
safe m = try m (λ e. true) (λ e. return tt)

-- `for x in xs: f(x)`
unfoldable pub for_each {ℓ} : {A : Type ℓ} → (A → M (Unit {0})) → List A → M (Unit {0})
unfolding return ◌>>=◌
for_each f [] = return tt
for_each f (x ∷ xs) = f x >> for_each f xs

-- ===== src/Runner/StepLog.antt =====
-- services/runner/runner/match.py: the agents' console output. `_StepLogStreamer` cuts a container's
-- output into frames while it is read, `_split_step_logs` does so afterwards. A text is the list of
-- its bytes; `decode(errors="replace")` is the identity on the ASCII texts that are modelled.
pub mod Split
pub mod Streamer
pub mod Full
pub mod Absorb
pub mod Frames
use snake_arena.Prelude.{
  ℕ, zero, suc, ◌+◌, ◌-◌, ◌*◌, Bool, true, false, ◌&&◌, ◌||◌, Option, none, some, List, [], ◌∷◌,
  ◌++◌, map, ◌==◌, nat_key, leb, ltb, length, take, drop, if◌then◌else◌,
}

abbrev pub Text : Type 0
Text = List ℕ

-- `_STEP_SEP`, "---STEP_END---\n"
abbrev pub step_sep : Text
step_sep =
    b'-' ∷ b'-' ∷ b'-' ∷ b'S' ∷ b'T' ∷ b'E' ∷ b'P' ∷ b'_' ∷ b'E' ∷ b'N' ∷ b'D' ∷ b'-' ∷ b'-' ∷ b'-'
    ∷ 10 ∷ []

abbrev pub step_stdout_budget : ℕ
step_stdout_budget = 10_000

abbrev pub startup_log_budget : ℕ
startup_log_budget = 16_000

abbrev pub match_log_cap : ℕ
match_log_cap = 10 * 1024 * 1024

-- Python's `bytes.find`, `str.split` and `str.strip`.
abbrev pub starts_with : Text → Text → Bool
starts_with [] l = true
starts_with (p ∷ ps) [] = false
starts_with (p ∷ ps) (c ∷ cs) = p == c && starts_with ps cs

abbrev up : Option ℕ → Option ℕ
up none = none
up (some i) = some (suc i)

unfoldable pub find : Text → Text → Option ℕ
find sep [] = if starts_with sep [] then some 0 else none
find sep (c ∷ cs) = if starts_with sep (c ∷ cs) then some 0 else up (find sep cs)

-- `text.split(sep)`, the first `skip` characters being the rest of a separator that was found, and
-- `acc` the piece so far.
unfoldable pub split_from : Text → ℕ → Text → Text → List Text
split_from sep skip acc [] = acc ∷ []
split_from sep (suc k) acc (c ∷ cs) = split_from sep k acc cs
split_from sep zero acc (c ∷ cs) = elim (starts_with sep (c ∷ cs)) [
  | true ↦ acc ∷ split_from sep (length sep - 1) [] cs
  | false ↦ split_from sep zero (acc ++ c ∷ []) cs
]

abbrev pub split : Text → Text → List Text
split sep text = split_from sep zero [] text

-- `not chunk.strip()`
unfoldable pub is_blank : Text → Bool
is_blank [] = true
is_blank (c ∷ cs) = ((leb 9 c && leb c 13) || (leb 28 c && leb c 32)) && is_blank cs

-- `if chunks and not chunks[-1].strip(): chunks = chunks[:-1]`
unfoldable pub drop_blank_last : List Text → List Text
unfolding is_blank
drop_blank_last [] = []
drop_blank_last (c ∷ []) = if is_blank c then [] else c ∷ []
drop_blank_last (c ∷ d ∷ cs) = c ∷ drop_blank_last (d ∷ cs)

-- `_split_step_logs`: `notice` is `_TRUNCATION_NOTICE`.
abbrev pub cap_chunk : ℕ → Text → Text → Text
cap_chunk budget notice chunk =
    if ltb budget (length chunk) then take budget chunk ++ notice else chunk

unfoldable pub split_step_logs : Text → ℕ → Text → Text → List Text
unfolding split_from drop_blank_last
split_step_logs sep budget notice text =
    map (cap_chunk budget notice) (drop_blank_last (split sep text))

-- `_tail_log`: `banner` is "[earlier output truncated]\n".
unfoldable pub tail_log : Text → ℕ → Text → Text
tail_log banner budget text =
    if leb (length text) budget then text else banner ++ drop (length text - budget) text

-- `_dev_step_logs`
unfoldable pub dev_step_logs : Text → Text → Text → Option Text → Option (List Text)
unfolding find is_blank split_step_logs tail_log
dev_step_logs sep notice banner none = none
dev_step_logs sep notice banner (some text) = if is_blank text then none else elim (find sep text) [
  | some i ↦ some (split_step_logs sep step_stdout_budget notice text)
  | none ↦ some (tail_log banner startup_log_budget text ∷ [])
]

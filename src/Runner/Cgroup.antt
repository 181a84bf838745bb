-- ===== src/Runner/Cgroup.antt =====
-- services/runner/runner/agent_container_manager.py: `_read_cpu_ns`, the reading of a container's
-- cumulative CPU time. The file system is the environment's: what stands at the two candidate paths.
use snake_arena.Prelude.{
  ℕ, ◌+◌, ◌-◌, ◌*◌, Bool, true, false, ◌&&◌, ◌||◌, Option, none, some, List, [], ◌∷◌, ◌++◌, leb,
  ◌==◌, nat_key, if◌then◌else◌,
}
use snake_arena.Prelude.Int.{ℤ, pos, ◌*ℤ◌, ◌-ℤ◌}
use snake_arena.Prelude.Result.{Result, ok, err}

-- A `cpu.stat` path: `path.exists()`, `path.read_text()` and `content.splitlines()`, each line as
-- its characters' codes.
pub data CgroupFile : Type 0 where
  missing unreadable : CgroupFile
  text : List (List ℕ) → CgroupFile

-- The four messages of the `ValueError`s that `_read_cpu_ns` raises.
pub data ReadError : Type 0 where
  no_id failed_to_read failed_to_parse no_usage_usec : ReadError

-- Whitespace for `str.split()`.
unfoldable is_space : ℕ → Bool
is_space c = (leb 9 c && leb c 13) || (leb 28 c && leb c 32)

abbrev emit : List ℕ → List (List ℕ) → List (List ℕ)
emit [] ws = ws
emit (c ∷ w) ws = (c ∷ w) ∷ ws

split_from : List ℕ → List ℕ → List (List ℕ)
unfolding is_space
split_from w [] = emit w []
split_from w (c ∷ cs) = elim (is_space c) [
  | true ↦ emit w (split_from [] cs)
  | false ↦ split_from (w ++ c ∷ []) cs
]

is_digit : ℕ → Bool
is_digit c = leb b'0' c && leb c b'9'

-- The digits of `int(token)`: one underscore may stand between two of them.
digits : Bool → ℕ → List ℕ → Option ℕ
unfolding is_digit
digits last acc [] = if last then some acc else none
digits last acc (c ∷ cs) = elim (is_digit c) [
  | true ↦ digits true (acc * 10 + (c - b'0')) cs
  | false ↦ elim (last && c == b'_') [ true ↦ digits false acc cs | false ↦ none ]
]

abbrev signed : (ℕ → ℤ) → Option ℕ → Option ℤ
signed f none = none
signed f (some n) = some (f n)

-- `int(token)` on a token of ASCII characters without whitespace.
int : List ℕ → Option ℤ
unfolding digits
int [] = none
int (c ∷ cs) =
    if c == b'-'
    then signed (λ n. pos 0 -ℤ pos n) (digits false 0 cs)
    else if c == b'+'
    then signed pos (digits false 0 cs)
    else signed pos (digits false 0 (c ∷ cs))

starts_with : List ℕ → List ℕ → Bool
starts_with [] l = true
starts_with (p ∷ ps) [] = false
starts_with (p ∷ ps) (c ∷ cs) = p == c && starts_with ps cs

-- "usage_usec"
abbrev pub usage_usec : List ℕ
usage_usec = b'u' ∷ b's' ∷ b'a' ∷ b'g' ∷ b'e' ∷ b'_' ∷ b'u' ∷ b's' ∷ b'e' ∷ b'c' ∷ []

-- `int(line.split()[1]) * 1000`, where an `IndexError` or a `ValueError` is raised again.
abbrev second_field : List (List ℕ) → Result ReadError ℤ
second_field [] = err failed_to_parse
second_field (w ∷ []) = err failed_to_parse
second_field (w ∷ v ∷ ws) = elim (int v) [ none ↦ err failed_to_parse | some n ↦ ok (1000 *ℤ n) ]

-- The loop over the lines of one file.
pub read_lines : List (List ℕ) → Result ReadError ℤ
unfolding split_from starts_with int
read_lines [] = err no_usage_usec
read_lines (line ∷ lines) = elim (starts_with usage_usec line) [
  | true ↦ second_field (split_from [] line)
  | false ↦ read_lines lines
]

-- The loop over the candidate paths.
pub read_files : List CgroupFile → Result ReadError ℤ
unfolding read_lines
read_files [] = err no_id
read_files (missing ∷ fs) = read_files fs
read_files (unreadable ∷ fs) = err failed_to_read
read_files (text lines ∷ fs) = read_lines lines

-- What the runner's host shows of a container: its docker id, and what stands at the systemd path
-- and at the cgroupfs path of that id.
pub record Host : Type 0 where
  pub id_of : ℕ → Option ℕ
  pub slice : ℕ → CgroupFile
  pub docker : ℕ → CgroupFile

abbrev candidates : Host → ℕ → List CgroupFile
candidates h i = h.slice i ∷ h.docker i ∷ []

unfoldable pub read_cpu_ns : Host → ℕ → Result ReadError ℤ
unfolding read_files
read_cpu_ns h container = elim (h.id_of container) [
  | none ↦ err no_id
  | some i ↦ read_files (candidates h i)
]

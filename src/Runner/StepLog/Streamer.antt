-- ===== src/Runner/StepLog/Streamer.antt =====
-- services/runner/runner/match.py: `_StepLogStreamer`. Its state with the calls of `on_step_log`
-- that it has made; an exception of the callback is caught there and changes nothing.
use snake_arena.Prelude.{
  ℕ, zero, suc, ◌+◌, ◌-◌, Bool, true, false, none, some, List, [], ◌∷◌, ◌++◌, ltb, leb, length,
  take, drop, if◌then◌else◌,
}
use snake_arena.Runner.StepLog.{Text, find}

-- What a streamer is made with.
pub record Config : Type 0 where
  pub sep : Text
  pub budget : ℕ
  pub notice : Text
  pub cap : ℕ
  pub live : Bool

pub record Streamer : Type 0 where
  pub full_log : Text
  pub full_truncated : Bool
  pub scan : Text
  pub kept : Text
  pub truncated : Bool
  pub frame : ℕ
  pub calls : List (ℕ × Text)

abbrev pub new_streamer : Streamer
new_streamer = record {
  full_log = [];
  full_truncated = false;
  scan = [];
  kept = [];
  truncated = false;
  frame = 0;
  calls = [];
}

module _ (c : Config) where
  -- `_append_full`
  unfoldable pub append_full : Text → Streamer → Streamer
  append_full chunk s =
      let room = c.cap - length s.full_log in
      if s.full_truncated
      then s
      else if leb c.cap (length s.full_log)
      then record s { full_truncated = true }
      else if leb (length chunk) room
      then record s { full_log = s.full_log ++ chunk }
      else record s { full_log = s.full_log ++ take room chunk; full_truncated = true }

  -- `absorb`, in `_run`
  unfoldable pub absorb : Text → Streamer → Streamer
  absorb b s =
      let room = c.budget - length s.kept in
      if s.truncated
      then s
      else if leb c.budget (length s.kept)
      then record s { truncated = true }
      else if leb (length b) room
      then record s { kept = s.kept ++ b }
      else record s { kept = s.kept ++ take room b; truncated = true }

  -- `emit`, in `_run`
  unfoldable pub emit : Streamer → Streamer
  emit s = record s {
    calls = s.calls ++ (s.frame, if s.truncated then s.kept ++ c.notice else s.kept) ∷ [];
    frame = s.frame + 1;
    kept = [];
    truncated = false;
  }

  -- One round of the inner loop, for a separator at `i`.
  abbrev pub segment : ℕ → Streamer → Streamer
  segment i s = record (emit (absorb (take i s.scan) s)) { scan = drop (i + length c.sep) s.scan }

  -- `while True:`, the loop over the complete segments; each round shortens `scan`.
  unfoldable pub drain : ℕ → Streamer → Streamer
  unfolding absorb emit
  drain zero s = s
  drain (suc fuel) s = elim (find c.sep s.scan) [ none ↦ s | some i ↦ drain fuel (segment i s) ]

  -- What is left after the loop: all but the last bytes, which may begin a separator.
  unfoldable pub keep_tail : Streamer → Streamer
  unfolding absorb
  keep_tail s =
      let cut = length s.scan - (length c.sep - 1) in
      if ltb (length c.sep - 1) (length s.scan)
      then record (absorb (take cut s.scan) s) { scan = drop cut s.scan }
      else s

  -- The body of `_run`'s loop, for one read; an empty read is skipped, and only a streamer with a
  -- callback looks for frames.
  unfoldable pub feed : Text → Streamer → Streamer
  unfolding append_full drain keep_tail
  feed [] s = s
  feed (x ∷ xs) s =
      let s1 = append_full (x ∷ xs) s in
      let s2 : Streamer = record s1 { scan = s1.scan ++ x ∷ xs } in
      if c.live then keep_tail (drain (suc (length s2.scan)) s2) else s1

  unfoldable pub stream : List Text → Streamer → Streamer
  unfolding feed
  stream [] s = s
  stream (d ∷ ds) s = stream ds (feed d s)

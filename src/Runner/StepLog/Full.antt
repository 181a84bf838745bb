-- ===== src/Runner/StepLog/Full.antt =====
-- services/runner/runner/match.py: the accumulated log of an agent, `get_full_log`.
use mathlib.Core.List.{append_assoc, append-nil, flatten}
use snake_arena.Prelude.{
  ℕ, suc, ◌-◌, ◌≤◌, ◌<◌, ◌≡◌, refl, sym, ap, ◌∙◌, List, [], ◌∷◌, ◌++◌, arith, ltb, leb, leb→le,
  ltb→lt, ltb→le, lt→ltb, length, take, length-append, length-take, take-append_le, take-append_ge,
  take-all, by_if, by_option, zero,
}
use snake_arena.Runner.StepLog.{Text, find}
use snake_arena.Runner.StepLog.Streamer.{
  Config, Streamer, new_streamer, append_full, absorb, emit, segment, drain, keep_tail, feed,
  stream,
}

-- `t` is all that was read: its first `cap` bytes are kept, and the mark says whether there were more.
record HasLogged (c : Config) (t : Text) (s : Streamer) : Type 0 where
  log : s.full_log ≡ take c.cap t
  mark : s.full_truncated ≡ ltb c.cap (length t)

module _ (c : Config) where
  append_full-HasLogged :
      (t b : Text) (s : Streamer)
      → 0 < length b
      → HasLogged c t s
      → HasLogged c (t ++ b) (append_full c b s)
  unfolding append_full
  append_full-HasLogged t b s some_bytes h =
      let n = length-append t b in
      let m = length-take c.cap t in
      by_if (HasLogged c (t ++ b)) s.full_truncated s _
        (λ over.
          let more : c.cap < length t = ltb→lt _ _ (sym h.mark ∙ over) in
          record {
            log = h.log ∙ sym (take-append_le c.cap t b (omega arith));
            mark = over ∙ sym (lt→ltb _ _ (omega (arith, n)));
          })
        λ under.
          let fits : length t ≤ c.cap = ltb→le _ _ (sym h.mark ∙ under) in
          let all : s.full_log ≡ t = h.log ∙ take-all c.cap t fits in
          let k : length s.full_log ≡ length t = ap length all in
          by_if (HasLogged c (t ++ b)) (leb c.cap (length s.full_log)) _ _
            (λ full. record {
              log = h.log ∙ sym (take-append_le c.cap t b (omega (arith, leb→le _ _ full)));
              mark = sym (lt→ltb _ _ (omega (arith, n, leb→le _ _ full)));
            })
            λ room.
              by_if (HasLogged c (t ++ b)) (leb (length b) (c.cap - length s.full_log)) _ _
                (λ whole. record {
                  log = rw all (sym (take-all c.cap (t ++ b) (ground (arith, n, k))));
                  mark = under ∙ sym (ground (arith, n, k));
                })
                λ cut. record {
                  log = rw (k, all) (sym (take-append_ge c.cap t b fits));
                  mark = sym (lt→ltb _ _ (ground (arith, n, k)));
                }

  -- The search for frames leaves the log alone.
  abbrev SameLog : Streamer → Streamer → Type 0
  SameLog s u = (u.full_log ≡ s.full_log) × (u.full_truncated ≡ s.full_truncated)

  absorb-SameLog : (b : Text) (s : Streamer) → SameLog s (absorb c b s)
  unfolding absorb
  absorb-SameLog b s = ground arith

  drain-SameLog : (fuel : ℕ) (s : Streamer) → SameLog s (drain c fuel s)
  unfolding drain emit
  drain-SameLog zero s = (refl, refl)
  drain-SameLog (suc fuel) s =
      by_option (SameLog s) (find c.sep s.scan) s _ (refl, refl)
        λ i e.
          let a = absorb-SameLog (take i s.scan) s in
          let r = drain-SameLog fuel (segment c i s) in (r.0 ∙ a.0, r.1 ∙ a.1)

  keep_tail-SameLog : (s : Streamer) → SameLog s (keep_tail c s)
  unfolding keep_tail
  keep_tail-SameLog s =
      let cut = length s.scan - (length c.sep - 1) in
      by_if (SameLog s) (ltb (length c.sep - 1) (length s.scan)) _ s
        (λ _. absorb-SameLog (take cut s.scan) s) (λ _. (refl, refl))

  feed-HasLogged : (t b : Text) (s : Streamer) → HasLogged c t s → HasLogged c (t ++ b) (feed c b s)
  unfolding feed
  feed-HasLogged t [] s h = rw append-nil h
  feed-HasLogged t (x ∷ xs) s h =
      let s1 = append_full c (x ∷ xs) s in
      let h1 = append_full-HasLogged t (x ∷ xs) s (omega arith) h in
      let s2 : Streamer = record s1 { scan = s1.scan ++ x ∷ xs } in
      let d = drain-SameLog (suc (length s2.scan)) s2 in
      let k = keep_tail-SameLog (drain c (suc (length s2.scan)) s2) in
      by_if (HasLogged c (t ++ x ∷ xs)) c.live _ s1
        (λ _. record { log = k.0 ∙ d.0 ∙ h1.log; mark = k.1 ∙ d.1 ∙ h1.mark }) (λ _. h1)

  stream-HasLogged :
      (t : Text) (ds : List Text) (s : Streamer)
      → HasLogged c t s
      → HasLogged c (t ++ flatten ds) (stream c ds s)
  unfolding stream flatten
  stream-HasLogged t [] s h = rw append-nil h
  stream-HasLogged t (d ∷ ds) s h =
      rw (← append_assoc t d (flatten ds))
        (stream-HasLogged (t ++ d) ds (feed c d s) (feed-HasLogged t d s h))

  -- With or without a callback, and however the output is cut into reads, the log is the first
  -- `cap` bytes of the whole output, and is marked as truncated exactly when there were more.
  pub stream-full_log :
      (ds : List Text)
      → ((stream c ds new_streamer).full_log ≡ take c.cap (flatten ds))
        × ((stream c ds new_streamer).full_truncated ≡ ltb c.cap (length (flatten ds)))
  stream-full_log ds =
      let h =
        stream-HasLogged [] ds new_streamer
          (record { log = sym (take-all c.cap [] (omega arith)); mark = ground arith }) in
      (h.log, h.mark)

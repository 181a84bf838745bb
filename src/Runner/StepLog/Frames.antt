-- ===== src/Runner/StepLog/Frames.antt =====
-- services/runner/runner/match.py: the frames of the live stream.
use mathlib.Core.List.{append_assoc, append-nil, map-append, flatten}
use mathlib.Core.Bool.{false≢true}
use snake_arena.Prelude.{
  ℕ, zero, suc, ◌+◌, ◌-◌, ◌≤◌, ◌<◌, ◌≡◌, ◌≢◌, refl, sym, ap, ◌∙◌, inl, inr, true, none, some, List,
  [], ◌∷◌, ◌++◌, map, arith, ltb, ltb→lt, length, take, Bool-cases, Option-cases, All, take-all,
  length-append, if◌then◌else◌, by_if,
}
use snake_arena.Runner.StepLog.{Text, find, split_from, split, cap_chunk}
use snake_arena.Runner.StepLog.Split.{
  split_from-cut, split_from-separator, split_from-none, find-drop, find-room, find-nil,
}
use snake_arena.Runner.StepLog.Streamer.{
  Config, Streamer, new_streamer, append_full, absorb, emit, segment, drain, keep_tail, feed,
  stream,
}
use snake_arena.Runner.StepLog.Absorb.{HasKept, absorb-HasKept, absorb-same}

-- The calls that show these frames, numbered from `n`.
abbrev pub numbered : ℕ → List Text → List (ℕ × Text)
numbered n [] = []
numbered n (x ∷ xs) = (n, x) ∷ numbered (n + 1) xs

-- All pieces but the last, which no separator has ended.
abbrev pub complete : List Text → List Text
complete [] = []
complete (x ∷ []) = []
complete (x ∷ y ∷ xs) = x ∷ complete (y ∷ xs)

complete-append : (xs : List Text) (y : Text) → complete (xs ++ y ∷ []) ≡ xs
complete-append [] y = refl
complete-append (x ∷ []) y = refl
complete-append (x ∷ z ∷ xs) y = ap (λ r. x ∷ r) (complete-append (z ∷ xs) y)

numbered-append :
    (n k : ℕ) (xs : List Text) (y : Text)
    → k ≡ n + length xs
    → numbered n (xs ++ y ∷ []) ≡ numbered n xs ++ (k, y) ∷ []
numbered-append n k [] y e = let e' : k ≡ n = omega arith in rw e'
numbered-append n k (x ∷ xs) y e =
    ap (λ r. (n, x) ∷ r) (numbered-append (n + 1) k xs y (omega arith))

-- No frame prints exactly as many bytes as the budget.
abbrev pub IsClear : ℕ → List Text → Type 0
IsClear budget = All (λ x. length x ≢ budget)

IsClear-append :
    (budget : ℕ) (xs : List Text) (y : Text)
    → IsClear budget (xs ++ y ∷ [])
    → IsClear budget xs × (length y ≢ budget)
IsClear-append budget [] y h = (tt, h.0)
IsClear-append budget (x ∷ xs) y h = let r = IsClear-append budget xs y h.1 in ((h.0, r.0), r.1)

length-map : (f : Text → Text) (xs : List Text) → length (map f xs) ≡ length xs
length-map f [] = refl
length-map f (x ∷ xs) = ap suc (length-map f xs)

module _ (c : Config) (pos : 0 < length c.sep) where
  abbrev shown : List Text → List Text
  shown cs = map (cap_chunk c.budget c.notice) cs

  drain-stop : (fuel : ℕ) (s : Streamer) → find c.sep s.scan ≡ none → drain c (suc fuel) s ≡ s
  unfolding drain
  drain-stop fuel s e = rw (e, drain)

  drain-go :
      (fuel i : ℕ) (s : Streamer)
      → find c.sep s.scan ≡ some i
      → drain c (suc fuel) s ≡ drain c fuel (segment c i s)
  unfolding drain
  drain-go fuel i s e = ground arith

  -- After the bytes `t`, the frames `cs` are complete and `a` has been absorbed of the next one.
  record Follows (t : Text) (cs : List Text) (a : Text) (s : Streamer) : Type 0 where
    law : (f : Text) → split c.sep (t ++ f) ≡ cs ++ split_from c.sep zero a (s.scan ++ f)
    has_kept : HasKept c a s
    number : s.frame ≡ length cs
    called : IsClear c.budget cs → s.calls ≡ numbered 0 (shown cs)

  -- What `emit` shows.
  abbrev frame_text : Streamer → Text
  frame_text s = if s.truncated then s.kept ++ c.notice else s.kept

  emit-shown :
      (a : Text) (s : Streamer)
      → HasKept c a s
      → length a ≢ c.budget
      → frame_text s ≡ cap_chunk c.budget c.notice a
  emit-shown a s h ne = elim (Bool-cases (ltb c.budget (length a))) [
    | inl more ↦ rw (h.over (ltb→lt _ _ more), more, h.kept)
    | inr fits ↦ elim (Bool-cases s.truncated) [
      | inl t ↦ absurd (ground (arith, h.reached t))
      | inr live ↦
          let le : length a ≤ c.budget = ground arith in
          rw (live, fits, h.kept) (take-all c.budget a le)
    ]
  ]

  segment-Follows :
      (t : Text) (cs : List Text) (a : Text) (i : ℕ) (s : Streamer)
      → find c.sep s.scan ≡ some i
      → Follows t cs a s
      → Follows t (cs ++ (a ++ take i s.scan) ∷ []) [] (segment c i s)
  unfolding emit
  segment-Follows t cs a i s e h =
      let x = a ++ take i s.scan in
      let s1 = absorb c (take i s.scan) s in
      let same = absorb-same c (take i s.scan) s in
      let k = absorb-HasKept c a (take i s.scan) s h.has_kept in
      record {
        law = λ f.
            h.law f
            ∙ ap (λ r. cs ++ r) (split_from-separator c.sep a s.scan f i pos e)
            ∙ sym (append_assoc cs (x ∷ []) _);
        has_kept = record {
          kept = sym (take-all c.budget [] (omega arith));
          over = λ m. absurd (omega arith);
          reached = λ t. absurd (false≢true t);
        };
        number = omega (arith, same.1, h.number, length-append cs (x ∷ []));
        called = λ clear.
            let (cl, ne) = IsClear-append c.budget cs x clear in
            let n : s1.frame ≡ 0 + length (shown cs) =
              omega (arith, same.1, h.number, length-map (cap_chunk c.budget c.notice) cs) in
            rw map-append (
              ap (λ (r : List (ℕ × Text)). r ++ (s1.frame, frame_text s1) ∷ [])
                (same.2 ∙ h.called cl)
              ∙ ap (λ (y : Text). numbered 0 (shown cs) ++ (s1.frame, y) ∷ [])
                  (emit-shown x s1 k ne)
              ∙ sym (numbered-append 0 s1.frame (shown cs) (cap_chunk c.budget c.notice x) n));
      }

  -- The frames and the rest of the current one, after some bytes.
  abbrev IsAt : Text → Streamer → Type 0
  IsAt t s = (cs : List Text) × (a : Text) × Follows t cs a s × (find c.sep s.scan ≡ none)

  drain-IsAt :
      (t : Text) (fuel : ℕ) (cs : List Text) (a : Text) (s : Streamer)
      → length s.scan < fuel
      → Follows t cs a s
      → IsAt t (drain c fuel s)
  drain-IsAt t zero cs a s m h = absurd (omega arith)
  drain-IsAt t (suc fuel) cs a s m h = elim (Option-cases (find c.sep s.scan)) [
    | inl e ↦ rw (drain-stop fuel s e) (cs, a, h, e)
    | inr (i, e) ↦ rw (drain-go fuel i s e) (
        drain-IsAt t fuel (cs ++ (a ++ take i s.scan) ∷ []) [] (segment c i s)
          (omega (arith, find-room c.sep s.scan i e pos)) (segment-Follows t cs a i s e h))
  ]

  keep_tail-IsAt : (t : Text) (s : Streamer) → IsAt t s → IsAt t (keep_tail c s)
  unfolding keep_tail
  keep_tail-IsAt t s (cs, a, h, e) =
      let cut = length s.scan - (length c.sep - 1) in
      let b = take cut s.scan in
      let same = absorb-same c b s in
      by_if (IsAt t) (ltb (length c.sep - 1) (length s.scan)) _ s
        (λ long. (
          cs,
          a ++ b,
          record {
            law = λ f.
                h.law f
                ∙ ap (λ r. cs ++ r)
                    (split_from-cut c.sep a s.scan f cut e (omega (arith, ltb→lt _ _ long)));
            has_kept =
                let k = absorb-HasKept c a b s h.has_kept in
                record { kept = k.kept; over = k.over; reached = k.reached };
            number = same.1 ∙ h.number;
            called = λ clear. same.2 ∙ h.called clear;
          },
          find-drop c.sep cut s.scan pos e,
        ))
        (λ short. (cs, a, h, e))

  append_full-same :
      (b : Text) (s : Streamer)
      → ((append_full c b s).scan ≡ s.scan)
        × ((append_full c b s).kept ≡ s.kept)
        × ((append_full c b s).truncated ≡ s.truncated)
        × ((append_full c b s).frame ≡ s.frame)
        × ((append_full c b s).calls ≡ s.calls)
  unfolding append_full
  append_full-same b s = ground arith

  -- A read of a streamer with a callback.
  feed-IsAt : (t b : Text) (s : Streamer) → c.live ≡ true → IsAt t s → IsAt (t ++ b) (feed c b s)
  unfolding feed
  feed-IsAt t [] s live h = rw append-nil h
  feed-IsAt t (x ∷ xs) s live (cs, a, h, e) =
      let s1 = append_full c (x ∷ xs) s in
      let same = append_full-same (x ∷ xs) s in
      let s2 : Streamer = record s1 { scan = s1.scan ++ x ∷ xs } in
      by_if (IsAt (t ++ x ∷ xs)) c.live _ s1
        (λ _. keep_tail-IsAt (t ++ x ∷ xs) _ (
          drain-IsAt (t ++ x ∷ xs) (suc (length s2.scan)) cs a s2 (omega arith) (record {
            law = λ f.
                ap (λ r. split c.sep r) (append_assoc t (x ∷ xs) f)
                ∙ h.law (x ∷ xs ++ f)
                ∙ ap (λ r. cs ++ split_from c.sep zero a r)
                    (sym (append_assoc s.scan (x ∷ xs) f)
                      ∙ ap (λ r. (r ++ x ∷ xs) ++ f) (sym same.0));
            has_kept = record {
              kept = same.1 ∙ h.has_kept.kept;
              over = λ m. same.2 ∙ h.has_kept.over m;
              reached = λ t. h.has_kept.reached (sym same.2 ∙ t);
            };
            number = same.3 ∙ h.number;
            called = λ clear. same.4 ∙ h.called clear;
          })))
        (λ off. absurd (false≢true (sym off ∙ live)))

  stream-IsAt :
      (t : Text) (ds : List Text) (s : Streamer)
      → c.live ≡ true
      → IsAt t s
      → IsAt (t ++ flatten ds) (stream c ds s)
  unfolding stream flatten
  stream-IsAt t [] s live h = rw append-nil h
  stream-IsAt t (d ∷ ds) s live h =
      rw (← append_assoc t d (flatten ds))
        (stream-IsAt (t ++ d) ds (feed c d s) live (feed-IsAt t d s live h))

  -- However the output is cut into reads, the live stream shows frame after frame the pieces of the
  -- whole output that a separator ends, each capped as `_split_step_logs` caps it, if no such
  -- piece has exactly as many bytes as the budget.
  pub stream-frames :
      (ds : List Text)
      → c.live ≡ true
      → IsClear c.budget (complete (split c.sep (flatten ds)))
      → (stream c ds new_streamer).calls
        ≡ numbered 0 (map (cap_chunk c.budget c.notice) (complete (split c.sep (flatten ds))))
  stream-frames ds live clear =
      let (cs, a, h, e) = stream-IsAt [] ds new_streamer live ([], [], fresh, find-nil c.sep pos) in
      let pieces : split c.sep (flatten ds) ≡ cs ++ (a ++ (stream c ds new_streamer).scan) ∷ [] =
        ap (λ r. split c.sep r) (sym (append-nil (flatten ds)))
        ∙ h.law []
        ∙ ap (λ r. cs ++ split_from c.sep zero a r) (append-nil _)
        ∙ ap (λ r. cs ++ r) (split_from-none c.sep a _ e) in
      let done = ap complete pieces ∙ complete-append cs _ in rw done (h.called (rw done at clear))
    where
      fresh : Follows [] [] [] new_streamer
      fresh = record {
        law = λ f. refl;
        has_kept = record {
          kept = sym (take-all c.budget [] (omega arith));
          over = λ m. absurd (omega arith);
          reached = λ t. absurd (false≢true t);
        };
        number = refl;
        called = λ clear. refl;
      }

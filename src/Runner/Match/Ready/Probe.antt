-- ===== src/Runner/Match/Ready/Probe.antt =====
-- services/runner/runner/match.py: the line that the probe script prints, and what `_wait_for_grpc_ready`
-- reads of it.
use snake_arena.Prelude.{
  ℕ, ◌≡◌, ◌≢◌, refl, arith, false, some, List, [], ◌∷◌, ◌++◌, All, All-weaken,
}
use mathlib.Core.List.{append-nil, append_assoc}
use snake_arena.Types.{Text}
use snake_arena.Runner.Match.Ready.{
  not_ready, is_break, is_space, lines_from, word_then, words_from, read_probe,
}

-- `' '.join(pending)`, and the line that the script writes with it
unfoldable pub join_words : List Text → Text
join_words [] = []
join_words (w ∷ []) = w
join_words (w ∷ v ∷ ws) = w ++ b' ' ∷ join_words (v ∷ ws)

unfoldable pub probe_line : List Text → Text
unfolding join_words
probe_line pending = (not_ready ++ b' ' ∷ join_words pending) ++ 10 ∷ []

abbrev pub IsUnspaced : ℕ → Type 0
IsUnspaced c = is_space c ≡ false

-- A text that `split` leaves whole.
abbrev pub IsWord : Text → Type 0
IsWord w = (w ≢ []) × All IsUnspaced w

abbrev IsUnbroken : ℕ → Type 0
IsUnbroken c = is_break c ≡ false

words_from-word :
    (acc w rest : Text)
    → All IsUnspaced w
    → words_from acc (w ++ b' ' ∷ rest) ≡ word_then (acc ++ w) (words_from [] rest)
unfolding words_from
words_from-word acc [] rest all = rw (append-nil acc)
words_from-word acc (c ∷ w) rest all =
    ground (arith, all.0, words_from-word (acc ++ c ∷ []) w rest all.1, append_assoc acc (c ∷ []) w)

words_from-last : (acc w : Text) → All IsUnspaced w → words_from acc w ≡ word_then (acc ++ w) []
unfolding words_from
words_from-last acc [] all = rw (append-nil acc)
words_from-last acc (c ∷ w) all =
    ground (arith, all.0, words_from-last (acc ++ c ∷ []) w all.1, append_assoc acc (c ∷ []) w)

word_then-word : (w : Text) (ws : List Text) → w ≢ [] → word_then w ws ≡ w ∷ ws
word_then-word [] ws h = absurd (h refl)
word_then-word (c ∷ w) ws h = refl

words_from-join : (ws : List Text) → All IsWord ws → words_from [] (join_words ws) ≡ ws
unfolding words_from join_words
words_from-join [] all = refl
words_from-join (w ∷ []) all = rw (words_from-last [] w all.0.1) (word_then-word w [] all.0.0)
words_from-join (w ∷ v ∷ ws) all =
    rw (words_from-word [] w (join_words (v ∷ ws)) all.0.1)
      (rw (words_from-join (v ∷ ws) all.1) (word_then-word w (v ∷ ws) all.0.0))

lines_from-line :
    (acc w : Text) → All IsUnbroken w → lines_from acc (w ++ 10 ∷ []) ≡ (acc ++ w) ∷ [] ∷ []
unfolding lines_from
lines_from-line acc [] all = rw (append-nil acc)
lines_from-line acc (c ∷ w) all =
    ground (arith, all.0, lines_from-line (acc ++ c ∷ []) w all.1, append_assoc acc (c ∷ []) w)

IsUnbroken-append : (v w : Text) → All IsUnspaced v → All IsUnbroken w → All IsUnbroken (v ++ w)
IsUnbroken-append [] w hv hw = hw
IsUnbroken-append (c ∷ v) w hv hw = (ground (arith, hv.0), IsUnbroken-append v w hv.1 hw)

join-IsUnbroken : (ws : List Text) → All IsWord ws → All IsUnbroken (join_words ws)
unfolding join_words
join-IsUnbroken [] all = tt
join-IsUnbroken (w ∷ []) all = All-weaken IsUnspaced IsUnbroken w (λ c h. ground arith) all.0.1
join-IsUnbroken (w ∷ v ∷ ws) all =
    IsUnbroken-append w _ all.0.1 (refl, join-IsUnbroken (v ∷ ws) all.1)

not_ready-IsUnspaced : All IsUnspaced not_ready
not_ready-IsUnspaced = (refl, (refl, (refl, (refl, (refl, (refl, (refl, (refl, (refl, tt)))))))))

print-IsUnbroken :
    (pending : List Text)
    → All IsWord pending
    → All IsUnbroken (not_ready ++ b' ' ∷ join_words pending)
print-IsUnbroken pending all =
    IsUnbroken-append not_ready (b' ' ∷ join_words pending) not_ready-IsUnspaced
      (refl, join-IsUnbroken pending all)

-- What the probe prints for targets without blanks is read back as just those targets.
pub read_probe-probe_line :
    (pending : List Text) → All IsWord pending → read_probe (probe_line pending) ≡ some pending
unfolding read_probe probe_line
read_probe-probe_line pending all =
    rw (lines_from-line [] (not_ready ++ b' ' ∷ join_words pending) (print-IsUnbroken pending all))
      (rw (words_from-word [] not_ready (join_words pending) not_ready-IsUnspaced)
        (rw (words_from-join pending all)))

-- ===== src/Runner/StepLog/Split.antt =====
-- services/runner/runner/match.py: how `find` and `split` read a text that is still growing.
use snake_arena.Prelude.{
  ℕ, zero, suc, ◌+◌, ◌-◌, ◌≤◌, ◌<◌, ◌≡◌, refl, ap, true, false, none, some, [], ◌∷◌, ◌++◌, arith,
  length-drop, nat_key, length, take, drop, ◌∙◌,
}
use mathlib.Core.List.{append-nil, append_assoc}
use native.Mathlib.Nat.{zero-add, suc-add}
use snake_arena.Runner.StepLog.{Text, starts_with, find, split_from}

-- A text that already differs from the separator stays different however it goes on.
starts_with-append_false :
    (sep l f : Text)
    → length sep ≤ length l
    → starts_with sep l ≡ false
    → starts_with sep (l ++ f) ≡ false
starts_with-append_false [] l f h e = cc
starts_with-append_false (p ∷ ps) [] f h e = absurd (omega arith)
starts_with-append_false (p ∷ ps) (c ∷ cs) f h e =
    ground (arith, starts_with-append_false ps cs f (omega arith))

starts_with-append : (sep l f : Text) → starts_with sep l ≡ true → starts_with sep (l ++ f) ≡ true
starts_with-append [] l f e = refl
starts_with-append (p ∷ ps) [] f e = cc
starts_with-append (p ∷ ps) (c ∷ cs) f e = ground (arith, starts_with-append ps cs f)

starts_with-length : (sep l : Text) → starts_with sep l ≡ true → length sep ≤ length l
starts_with-length [] l e = omega arith
starts_with-length (p ∷ ps) [] e = cc
starts_with-length (p ∷ ps) (c ∷ cs) e = ground (arith, starts_with-length ps cs)

find-length : (sep l : Text) (i : ℕ) → find sep l ≡ some i → i + length sep ≤ length l
unfolding find
find-length sep [] i e = ground (arith, starts_with-length sep [])
find-length sep (c ∷ cs) i e = grind (arith, starts_with-length sep (c ∷ cs), find-length sep cs)

split_from-skip :
    (sep s acc r : Text) → split_from sep (length s) acc (s ++ r) ≡ split_from sep zero acc r
unfolding split_from
split_from-skip sep [] acc r = refl
split_from-skip sep (c ∷ s) acc r = split_from-skip sep s acc r

starts_with-drop : (sep l : Text) → starts_with sep l ≡ true → l ≡ sep ++ drop (length sep) l
starts_with-drop [] l e = refl
starts_with-drop (p ∷ ps) [] e = cc
starts_with-drop (p ∷ ps) (c ∷ cs) e = ground (arith, starts_with-drop ps cs)

pub drop-add : (i n : ℕ) (l : Text) → drop (i + n) l ≡ drop n (drop i l)
drop-add zero n l = rw zero-add
drop-add (suc i) n [] = ground (arith, drop-nil (suc i + n), drop-nil n)
  where
    drop-nil : (k : ℕ) → drop {A = ℕ} k [] ≡ []
    drop-nil zero = refl
    drop-nil (suc k) = refl
drop-add (suc i) n (c ∷ cs) = rw suc-add (drop-add i n cs)

split_from-miss :
    (sep acc : Text) (c : ℕ) (cs : Text)
    → starts_with sep (c ∷ cs) ≡ false
    → split_from sep zero acc (c ∷ cs) ≡ split_from sep zero (acc ++ c ∷ []) cs
unfolding split_from
split_from-miss sep acc c cs e = ground arith

split_from-hit :
    (p : ℕ) (ps acc : Text) (c : ℕ) (cs : Text)
    → starts_with (p ∷ ps) (c ∷ cs) ≡ true
    → split_from (p ∷ ps) zero acc (c ∷ cs) ≡ acc ∷ split_from (p ∷ ps) (length ps) [] cs
unfolding split_from
split_from-hit p ps acc c cs e =
    let n : length (p ∷ ps) - 1 ≡ length ps = omega arith in rw (← n) (ground arith)

find-none :
    (sep : Text) (c : ℕ) (cs : Text)
    → find sep (c ∷ cs) ≡ none
    → (starts_with sep (c ∷ cs) ≡ false) × (find sep cs ≡ none)
unfolding find
find-none sep c cs e = ground arith

find-some :
    (sep : Text) (c : ℕ) (cs : Text) (i : ℕ)
    → find sep (c ∷ cs) ≡ some (suc i)
    → (starts_with sep (c ∷ cs) ≡ false) × (find sep cs ≡ some i)
unfolding find
find-some sep c cs i e = ground arith

find-zero :
    (sep : Text) (c : ℕ) (cs : Text)
    → find sep (c ∷ cs) ≡ some zero
    → starts_with sep (c ∷ cs) ≡ true
unfolding find
find-zero sep c cs e = ground arith

-- Where no separator is found, what cannot be the start of one may be put to the piece.
pub split_from-cut :
    (sep acc s f : Text) (k : ℕ)
    → find sep s ≡ none
    → k + length sep ≤ suc (length s)
    → split_from sep zero acc (s ++ f) ≡ split_from sep zero (acc ++ take k s) (drop k s ++ f)
split_from-cut sep acc s f zero e h = rw append-nil
split_from-cut sep acc [] f (suc k) e h = rw append-nil
split_from-cut sep acc (c ∷ cs) f (suc k) e h =
    let miss = find-none sep c cs e in
    split_from-miss sep acc c (cs ++ f)
      (starts_with-append_false sep (c ∷ cs) f (omega arith) miss.0)
    ∙ split_from-cut sep (acc ++ c ∷ []) cs f k miss.1 (omega arith)
    ∙ ap (λ a. split_from sep zero a (drop k cs ++ f)) (append_assoc acc (c ∷ []) (take k cs))

-- Where a separator is found, it ends the piece.
pub split_from-found :
    (p : ℕ) (ps acc s f : Text) (i : ℕ)
    → find (p ∷ ps) s ≡ some i
    → split_from (p ∷ ps) zero acc (s ++ f)
      ≡ (acc ++ take i s) ∷ split_from (p ∷ ps) zero [] (drop (length (p ∷ ps)) (drop i s) ++ f)
split_from-found p ps acc [] f i e = absurd (unfold find in cc)
split_from-found p ps acc (c ∷ cs) f zero e =
    let hit = find-zero (p ∷ ps) c cs e in
    let tail : starts_with ps cs ≡ true = ground arith in
    rw append-nil (
      split_from-hit p ps acc c (cs ++ f) (starts_with-append (p ∷ ps) (c ∷ cs) f hit)
      ∙ ap (λ r. acc ∷ split_from (p ∷ ps) (length ps) [] (r ++ f)) (starts_with-drop ps cs tail)
      ∙ ap (λ r. acc ∷ split_from (p ∷ ps) (length ps) [] r)
          (append_assoc ps (drop (length ps) cs) f)
      ∙ ap (λ r. acc ∷ r) (split_from-skip (p ∷ ps) ps [] (drop (length ps) cs ++ f)))
split_from-found p ps acc (c ∷ cs) f (suc i) e =
    let miss = find-some (p ∷ ps) c cs i e in
    let room = find-length (p ∷ ps) cs i miss.1 in
    split_from-miss (p ∷ ps) acc c (cs ++ f)
      (starts_with-append_false (p ∷ ps) (c ∷ cs) f (omega arith) miss.0)
    ∙ split_from-found p ps (acc ++ c ∷ []) cs f i miss.1
    ∙ ap (λ a. a ∷ split_from (p ∷ ps) zero [] (drop (length (p ∷ ps)) (drop i cs) ++ f))
        (append_assoc acc (c ∷ []) (take i cs))

pub split_from-separator :
    (sep acc s f : Text) (i : ℕ)
    → 0 < length sep
    → find sep s ≡ some i
    → split_from sep zero acc (s ++ f)
      ≡ (acc ++ take i s) ∷ split_from sep zero [] (drop (i + length sep) s ++ f)
split_from-separator [] acc s f i pos e = absurd (omega arith)
split_from-separator (p ∷ ps) acc s f i pos e =
    rw (drop-add i (length (p ∷ ps)) s) (split_from-found p ps acc s f i e)

-- A text without the separator is one piece.
pub split_from-none :
    (sep acc s : Text) → find sep s ≡ none → split_from sep zero acc s ≡ (acc ++ s) ∷ []
split_from-none sep acc [] e = unfold split_from in rw append-nil
split_from-none sep acc (c ∷ cs) e =
    let miss = find-none sep c cs e in
    split_from-miss sep acc c cs miss.0
    ∙ split_from-none sep (acc ++ c ∷ []) cs miss.1
    ∙ ap (λ a. a ∷ []) (append_assoc acc (c ∷ []) cs)

pub find-nil : (sep : Text) → 0 < length sep → find sep [] ≡ none
find-nil [] pos = absurd (omega arith)
find-nil (p ∷ ps) pos = unfold find in refl

pub find-drop :
    (sep : Text) (k : ℕ) (s : Text)
    → 0 < length sep
    → find sep s ≡ none
    → find sep (drop k s) ≡ none
find-drop sep zero s pos e = e
find-drop sep (suc k) [] pos e = find-nil sep pos
find-drop sep (suc k) (c ∷ cs) pos e = find-drop sep k cs pos (find-none sep c cs e).1

pub find-room :
    (sep s : Text) (i : ℕ)
    → find sep s ≡ some i
    → 0 < length sep
    → length (drop (i + length sep) s) < length s
find-room sep s i e pos = omega (arith, find-length sep s i e, length-drop (i + length sep) s)

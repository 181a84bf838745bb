-- ===== src/Runner/Match/Console/Banner.antt =====
-- services/runner/runner/match.py: where the note on a kill stands on the console.
use snake_arena.Prelude.{
  ℕ, zero, suc, ◌-◌, ◌≡◌, ◌∙◌, refl, arith, Option, List, [], ◌∷◌, ◌++◌, length, length-append,
  take, take-append_le, take-all, drop, max,
}
use snake_arena.Types.{Text}
use snake_arena.Runner.Match.Console.{blanks, logs_or, with_note}

length-blanks : (n : ℕ) → length (blanks n) ≡ n
length-blanks zero = refl
length-blanks (suc n) = omega (arith, length-blanks n)

drop-append {ℓ} : {A : Type ℓ} (n : ℕ) (xs ys : List A) → length xs ≡ n → drop n (xs ++ ys) ≡ ys
drop-append zero [] ys h = refl
drop-append zero (x ∷ xs) ys h = absurd (omega arith)
drop-append (suc n) [] ys h = absurd (omega arith)
drop-append (suc n) (x ∷ xs) ys h = drop-append n xs ys (omega arith)

-- The banner is the last entry, at the later of the steps that the manager saw and of those that the
-- agent has printed; what the agent printed stands before it as it was.
pub with_note-last :
    (note : Text) (seen : ℕ) (dev_logs : Option (List Text))
    → let logs = logs_or dev_logs in
      (drop (max seen (length logs)) (with_note note seen dev_logs) ≡ note ∷ [])
      × (take (length logs) (with_note note seen dev_logs) ≡ logs)
unfolding with_note
with_note-last note seen dev_logs =
    let logs = logs_or dev_logs in
    let n = max seen (length logs) - length logs in
    (
      drop-append _ (logs ++ blanks n) (note ∷ [])
          (omega (arith, length-append logs (blanks n), length-blanks n)),
      take-append_le _ (logs ++ blanks n) (note ∷ []) (omega (arith, length-append logs (blanks n)))
          ∙ take-append_le _ logs (blanks n) (omega arith)
          ∙ take-all _ logs (omega arith),
    )

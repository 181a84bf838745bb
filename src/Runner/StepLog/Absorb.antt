-- ===== src/Runner/StepLog/Absorb.antt =====
-- services/runner/runner/match.py: what `absorb` has kept of the bytes that it was given.
use snake_arena.Prelude.{
  ◌-◌, ◌≤◌, ◌<◌, ◌≡◌, refl, sym, ap, ◌∙◌, inl, inr, true, false, ◌++◌, arith, leb, length, take,
  Bool-cases, length-append, length-take, take-append_le, take-append_ge, take-all, by_if, ltb,
  ltb→lt, leb→le,
}
use mathlib.Core.Bool.{false≢true}
use snake_arena.Runner.StepLog.{Text}
use snake_arena.Runner.StepLog.Streamer.{Config, Streamer, absorb}

-- `a` is what the current frame has printed so far: its first `budget` bytes are kept, and the mark
-- of truncation is set when there were more, and only when the budget was reached.
pub record HasKept (c : Config) (a : Text) (s : Streamer) : Type 0 where
  pub kept : s.kept ≡ take c.budget a
  pub over : c.budget < length a → s.truncated ≡ true
  pub reached : s.truncated ≡ true → c.budget ≤ length a

module _ (c : Config) (a b : Text) (s : Streamer) (h : HasKept c a s) where
  size : (length s.kept ≤ length a) × (length s.kept ≤ c.budget)
  size = rw h.kept (omega (arith, length-take c.budget a))

  -- Beyond the budget nothing more is kept.
  reached-HasKept :
      (u : Streamer)
      → c.budget ≤ length a
      → u.kept ≡ s.kept
      → u.truncated ≡ true
      → HasKept c (a ++ b) u
  reached-HasKept u le same t = record {
    kept = same ∙ h.kept ∙ sym (take-append_le c.budget a b le);
    over = λ _. t;
    reached = λ _. omega (arith, length-append a b);
  }

  -- Within the budget all of it has been kept.
  all_kept : s.truncated ≡ false → (length a ≤ c.budget) × (s.kept ≡ a)
  all_kept live = elim (Bool-cases (ltb c.budget (length a))) [
    | inl more ↦ absurd (false≢true (sym live ∙ h.over (ltb→lt _ _ more)))
    | inr fits ↦
        let le : length a ≤ c.budget = ground arith in (le, h.kept ∙ take-all c.budget a le)
  ]

  pub absorb-HasKept : HasKept c (a ++ b) (absorb c b s)
  unfolding absorb
  absorb-HasKept =
      by_if (HasKept c (a ++ b)) s.truncated s _ (λ t. reached-HasKept s (h.reached t) refl t)
        λ live.
          let (le, eq) = all_kept live in
          by_if (HasKept c (a ++ b)) (leb c.budget (length s.kept)) _ _
            (λ full.
              reached-HasKept (record s { truncated = true })
                (omega (arith, leb→le _ _ full, size.0)) refl refl)
            λ room.
              let n : length s.kept ≡ length a = ap length eq in
              by_if (HasKept c (a ++ b)) (leb (length b) (c.budget - length s.kept)) _ _
                (λ fits.
                  let le' : length (a ++ b) ≤ c.budget =
                    omega (arith, n, le, length-append a b, leb→le _ _ fits) in
                  record {
                    kept = rw eq (sym (take-all c.budget (a ++ b) le'));
                    over = λ more. absurd (omega arith);
                    reached = λ t. absurd (false≢true (sym live ∙ t));
                  })
                λ cut. record {
                  kept = rw (n, eq) (sym (take-append_ge c.budget a b le));
                  over = λ _. refl;
                  reached = λ _. ground (arith, length-append a b, n, le);
                }

-- `absorb` touches neither the unread bytes nor the frames.
pub absorb-same :
    (c : Config) (b : Text) (s : Streamer)
    → ((absorb c b s).scan ≡ s.scan)
      × ((absorb c b s).frame ≡ s.frame)
      × ((absorb c b s).calls ≡ s.calls)
unfolding absorb
absorb-same c b s = ground arith

-- ===== src/Types/RoundTrip.antt =====
-- services/sa_common/sa_common/types.py: what `from_args` reads of what `to_args` writes.
use snake_arena.Prelude.{◌≡◌, Option, none, some}
use snake_arena.Prelude.Int.{ℤ}
use snake_arena.Prelude.Result.{ok}
use snake_arena.Types.{Text, SimArgs, validate_dims, pairs, to_args, from_args}

module _ (str : ℤ → Text) (parse : Text → Option ℤ) (reads : (n : ℤ) → parse (str n) ≡ some n) where
  from_fields :
      (food : ℤ) (height width : Option ℤ) (map : Option Text)
      → let a : SimArgs = record {
        food = food;
        grid_height = height;
        grid_width = width;
        map = map;
      } in
        validate_dims a ≡ ok a → from_args str parse (to_args str parse a) ≡ ok a
  unfolding validate_dims to_args from_args pairs
  from_fields food none none none valid = rw (reads food)
  from_fields food none none (some m) valid = rw (reads food)
  from_fields food (some h) (some w) none valid = rw (reads food, reads h, reads w)
  from_fields food none (some w) m valid = cc
  from_fields food (some h) none m valid = cc
  from_fields food (some h) (some w) (some m) valid = cc

  -- Arguments that are valid come back from their command line as they were, if the numbers do.
  pub from_args-to_args :
      (a : SimArgs) → validate_dims a ≡ ok a → from_args str parse (to_args str parse a) ≡ ok a
  from_args-to_args a valid = from_fields a.food a.grid_height a.grid_width a.map valid

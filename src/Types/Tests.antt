-- ===== src/Types/Tests.antt =====
-- Runs of the model of services/sa_common/sa_common/types.py at concrete inputs. A number is written as
-- one digit of a large base.
use snake_arena.Prelude.{◌≡◌, refl, Option, none, some, [], ◌∷◌}
use snake_arena.Prelude.Int.{ℤ, pos, negsuc}
use snake_arena.Prelude.Result.{ok}
use snake_arena.Types.{Text, SimArgs, validate_dims, to_args, from_args}
use snake_arena.Types.RoundTrip.{from_args-to_args}

abbrev digit : ℤ → Text
digit (pos n) = n ∷ []
digit (negsuc n) = b'-' ∷ n ∷ []

abbrev read_digit : Text → Option ℤ
read_digit [] = none
read_digit (n ∷ []) = some (pos n)
read_digit (c ∷ n ∷ rest) = some (negsuc n)

read_digit-digit : (n : ℤ) → read_digit (digit n) ≡ some n
read_digit-digit (pos n) = refl
read_digit-digit (negsuc n) = refl

abbrev small_grid : SimArgs
small_grid = record {
  food = pos 15;
  grid_height = some (pos 32);
  grid_width = some (pos 40);
  map = none;
}

small_grid_valid : validate_dims small_grid ≡ ok small_grid
unfolding validate_dims
small_grid_valid = refl

from_args-to_args_example :
    from_args digit read_digit (to_args digit read_digit small_grid) ≡ ok small_grid
from_args-to_args_example =
    from_args-to_args digit read_digit read_digit-digit small_grid small_grid_valid

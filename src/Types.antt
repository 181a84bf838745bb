-- ===== src/Types.antt =====
-- services/sa_common/sa_common/types.py: `SimArgs`, which travels as the command line of the sim, and
-- `ParticipantRow`. A text is the list of its characters' codes.
pub mod RoundTrip
mod Tests
use snake_arena.Prelude.{
  ℕ, ◌≡◌, ◌↔◌, Bool, true, false, ◌&&◌, ◌||◌, not, Option, none, some, List, [], ◌∷◌, ◌++◌, map,
  arith, ◌==◌, Key, nat_key, refl, ap, if◌then◌else◌,
}
use Prim.Native.String.{String}
use snake_arena.Prelude.Int.{ℤ}
use snake_arena.Prelude.Dict.{Dict, lookup, insert}
use snake_arena.Prelude.Result.{Result, ok, err}

abbrev pub Text : Type 0
Text = List ℕ

abbrev pub text_beq : Text → Text → Bool
text_beq [] [] = true
text_beq (c ∷ cs) (d ∷ ds) = c == d && text_beq cs ds
text_beq _ _ = false

pub text_beq_iff : (s t : Text) → (text_beq s t ≡ true) ↔ (s ≡ t)
text_beq_iff [] [] = ((λ h. refl), λ h. refl)
text_beq_iff [] (d ∷ ds) = ((λ h. cc), λ h. cc)
text_beq_iff (c ∷ cs) [] = ((λ h. cc), λ h. cc)
text_beq_iff (c ∷ cs) (d ∷ ds) = ground (arith, text_beq_iff cs ds)

instance abbrev pub text_key : Key Text
text_key = record { same = text_beq; same_iff = text_beq_iff }

-- `SimArgs`
pub record SimArgs : Type 0 where
  pub food : ℤ
  pub grid_height : Option ℤ
  pub grid_width : Option ℤ
  pub map : Option Text

abbrev pub is_given {ℓ} : {A : Type ℓ} → Option A → Bool
is_given none = false
is_given (some a) = true

pub data ArgsError : Type 0 where
  one_dimension map_and_dimensions not_pairs not_an_option missing not_a_number : ArgsError

abbrev differ : Bool → Bool → Bool
differ true b = not b
differ false b = b

-- `validate_dims`
unfoldable pub validate_dims : SimArgs → Result ArgsError SimArgs
validate_dims a =
    if differ (is_given a.grid_height) (is_given a.grid_width)
    then err one_dimension
    else if is_given a.grid_height && is_given a.map
    then err map_and_dimensions
    else ok a

-- The names of the fields.
abbrev food_name : Text
food_name = b'f' ∷ b'o' ∷ b'o' ∷ b'd' ∷ []

abbrev grid_height_name : Text
grid_height_name = b'g' ∷ b'r' ∷ b'i' ∷ b'd' ∷ b'_' ∷ b'h' ∷ b'e' ∷ b'i' ∷ b'g' ∷ b'h' ∷ b't' ∷ []

abbrev grid_width_name : Text
grid_width_name = b'g' ∷ b'r' ∷ b'i' ∷ b'd' ∷ b'_' ∷ b'w' ∷ b'i' ∷ b'd' ∷ b't' ∷ b'h' ∷ []

abbrev map_name : Text
map_name = b'm' ∷ b'a' ∷ b'p' ∷ []

-- `key.replace(a, b)`
abbrev pub replace : ℕ → ℕ → Text → Text
replace a b [] = []
replace a b (c ∷ cs) = (if c == a then b else c) ∷ replace a b cs

-- `--key value`, for a field that is not None.
abbrev option_of : Text → Option Text → List Text
option_of name none = []
option_of name (some value) = (b'-' ∷ b'-' ∷ replace b'_' b'-' name) ∷ value ∷ []

abbrev shown : (ℤ → Text) → Option ℤ → Option Text
shown str none = none
shown str (some n) = some (str n)

-- `key.startswith("--")`, then `key[2:].replace("-", "_")`
abbrev pub field_of : Text → Option Text
field_of (c ∷ d ∷ cs) = if c == b'-' && d == b'-' then some (replace b'-' b'_' cs) else none
field_of _ = none

-- The loop over the pairs; `data[key] = value` keeps the last value of a key.
pub pairs : List Text → Dict Text Text → Result ArgsError (Dict Text Text)
pairs [] fields = ok fields
pairs (key ∷ []) fields = err not_pairs
pairs (key ∷ value ∷ args) fields = elim (field_of key) [
  | none ↦ err not_an_option
  | some name ↦ pairs args (insert name value fields)
]

abbrev is_odd : List Text → Bool
is_odd [] = false
is_odd (a ∷ []) = true
is_odd (a ∷ b ∷ args) = is_odd args

-- `str` on an int, and how pydantic reads an int from a string.
module _ (str : ℤ → Text) (parse : Text → Option ℤ) where
  -- `to_args`: the fields in order, without those that are None.
  unfoldable pub to_args : SimArgs → List Text
  to_args a =
      option_of food_name (some (str a.food))
      ++ option_of grid_height_name (shown str a.grid_height)
      ++ option_of grid_width_name (shown str a.grid_width)
      ++ option_of map_name a.map

  abbrev optional_int : Option Text → Result ArgsError (Option ℤ)
  optional_int none = ok none
  optional_int (some t) = elim (parse t) [ none ↦ err not_a_number | some n ↦ ok (some n) ]

  abbrev required_int : Option Text → Result ArgsError ℤ
  required_int none = err missing
  required_int (some t) = elim (parse t) [ none ↦ err not_a_number | some n ↦ ok n ]

  -- `cls.model_validate(fields)`: the fields, then the validator. Other keys are ignored.
  unfoldable pub model_validate : Dict Text Text → Result ArgsError SimArgs
  unfolding validate_dims
  model_validate fields = elim (required_int (lookup food_name fields)) [
    | err e ↦ err e
    | ok food ↦ elim (optional_int (lookup grid_height_name fields)) [
      | err e ↦ err e
      | ok height ↦ elim (optional_int (lookup grid_width_name fields)) [
        | err e ↦ err e
        | ok width ↦ validate_dims (record {
          food = food;
          grid_height = height;
          grid_width = width;
          map = lookup map_name fields;
        })
      ]
    ]
  ]

  -- `from_args`
  unfoldable pub from_args : List Text → Result ArgsError SimArgs
  unfolding pairs model_validate
  from_args args =
      if is_odd args
      then err not_pairs
      else elim (pairs args []) [ err e ↦ err e | ok fields ↦ model_validate fields ]

-- `ParticipantRow`, whose metrics are numbers of the type `W`.
pub record ParticipantRow (W : Type 0) : Type 0 where
  pub seat : ℕ
  pub project_id : ℕ
  pub project_version : ℕ
  pub final_length : Option ℕ
  pub fatal_step : Option ℕ
  pub survival_rank : Option ℕ
  pub killed_by_budget : Bool
  pub metrics : Dict String W

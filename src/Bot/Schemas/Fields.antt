-- ===== src/Bot/Schemas/Fields.antt =====
-- bot/app/api/schemas.py, the checks of single fields. Python's own readers of decimals and of
-- instants, and its test for space, are parameters.
use ludora.Common.{
  ℕ, Bool, true, false, List, [], ◌∷◌, ◌++◌, Option, none, some, Text, codes, print_decimal, ltb,
  ◌==◌, all, if◌then◌else◌,
}
use ludora.Json.{Json, empty, integer, number, text, array, object, Members, get, elements}
use ludora.Bot.Outcome.{Outcome, returned, ◌>>=◌, valid}

-- `decimal.Decimal`: a finite one has a sign, a coefficient, the number of its decimal places and the
-- number of zeros behind its coefficient.
pub data Decimal : Type 0 where
  finite : Bool → ℕ → ℕ → ℕ → Decimal
  not_finite : Decimal

pub record Datetime : Type 0 where
  pub instant : ℕ
  pub has_tzinfo : Bool

-- `Decimal(text)`, `datetime.fromisoformat(text)`, nothing where they raise, and `c.isspace()`.
pub record Formats : Type 0 where
  pub decimal : Text → Option Decimal
  pub fromisoformat : Text → Option Datetime
  pub is_space : ℕ → Bool

-- `not text.strip()`
abbrev pub is_blank_text : Formats → Text → Bool
is_blank_text formats t = all formats.is_space t

-- `text.replace("Z", "+00:00")`
abbrev pub replace_z : Text → Text
replace_z [] = []
replace_z (c ∷ cs) = let rest = replace_z cs in if c == 90 then codes "+00:00" ++ rest else c ∷ rest

-- `isinstance(value, dict)`
abbrev pub as_object : Option Json → Option Members
as_object (some (object members)) = some members
as_object _ = none

-- `isinstance(value, list)`
abbrev pub as_list : Option Json → Option (List Json)
as_list (some (array values)) = some (elements values)
as_list _ = none

-- `isinstance(value, str)`
abbrev pub as_string : Option Json → Option Text
as_string (some (text t)) = some t
as_string _ = none

-- `value is None`, for `value.get(key)` too.
abbrev pub is_null : Option Json → Bool
is_null none = true
is_null (some empty) = true
is_null _ = false

-- An integer from 0 on that is not a Boolean.
abbrev pub as_count : Option Json → Option ℕ
as_count (some (integer n)) = some n
as_count _ = none

-- An integer from 1 on that is not a Boolean.
abbrev pub as_positive : Option Json → Option ℕ
as_positive (some (integer n)) = if ltb 0 n then some n else none
as_positive _ = none

-- A text that is not empty.
abbrev pub as_required : Option Json → Option Text
as_required (some (text (c ∷ cs))) = some (c ∷ cs)
as_required _ = none

-- `str(value)`, where it can be a decimal's.
abbrev pub number_text : Option Json → Option Text
number_text (some (text t)) = some t
number_text (some (integer n)) = some (print_decimal n)
number_text (some (number t)) = some t
number_text _ = none

abbrev pub finite_decimal : Option Decimal → Option Decimal
finite_decimal (some (finite s c p z)) = some (finite s c p z)
finite_decimal _ = none

abbrev pub aware : Option Datetime → Option Datetime
aware none = none
aware (some d) = if d.has_tzinfo then some d else none

-- `_optional_string`
unfoldable pub optional_string : Text → Members → Outcome (Option Text)
optional_string key value =
    if is_null (get key value)
    then returned none
    else do item ← valid (as_string (get key value)); returned (some item)

-- `_required_string`
unfoldable pub required_string : Text → Members → Outcome Text
required_string key value = valid (as_required (get key value))

-- `_string`
unfoldable pub string : Text → Members → Outcome Text
string key value = valid (as_string (get key value))

-- `_datetime`
unfoldable pub datetime : Formats → Text → Members → Outcome Datetime
datetime formats key value = do
  item ← valid (as_string (get key value))
  valid (aware (formats.fromisoformat (replace_z item)))

-- `_optional_datetime`
unfoldable pub optional_datetime : Formats → Text → Members → Outcome (Option Datetime)
unfolding datetime
optional_datetime formats key value =
    if is_null (get key value)
    then returned none
    else do item ← datetime formats key value; returned (some item)

-- `_positive_int`
unfoldable pub positive_int : Text → Members → Outcome ℕ
positive_int key value = valid (as_positive (get key value))

-- `_decimal`
unfoldable pub decimal : Formats → Text → Members → Outcome Decimal
decimal formats key value = do
  item ← valid (number_text (get key value))
  valid (finite_decimal (formats.decimal item))

-- `tuple(read(item) for item in items)`
abbrev pub each : {A : Type 0} → (Json → Outcome A) → List Json → Outcome (List A)
each read [] = returned []
each read (item ∷ items) = do value ← read item; rest ← each read items; returned (value ∷ rest)

-- ===== src/Json.antt =====
-- Decoded JSON values, as `json.loads` returns them: the bodies of webhook deliveries in
-- backend/apps/payments/webhooks.py and of the responses in bot/app/api/client.py.
use ludora.Common.{ℕ, Bool, List, [], ◌∷◌, Option, none, some, Text, ◌=ᵗ◌, if◌then◌else◌}

mutual
  -- A decoded JSON value: null, a Boolean, an integer from 0 on, another number with its `str`, a
  -- text, a list or a dictionary.
  pub data Json : Type 0 where
    empty : Json
    boolean : Bool → Json
    integer : ℕ → Json
    number : Text → Json
    text : Text → Json
    array : Elements → Json
    object : Members → Json

  pub data Elements : Type 0 where
    end : Elements
    element : Json → Elements → Elements

  -- The members of a dictionary.
  pub data Members : Type 0 where
    nil : Members
    member : Text → Json → Members → Members

-- `mapping.get(name)`
unfoldable pub get : Text → Members → Option Json
get name nil = none
get name (member n value rest) =
    let found = get name rest in if n =ᵗ name then some value else found

-- The elements of a list, and a list with them.
abbrev pub elements : Elements → List Json
elements end = []
elements (element value rest) = value ∷ elements rest

abbrev pub array_of : List Json → Elements
array_of [] = end
array_of (value ∷ rest) = element value (array_of rest)

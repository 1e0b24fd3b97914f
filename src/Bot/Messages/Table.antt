-- ===== src/Bot/Messages/Table.antt =====
-- The rows of bot/app/localization/messages.py, and the form of their templates.
use ludora.Common.{
  not, ◌&&◌, is_none, ◌≡◌, refl, arith, ◌∙◌, Bool, true, false, List, [], ◌∷◌, ◌++◌, Option, none,
  some, Text, String, codes, ◌=ᵗ◌, ◌==◌, if◌then◌else◌,
}

-- `MESSAGES[…][key]`
abbrev pub message : String → String → Text × Text
message key template = (codes key, codes template)

abbrev pub lookup : Text → List (Text × Text) → Option Text
lookup key [] = none
lookup key ((name, value) ∷ rows) =
    let rest = lookup key rows in if name =ᵗ key then some value else rest

-- `first or second`, for texts: an empty one counts as none.
abbrev pub or_else : Option Text → Option Text → Option Text
or_else (some (c ∷ cs)) second = some (c ∷ cs)
or_else _ second = second

abbrev pub prepend : Text → Option Text → Option Text
prepend front none = none
prepend front (some rest) = some (front ++ rest)

abbrev pub insert : Option Text → Option Text → Option Text
insert none rest = none
insert (some value) rest = prepend value rest

-- `template.format(**values)` for templates with plain names in braces; nothing where it raises
-- `KeyError` or `ValueError`. The second
-- argument is the name that is being read.
abbrev pub format_from : List (Text × Text) → Option Text → Text → Option Text
format_from values none [] = some []
format_from values (some name) [] = none
format_from values none (c ∷ cs) =
    let opened = format_from values (some []) cs in
    let rest = format_from values none cs in
    if c == 123 then opened else if c == 125 then none else prepend (c ∷ []) rest
format_from values (some name) (c ∷ cs) =
    let closed = format_from values none cs in
    let longer = format_from values (some (name ++ c ∷ [])) cs in
    if c == 125 then insert (lookup name values) closed else longer

abbrev pub format_template : List (Text × Text) → Text → Option Text
format_template values = format_from values none

-- The names in the braces of a template.
abbrev pub names_from : Option Text → Text → List Text
names_from _ [] = []
names_from none (c ∷ cs) =
    let opened = names_from (some []) cs in
    let rest = names_from none cs in if c == 123 then opened else rest
names_from (some name) (c ∷ cs) =
    let closed = names_from none cs in
    let longer = names_from (some (name ++ c ∷ [])) cs in if c == 125 then name ∷ closed else longer

abbrev pub names_of : Text → List Text
names_of = names_from none

-- Whether the braces of a template are paired.
abbrev pub is_template : Option Text → Text → Bool
is_template none [] = true
is_template (some name) [] = false
is_template none (c ∷ cs) =
    let opened = is_template (some []) cs in
    let rest = is_template none cs in if c == 123 then opened else if c == 125 then false else rest
is_template (some name) (c ∷ cs) =
    let closed = is_template none cs in
    let longer = is_template (some (name ++ c ∷ [])) cs in if c == 125 then closed else longer

-- Whether the values have each name.
abbrev pub have : List (Text × Text) → List Text → Bool
have values [] = true
have values (name ∷ names) = not (is_none (lookup name values)) && have values names

is_none-prepend : (front : Text) (rest : Option Text) → is_none (prepend front rest) ≡ is_none rest
is_none-prepend front none = refl
is_none-prepend front (some rest) = refl

is_none-insert :
    (value rest : Option Text)
    → is_none value ≡ false
    → is_none rest ≡ false
    → is_none (insert value rest) ≡ false
is_none-insert none rest h k = cc
is_none-insert (some value) rest h k = is_none-prepend value rest ∙ k

pub format_from-cases :
    (values : List (Text × Text)) (reading : Option Text) (t : Text)
    → is_template reading t ≡ true
    → have values (names_from reading t) ≡ true
    → is_none (format_from values reading t) ≡ false
format_from-cases values none [] h k = refl
format_from-cases values (some name) [] h k = cc
format_from-cases values none (c ∷ cs) h k = ground (
  arith,
  h,
  k,
  format_from-cases values (some []) cs,
  format_from-cases values none cs,
  is_none-prepend (c ∷ []) (format_from values none cs),
)
format_from-cases values (some name) (c ∷ cs) h k = ground (
  arith,
  h,
  k,
  format_from-cases values none cs,
  format_from-cases values (some (name ++ c ∷ [])) cs,
  is_none-insert (lookup name values) (format_from values none cs),
)

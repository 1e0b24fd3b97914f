-- ===== src/Tests/Readers.antt =====
-- Readers of prices and instants that agree with what the API writes.
use ludora.Common.{
  append_assoc, ℕ, ◌+◌, ◌/◌, ◌%◌, zero, suc, true, not, ◌≡◌, refl, ap, ◌∙◌, [], ◌∷◌, ◌++◌, some,
  Text, codes, filter, all, length, is_digit, is_decimal, is_decimal-print, print_decimal,
  parse_decimal, parse-print_decimal, parse_decimal-append_two, print_digit, ◌==◌, arith,
}
use ludora.Emails.{print_price}
use ludora.Bot.Schemas.Fields.{Formats, replace_z}
use ludora.OrdersApi.{Stamps}
use ludora.OrdersApi.Decoded.{Agrees, price, instant_of}

abbrev without_point : Text → Text
without_point = filter λ c. not (c == 46)

without_point-append :
    (s t : Text) → all is_digit s ≡ true → without_point (s ++ t) ≡ s ++ without_point t
without_point-append [] t h = refl
without_point-append (c ∷ s) t h = ground (arith, h, without_point-append s t)

all-is_decimal : (s : Text) → is_decimal s ≡ true → all is_digit s ≡ true
all-is_decimal s h = ground (arith, h)

digits_stay : (x y : ℕ) → without_point (46 ∷ (48 + x) ∷ (48 + y) ∷ []) ≡ (48 + x) ∷ (48 + y) ∷ []
digits_stay x y = ground arith

-- The text of a price: the units, a point, and two digits.
abbrev digits_of : ℕ → Text
digits_of cents =
    print_decimal (cents / 100) ++ 46 ∷ (48 + cents % 100 / 10) ∷ (48 + cents % 10) ∷ []

print_price-digits : (cents : ℕ) → print_price (some cents) ≡ digits_of cents
print_price-digits cents =
    rw (print_digit (cents % 100 / 10) (omega arith), print_digit (cents % 10) (omega arith))
      (append_assoc (print_decimal (cents / 100) ++ codes ".") ((48 + cents % 100 / 10) ∷ [])
          ((48 + cents % 10) ∷ [])
        ∙ append_assoc (print_decimal (cents / 100)) (codes ".")
            ((48 + cents % 100 / 10) ∷ (48 + cents % 10) ∷ []))

-- A price read back from its text.
cents-print_price : (cents : ℕ) → parse_decimal (without_point (print_price (some cents))) ≡ cents
cents-print_price cents =
    let x : ℕ = cents % 100 / 10 in
    let y : ℕ = cents % 10 in
    let whole : Text = print_decimal (cents / 100) in
    ap (λ (t : Text). parse_decimal (without_point t)) (print_price-digits cents)
    ∙ ap (λ (t : Text). parse_decimal t)
        (without_point-append whole (46 ∷ (48 + x) ∷ (48 + y) ∷ [])
            (all-is_decimal whole (is_decimal-print (cents / 100)))
          ∙ ap (λ (t : Text). whole ++ t) (digits_stay x y))
    ∙ parse_decimal-append_two whole (48 + x) (48 + y)
    ∙ rw (parse-print_decimal (cents / 100)) (omega arith)

-- Instants as so many zeros.
abbrev zeros : ℕ → Text
zeros zero = []
zeros (suc n) = let rest = zeros n in 48 ∷ rest

zeros-length : (n : ℕ) → length (replace_z (zeros n)) ≡ n
zeros-length zero = refl
zeros-length (suc n) = omega (arith, zeros-length n)

abbrev pub formats : Formats
formats = record {
  decimal = λ t. some (price (parse_decimal (without_point t)));
  fromisoformat = λ t. some (instant_of (length t));
  is_space = λ c. c == 32;
}

abbrev pub stamps : Stamps
stamps = record {
  order_created_at = λ n. n;
  order_updated_at = λ n. n;
  payment_created_at = λ n. n;
  print = zeros;
}

pub agrees : Agrees formats stamps
agrees = record {
  prices = λ cents. ap (λ (n : ℕ). some (price n)) (cents-print_price cents);
  instants = λ t. ap (λ (n : ℕ). some (instant_of n)) (zeros-length t);
}

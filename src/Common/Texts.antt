-- ===== src/Common/Texts.antt =====
-- Texts as lists of code points, and the decimal numerals of `str(n)` and `int(text)`.
use Prim.Native.Nat.{ℕ, zero, suc, ◌+◌, ◌-◌, ◌*◌, ◌/◌, ◌%◌, ◌<◌, ◌≤◌}
use Prim.Native.Char.{code}
use Prim.Native.String.{String}
use mathlib.Core.Path.{◌≡◌, refl, ap, ◌∙◌}
use mathlib.Core.Logic.{inl, inr}
use mathlib.Core.Bool.{Bool, true, false, not, ◌&&◌}
use mathlib.Core.Option.{Option, none, some}
use mathlib.Core.List.{List, [], ◌∷◌, ◌++◌}
use native.Mathlib.Omega.{arith}
use ludora.Common.Tests.{ltb, leb, ◌==◌, if◌then◌else◌, Bool-cases}
use ludora.Common.Lists.{null, all, length}

abbrev pub Text : Type 0
Text = List ℕ

abbrev pub codes : String → Text
codes String.[] = []
codes (String.◌∷◌ c s) = code c ∷ codes s

infix 50 ◌=ᵗ◌
abbrev pub ◌=ᵗ◌ : Text → Text → Bool
[] =ᵗ [] = true
[] =ᵗ (y ∷ ys) = false
(x ∷ xs) =ᵗ [] = false
(x ∷ xs) =ᵗ (y ∷ ys) = x == y && xs =ᵗ ys

pub =ᵗ→≡ : (s t : Text) → (s =ᵗ t) ≡ true → s ≡ t
=ᵗ→≡ [] [] h = refl
=ᵗ→≡ [] (y ∷ ys) h = cc
=ᵗ→≡ (x ∷ xs) [] h = cc
=ᵗ→≡ (x ∷ xs) (y ∷ ys) h = ground (arith, =ᵗ→≡ xs ys)

pub =ᵗ-refl : (s : Text) → (s =ᵗ s) ≡ true
=ᵗ-refl [] = refl
=ᵗ-refl (x ∷ xs) = ground (arith, =ᵗ-refl xs)

-- A nullable column that is null or empty: `not value`.
abbrev pub is_blank : Option Text → Bool
is_blank none = true
is_blank (some t) = null t

abbrev pub is_text : Option Text → Text → Bool
is_text none t = false
is_text (some s) t = s =ᵗ t

abbrev pub contains_text : Text → List Text → Bool
contains_text t [] = false
contains_text t (s ∷ ss) = if t =ᵗ s then true else contains_text t ss

-- The digits of `n`, in front of `acc`.
pub print_from : ℕ → ℕ → Text → Text
print_from zero n acc = acc
print_from (suc f) n acc =
    let rest = print_from f (n / 10) ((48 + n % 10) ∷ acc) in
    if ltb n 10 then (48 + n) ∷ acc else rest

-- `str(n)`
unfoldable pub print_decimal : ℕ → Text
unfolding print_from
print_decimal n = print_from (suc n) n []

abbrev pub is_digit : ℕ → Bool
is_digit c = leb 48 c && leb c 57

pub parse_from : ℕ → Text → ℕ
parse_from acc [] = acc
parse_from acc (c ∷ cs) = parse_from (acc * 10 + (c - 48)) cs

-- `text.isdecimal()`, for the ASCII digits.
abbrev pub is_decimal : Text → Bool
is_decimal t = not (null t) && all is_digit t

-- `int(text)` on such a text.
unfoldable pub parse_decimal : Text → ℕ
unfolding parse_from
parse_decimal = parse_from 0

parse_from-print_from :
    (f n : ℕ) (acc : Text) → n < f → parse_from 0 (print_from f n acc) ≡ parse_from n acc
unfolding print_from parse_from
parse_from-print_from zero n acc h = absurd (omega arith)
parse_from-print_from (suc f) n acc h = elim (Bool-cases (ltb n 10)) [
  | inl small ↦ rw small (ap (λ (k : ℕ). parse_from k acc) (omega arith))
  | inr large ↦ rw large (
      parse_from-print_from f (n / 10) ((48 + n % 10) ∷ acc) (ground arith)
      ∙ ap (λ (k : ℕ). parse_from k acc) (omega arith))
]

pub parse-print_decimal : (n : ℕ) → parse_decimal (print_decimal n) ≡ n
unfolding parse_decimal print_decimal parse_from
parse-print_decimal n = parse_from-print_from (suc n) n [] (omega arith)

parse_from-append :
    (acc : ℕ) (s t : Text) → parse_from acc (s ++ t) ≡ parse_from (parse_from acc s) t
unfolding parse_from
parse_from-append acc [] t = refl
parse_from-append acc (c ∷ s) t = parse_from-append (acc * 10 + (c - 48)) s t

-- Two more digits behind a numeral.
pub parse_decimal-append_two :
    (s : Text) (c d : ℕ)
    → parse_decimal (s ++ c ∷ d ∷ []) ≡ (parse_decimal s * 10 + (c - 48)) * 10 + (d - 48)
unfolding parse_decimal parse_from
parse_decimal-append_two s c d = parse_from-append 0 s (c ∷ d ∷ [])

-- The numeral of a number below ten is one digit.
pub print_digit : (n : ℕ) → n < 10 → print_decimal n ≡ (48 + n) ∷ []
unfolding print_decimal print_from
print_digit n h = ground (arith, h)

all-print_from :
    (f n : ℕ) (acc : Text)
    → n < f
    → all is_digit acc ≡ true
    → is_decimal (print_from f n acc) ≡ true
unfolding print_from
all-print_from zero n acc h d = absurd (omega arith)
all-print_from (suc f) n acc h d = elim (Bool-cases (ltb n 10)) [
  | inl small ↦ rw small (ground arith)
  | inr large ↦
      rw large (all-print_from f (n / 10) ((48 + n % 10) ∷ acc) (ground arith) (ground arith))
]

pub is_decimal-print : (n : ℕ) → is_decimal (print_decimal n) ≡ true
unfolding print_decimal
is_decimal-print n = all-print_from (suc n) n [] (omega arith) refl

-- `10 ^ (k + 1)`
abbrev pub power_of_ten : ℕ → ℕ
power_of_ten zero = 10
power_of_ten (suc k) = 10 * power_of_ten k

length-print_from :
    (k f n : ℕ) (acc : Text) → n < power_of_ten k → length (print_from f n acc) ≤ suc k + length acc
unfolding print_from
length-print_from k zero n acc h = omega arith
length-print_from zero (suc f) n acc h = ground (arith, h)
length-print_from (suc k) (suc f) n acc h =
    ground (arith, length-print_from k f (n / 10) ((48 + n % 10) ∷ acc))

-- A number below `10 ^ (k + 1)` has at most `k + 1` digits.
pub length-print_decimal : (k n : ℕ) → n < power_of_ten k → length (print_decimal n) ≤ suc k
unfolding print_decimal
length-print_decimal k n h = omega (arith, length-print_from k (suc n) n [] h)

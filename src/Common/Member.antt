-- ===== src/Common/Member.antt =====
-- Membership and distinctness of ids.
use Prim.Native.Nat.{ℕ, ◌<◌, ◌≤◌}
use mathlib.Core.Path.{◌≡◌, refl}
use mathlib.Core.Bool.{Bool, true, false, not, ◌&&◌, ◌||◌}
use mathlib.Core.List.{List, [], ◌∷◌, ◌++◌}
use native.Mathlib.Omega.{arith}
use ludora.Common.Tests.{◌==◌}
use ludora.Common.Lists.{All}

-- `id in ids`
abbrev pub contains : ℕ → List ℕ → Bool
contains a [] = false
contains a (x ∷ xs) = a == x || contains a xs

abbrev pub Distinct : List ℕ → Type 0
Distinct [] = Unit
Distinct (x ∷ xs) = (contains x xs ≡ false) × Distinct xs

-- The test of a unique index.
abbrev pub distinct : List ℕ → Bool
distinct [] = true
distinct (x ∷ xs) = not (contains x xs) && distinct xs

pub distinct→Distinct : (xs : List ℕ) → distinct xs ≡ true → Distinct xs
distinct→Distinct [] h = tt
distinct→Distinct (x ∷ xs) h = ground (arith, distinct→Distinct xs)

pub contains-append :
    (a : ℕ) (xs ys : List ℕ) → contains a (xs ++ ys) ≡ (contains a xs || contains a ys)
contains-append a [] ys = refl
contains-append a (x ∷ xs) ys = ground (arith, contains-append a xs ys)

-- Every element lies below a bound, as the ids of a table lie below its sequence.
abbrev pub Below : ℕ → List ℕ → Type 0
Below n = All (λ x. x < n)

pub Below-mono : (m n : ℕ) (xs : List ℕ) → m ≤ n → Below m xs → Below n xs
Below-mono m n [] h b = tt
Below-mono m n (x ∷ xs) h b = (omega arith, Below-mono m n xs h b.1)

pub not-contains-Below : (n a : ℕ) (xs : List ℕ) → Below n xs → n ≤ a → contains a xs ≡ false
not-contains-Below n a [] b h = refl
not-contains-Below n a (x ∷ xs) b h = ground (arith, not-contains-Below n a xs b.1)

pub Distinct-snoc :
    (xs : List ℕ) (a : ℕ) → Distinct xs → contains a xs ≡ false → Distinct (xs ++ a ∷ [])
Distinct-snoc [] a d h = (refl, tt)
Distinct-snoc (x ∷ xs) a d h = ground (arith, Distinct-snoc xs a d.1, contains-append x xs (a ∷ []))

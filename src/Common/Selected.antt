-- ===== src/Common/Selected.antt =====
-- Rows that a query selects: what holds of each, and how many there are.
use Prim.Native.Nat.{ℕ, zero, suc, ◌≤◌}
use mathlib.Core.Path.{◌≡◌, refl, ap, ◌∙◌}
use mathlib.Core.Logic.{inl, inr}
use mathlib.Core.Bool.{Bool, true, false, not, ◌&&◌}
use mathlib.Core.Option.{some}
use mathlib.Core.List.{List, [], ◌∷◌, ◌++◌, map}
use native.Mathlib.Omega.{arith}
use ludora.Common.Tests.{◌==◌, Bool-cases}
use ludora.Common.Lists.{filter, find, take, length, all, All, insert_by, order_by}
use ludora.Common.Member.{contains, Distinct}

module _ {ℓ} {A : Type ℓ} where
  pub All-take {κ} : (P : A → Type κ) (n : ℕ) (xs : List A) → All P xs → All P (take n xs)
  All-take P zero xs h = tt
  All-take P (suc n) [] h = tt
  All-take P (suc n) (x ∷ xs) h = (h.0, All-take P n xs h.1)

  pub All-append {κ} : (P : A → Type κ) (xs ys : List A) → All P xs → All P ys → All P (xs ++ ys)
  All-append P [] ys h k = k
  All-append P (x ∷ xs) ys h k = (h.0, All-append P xs ys h.1 k)

  -- A selected row passes the test.
  pub All-filter {κ} :
      (P : A → Type κ) (p : A → Bool) (xs : List A)
      → All P xs
      → All (λ a. P a × (p a ≡ true)) (filter p xs)
  All-filter P p [] h = tt
  All-filter P p (x ∷ xs) h = elim (Bool-cases (p x)) [
    | inl e ↦ rw e ((h.0, e), All-filter P p xs h.1)
    | inr e ↦ rw e (All-filter P p xs h.1)
  ]

  pub filter-append :
      (p : A → Bool) (xs ys : List A) → filter p (xs ++ ys) ≡ filter p xs ++ filter p ys
  filter-append p [] ys = refl
  filter-append p (x ∷ xs) ys = ground (arith, filter-append p xs ys)

  -- What is selected whole leaves nothing.
  pub filter-all : (p : A → Bool) (xs : List A) → filter p xs ≡ xs → filter (λ a. not (p a)) xs ≡ []
  filter-all p xs h = left xs (kept xs h)
    where
      shorter : (ys : List A) → length (filter p ys) ≤ length ys
      shorter [] = omega arith
      shorter (y ∷ ys) = ground (arith, shorter ys)

      kept : (ys : List A) → filter p ys ≡ ys → all p ys ≡ true
      kept [] e = refl
      kept (y ∷ ys) e = elim (Bool-cases (p y)) [
        | inl t ↦
            let same : y ∷ filter p ys ≡ y ∷ ys = rw t at e in
            let rest : filter p ys ≡ ys = cc in rw t (kept ys rest)
        | inr f ↦
            let longer : length (filter p ys) ≡ suc (length ys) = ap length (rw f at e) in
            absurd (omega (arith, longer, shorter ys))
      ]

      left : (ys : List A) → all p ys ≡ true → filter (λ a. not (p a)) ys ≡ []
      left [] e = refl
      left (y ∷ ys) e = ground (arith, left ys)

  all-insert_by :
      (p : A → Bool) (key : A → ℕ) (x : A) (xs : List A)
      → all p (insert_by key x xs) ≡ (p x && all p xs)
  all-insert_by p key x [] = refl
  all-insert_by p key x (y ∷ ys) = ground (arith, all-insert_by p key x ys)

  -- Sorting leaves a test of all rows as it is.
  pub all-order_by : (p : A → Bool) (key : A → ℕ) (xs : List A) → all p (order_by key xs) ≡ all p xs
  all-order_by p key [] = refl
  all-order_by p key (x ∷ xs) =
      all-insert_by p key x (order_by key xs) ∙ ap (λ b. p x && b) (all-order_by p key xs)

  count-insert_by :
      (p : A → Bool) (key : A → ℕ) (x : A) (xs : List A)
      → length (filter p (insert_by key x xs)) ≡ length (filter p (x ∷ xs))
  count-insert_by p key x [] = refl
  count-insert_by p key x (y ∷ ys) = ground (arith, count-insert_by p key x ys)

  -- Sorting leaves the number of selected rows as it is.
  pub count-order_by :
      (p : A → Bool) (key : A → ℕ) (xs : List A)
      → length (filter p (order_by key xs)) ≡ length (filter p xs)
  count-order_by p key [] = refl
  count-order_by p key (x ∷ xs) =
      ground (arith, count-insert_by p key x (order_by key xs), count-order_by p key xs)

  pub all-All : (p : A → Bool) (xs : List A) → All (λ a. p a ≡ true) xs → all p xs ≡ true
  all-All p [] h = refl
  all-All p (x ∷ xs) h = rw h.0 (all-All p xs h.1)

  module _ (id : A → ℕ) where
    find-cons :
        (x : A) (xs ys : List A)
        → contains (id x) (map id ys) ≡ false
        → All (λ a. find (λ b. id b == id a) xs ≡ some a) ys
        → All (λ a. find (λ b. id b == id a) (x ∷ xs) ≡ some a) ys
    find-cons x xs [] ne h = tt
    find-cons x xs (y ∷ ys) ne h = (ground arith, find-cons x xs ys (ground arith) h.1)

    -- A row is found by its id.
    pub find-Distinct :
        (xs : List A) → Distinct (map id xs) → All (λ a. find (λ b. id b == id a) xs ≡ some a) xs
    find-Distinct [] d = tt
    find-Distinct (x ∷ xs) d = (ground arith, find-cons x xs xs d.0 (find-Distinct xs d.1))

-- ===== src/Common/Queries.antt =====
-- Ids that a query selects, and those that a deletion leaves.
use Prim.Native.Nat.{ℕ}
use mathlib.Core.Path.{◌≡◌, refl, ap, ◌∙◌}
use mathlib.Core.Logic.{inl, inr}
use mathlib.Core.Bool.{Bool, true, false, not, ◌||◌}
use mathlib.Core.List.{List, [], ◌∷◌, map}
use native.Mathlib.Omega.{arith}
use ludora.Common.Tests.{◌==◌, Bool-cases}
use ludora.Common.Lists.{filter, All, insert_by, order_by, update_where}
use ludora.Common.Member.{contains, Distinct, Below}

module _ {ℓ} {A : Type ℓ} where
  pub filter-cong :
      (p q : A → Bool) (xs : List A) → All (λ a. p a ≡ q a) xs → filter p xs ≡ filter q xs
  filter-cong p q [] h = refl
  filter-cong p q (x ∷ xs) h = rw (h.0, filter-cong p q xs h.1)

  pub All-map {κ μ} :
      {P : A → Type κ} {Q : A → Type μ} (xs : List A) → ((a : A) → P a → Q a) → All P xs → All Q xs
  All-map [] f h = tt
  All-map (x ∷ xs) f h = (f x h.0, All-map xs f h.1)

  -- What holds of each row, in one way if it is updated and in another if not.
  pub All-update_where {κ μ} :
      (P : A → Type κ) (Q : A → Type μ) (p : A → Bool) (f : A → A) (xs : List A)
      → ((a : A) → P a → p a ≡ true → Q (f a))
      → ((a : A) → P a → p a ≡ false → Q a)
      → All P xs
      → All Q (update_where p f xs)
  All-update_where P Q p f [] hit miss h = tt
  All-update_where P Q p f (x ∷ xs) hit miss h = elim (Bool-cases (p x)) [
    | inl e ↦ (rw e (hit x h.0 e), All-update_where P Q p f xs hit miss h.1)
    | inr e ↦ (rw e (miss x h.0 e), All-update_where P Q p f xs hit miss h.1)
  ]

  module _ (id : A → ℕ) where
    contains-insert_by :
        (key : A → ℕ) (n : ℕ) (x : A) (xs : List A)
        → contains n (map id (insert_by key x xs)) ≡ (n == id x || contains n (map id xs))
    contains-insert_by key n x [] = refl
    contains-insert_by key n x (y ∷ ys) = ground (arith, contains-insert_by key n x ys)

    -- Sorting changes no membership.
    pub contains-order_by :
        (key : A → ℕ) (n : ℕ) (xs : List A)
        → contains n (map id (order_by key xs)) ≡ contains n (map id xs)
    contains-order_by key n [] = refl
    contains-order_by key n (x ∷ xs) =
        contains-insert_by key n x (order_by key xs)
        ∙ ap (λ b. n == id x || b) (contains-order_by key n xs)

    pub not-contains-filter :
        (p : A → Bool) (n : ℕ) (xs : List A)
        → contains n (map id xs) ≡ false
        → contains n (map id (filter p xs)) ≡ false
    not-contains-filter p n [] h = refl
    not-contains-filter p n (x ∷ xs) h = ground (arith, not-contains-filter p n xs)

    pub Distinct-filter :
        (p : A → Bool) (xs : List A) → Distinct (map id xs) → Distinct (map id (filter p xs))
    Distinct-filter p [] h = tt
    Distinct-filter p (x ∷ xs) h =
        ground (arith, Distinct-filter p xs h.1, not-contains-filter p (id x) xs h.0)

    pub Below-filter :
        (p : A → Bool) (n : ℕ) (xs : List A) → Below n (map id xs) → Below n (map id (filter p xs))
    Below-filter p n [] h = tt
    Below-filter p n (x ∷ xs) h = ground (arith, Below-filter p n xs h.1)

    -- A row is selected or left.
    pub contains-split :
        (p : A → Bool) (n : ℕ) (xs : List A)
        → (contains n (map id (filter p xs)) || contains n (map id (filter (λ a. not (p a)) xs)))
          ≡ contains n (map id xs)
    contains-split p n [] = refl
    contains-split p n (x ∷ xs) = ground (arith, contains-split p n xs)

    -- Of distinct ids none is both selected and left.
    pub contains-disjoint :
        (p : A → Bool) (n : ℕ) (xs : List A)
        → Distinct (map id xs)
        → contains n (map id (filter p xs)) ≡ true
        → contains n (map id (filter (λ a. not (p a)) xs)) ≡ false
    contains-disjoint p n [] d h = refl
    contains-disjoint p n (x ∷ xs) d h = ground (
      arith,
      contains-disjoint p n xs d.1,
      not-contains-filter (λ a. not (p a)) (id x) xs d.0,
      not-contains-filter p (id x) xs d.0,
    )

    ne-all :
        (n : ℕ) (xs : List A) → contains n (map id xs) ≡ false → All (λ a. (id a == n) ≡ false) xs
    ne-all n [] h = tt
    ne-all n (x ∷ xs) h = (ground arith, ne-all n xs (ground arith))

    selected-cons :
        (p : A → Bool) (x : A) (xs ys : List A)
        → All (λ a. contains (id a) (map id (filter p xs)) ≡ p a) ys
        → All (λ a. (id a == id x) ≡ false) ys
        → All (λ a. contains (id a) (map id (filter p (x ∷ xs))) ≡ p a) ys
    selected-cons p x xs [] h ne = tt
    selected-cons p x xs (y ∷ ys) h ne = (ground arith, selected-cons p x xs ys h.1 ne.1)

    -- A row's id is among the selected ids exactly if the row is selected.
    pub selected_ids :
        (p : A → Bool) (xs : List A)
        → Distinct (map id xs)
        → All (λ a. contains (id a) (map id (filter p xs)) ≡ p a) xs
    selected_ids p [] d = tt
    selected_ids p (x ∷ xs) d = (
      ground (arith, not-contains-filter p (id x) xs d.0),
      selected-cons p x xs xs (selected_ids p xs d.1) (ne-all (id x) xs d.0),
    )

-- ===== src/Orders/Counts.antt =====
-- How many keys each item of an order gets.
use ludora.Common.{
  ℕ, suc, ◌+◌, true, false, ◌≡◌, refl, List, [], ◌∷◌, ◌++◌, arith, ◌==◌, length, take, filter,
  contains, All, Distinct, if◌then◌else◌,
}
use ludora.Store.{OrderItem, LicenseKey, assignment_rows}
use ludora.Orders.{pair_with, count_of, item_ids}
use ludora.Orders.Picks.{picked, are_enough, take-full}

-- The number of pairs of an item.
abbrev pairs_of : List (OrderItem × LicenseKey) → OrderItem → ℕ
pairs_of ps item = length (filter (λ p. p.0.id == item.id) ps)

rows-count :
    (n : ℕ) (ps : List (OrderItem × LicenseKey)) (item : OrderItem)
    → count_of (assignment_rows n ps) item ≡ pairs_of ps item
rows-count n [] item = refl
rows-count n (p ∷ ps) item = ground (arith, rows-count (suc n) ps item)

append-count :
    (ps qs : List (OrderItem × LicenseKey)) (item : OrderItem)
    → pairs_of (ps ++ qs) item ≡ pairs_of ps item + pairs_of qs item
append-count [] qs item = omega arith
append-count (p ∷ ps) qs item = ground (arith, append-count ps qs item)

pair_with-count :
    (i item : OrderItem) (ks : List LicenseKey)
    → pairs_of (pair_with i ks) item ≡ (if i.id == item.id then length ks else 0)
pair_with-count i item [] = ground arith
pair_with-count i item (k ∷ ks) = ground (arith, pair_with-count i item ks)

module _ (candidates : OrderItem → List LicenseKey) where
  absent-count :
      (item : OrderItem) (xs : List OrderItem)
      → contains item.id (item_ids xs) ≡ false
      → pairs_of (picked candidates xs) item ≡ 0
  absent-count item [] h = refl
  absent-count item (x ∷ xs) h = ground (
    arith,
    append-count (pair_with x (take x.quantity (candidates x))) (picked candidates xs) item,
    pair_with-count x item (take x.quantity (candidates x)),
    absent-count item xs,
  )

  abbrev Counted : List OrderItem → OrderItem → Type 0
  Counted xs item = pairs_of (picked candidates xs) item ≡ item.quantity

  count-cons :
      (x : OrderItem) (xs ys : List OrderItem)
      → contains x.id (item_ids ys) ≡ false
      → All (Counted xs) ys
      → All (Counted (x ∷ xs)) ys
  count-cons x xs [] ne h = tt
  count-cons x xs (y ∷ ys) ne h = (
    ground (
      arith,
      append-count (pair_with x (take x.quantity (candidates x))) (picked candidates xs) y,
      pair_with-count x y (take x.quantity (candidates x)),
    ),
    count-cons x xs ys (ground arith) h.1,
  )

  picked-Counted :
      (xs : List OrderItem)
      → Distinct (item_ids xs)
      → are_enough candidates xs ≡ true
      → All (Counted xs) xs
  picked-Counted [] d e = tt
  picked-Counted (x ∷ xs) d e = (
    ground (
      arith,
      append-count (pair_with x (take x.quantity (candidates x))) (picked candidates xs) x,
      pair_with-count x x (take x.quantity (candidates x)),
      absent-count x xs d.0,
      take-full x.quantity (candidates x),
    ),
    count-cons x xs xs d.0 (picked-Counted xs d.1 (ground arith)),
  )

  -- Each item gets as many keys as its quantity.
  pub rows-Counted :
      (n : ℕ) (xs : List OrderItem)
      → Distinct (item_ids xs)
      → are_enough candidates xs ≡ true
      → All (λ i. count_of (assignment_rows n (picked candidates xs)) i ≡ i.quantity) xs
  rows-Counted n xs d e = counted xs (picked-Counted xs d e)
    where
      counted :
          (ys : List OrderItem)
          → All (Counted xs) ys
          → All (λ i. count_of (assignment_rows n (picked candidates xs)) i ≡ i.quantity) ys
      counted [] h = tt
      counted (y ∷ ys) h = (rw (rows-count n (picked candidates xs) y) h.0, counted ys h.1)

-- ===== src/Orders/Reserved.antt =====
-- The reservation that the chosen keys make up.
use ludora.Common.{
  ℕ, suc, Bool, true, ◌≡◌, refl, ◌∙◌, List, [], ◌∷◌, some, arith, ◌==◌, take, all, find, contains,
  update_where, order_by, All, All-map, All-take, All-append, All-filter, all-All, all-order_by,
  count-order_by, find-Distinct, find-update_where, Distinct,
}
use ludora.Store.{Db, OrderItem, LicenseKey, LicenseAssignment, assignment_rows, is_available}
use ludora.Orders.{
  pair_with, paired_keys, reservable_keys, mark_reserved, is_consistent, is_reservation, count_of,
  item_ids, key_ids,
}
use ludora.Orders.Picks.{picked}

-- A pair of an item and an available key of its product, each found by its id.
abbrev pub Fits : List OrderItem → List LicenseKey → OrderItem × LicenseKey → Type 0
Fits items keys p =
    (find (λ i. i.id == p.0.id) items ≡ some p.0)
    × (find (λ k. k.id == p.1.id) keys ≡ some p.1)
    × ((p.1.product_id == p.0.product_id) ≡ true)
    × (is_available p.1.status ≡ true)

pair_with-Fits :
    (items : List OrderItem) (keys : List LicenseKey) (i : OrderItem) (ks : List LicenseKey)
    → find (λ x. x.id == i.id) items ≡ some i
    → All
        (λ k.
          (find (λ x. x.id == k.id) keys ≡ some k)
          × ((k.product_id == i.product_id) ≡ true)
          × (is_available k.status ≡ true))
        ks
    → All (Fits items keys) (pair_with i ks)
pair_with-Fits items keys i [] found h = tt
pair_with-Fits items keys i (k ∷ ks) found h =
    ((found, h.0.0, h.0.1, h.0.2), pair_with-Fits items keys i ks found h.1)

module _ (locked : ℕ → Bool) (db : Db) (items : List OrderItem)
    (unique_keys : Distinct (key_ids db.license_keys)) where
  picked_from :
      (xs : List OrderItem)
      → All (λ i. find (λ x. x.id == i.id) items ≡ some i) xs
      → All (Fits items db.license_keys) (picked (reservable_keys locked db) xs)
  picked_from [] h = tt
  picked_from (i ∷ xs) h =
      All-append _ (pair_with i (take i.quantity (reservable_keys locked db i))) _
        (pair_with-Fits items db.license_keys i (take i.quantity (reservable_keys locked db i)) h.0
          (All-take _ i.quantity (reservable_keys locked db i) (
            All-map (reservable_keys locked db i)
              (λ k e. (e.0, ground (arith, e.1), ground (arith, e.1)))
              (All-filter _ _ db.license_keys
                (find-Distinct (λ (k : LicenseKey). k.id) db.license_keys unique_keys)))))
        (picked_from xs h.1)

  pub picked-Fits :
      Distinct (item_ids items)
      → All (Fits items db.license_keys) (picked (reservable_keys locked db) items)
  picked-Fits unique = picked_from items (find-Distinct (λ (i : OrderItem). i.id) items unique)

own_keys :
    (ps qs : List (OrderItem × LicenseKey))
    → ((n : ℕ) → contains n (paired_keys ps) ≡ true → contains n (paired_keys qs) ≡ true)
    → All (λ p. contains p.1.id (paired_keys qs) ≡ true) ps
own_keys [] qs h = tt
own_keys (p ∷ ps) qs h = (h p.1.id (ground arith), own_keys ps qs (λ n e. h n (ground (arith, e))))

module _ (items : List OrderItem) (keys : List LicenseKey)
    (pairs : List (OrderItem × LicenseKey)) where
  -- The keys after the pairs' keys are marked.
  abbrev pub marked : List LicenseKey
  marked = update_where (λ k. contains k.id (paired_keys pairs)) mark_reserved keys

  pair_is_consistent :
      (n : ℕ) (p : OrderItem × LicenseKey)
      → Fits items keys p
      → contains p.1.id (paired_keys pairs) ≡ true
      → is_consistent items marked
          (record { id = n; order_item_id = p.0.id; license_key_id = p.1.id })
        ≡ true
  pair_is_consistent n p fits own =
      let key : find (λ k. k.id == p.1.id) marked ≡ some (mark_reserved p.1) = ground (
        arith,
        find-update_where (λ k. k.id == p.1.id) (λ k. contains k.id (paired_keys pairs))
            mark_reserved keys (λ k. refl),
        fits.1,
        own,
      ) in
      rw (fits.0, key) (ground (arith, fits.2))

  rows_consistent :
      (n : ℕ) (ps : List (OrderItem × LicenseKey))
      → All (Fits items keys) ps
      → All (λ p. contains p.1.id (paired_keys pairs) ≡ true) ps
      → all (is_consistent items marked) (assignment_rows n ps) ≡ true
  rows_consistent n [] h own = refl
  rows_consistent n (p ∷ ps) h own =
      rw (pair_is_consistent n p h.0 own.0) (rows_consistent (suc n) ps h.1 own.1)

  -- The marked keys with the rows of their pairs are a reservation of the items.
  pub pairs-is_reservation :
      (n : ℕ)
      → All (Fits items keys) pairs
      → All (λ i. count_of (assignment_rows n pairs) i ≡ i.quantity) items
      → is_reservation items marked
          (order_by (λ (a : LicenseAssignment). a.order_item_id) (assignment_rows n pairs))
        ≡ true
  pairs-is_reservation n fits counted =
      let sorted =
        order_by (λ (a : LicenseAssignment). a.order_item_id) (assignment_rows n pairs) in
      let consistent : all (is_consistent items marked) sorted ≡ true =
        all-order_by (is_consistent items marked) (λ a. a.order_item_id) (assignment_rows n pairs)
        ∙ rows_consistent n pairs fits (own_keys pairs pairs (λ m e. e)) in
      let counts : all (λ i. count_of sorted i == i.quantity) items ≡ true =
        all-All (λ i. count_of sorted i == i.quantity) items
          (All-map items
            (λ i e. ground (
              arith,
              e,
              count-order_by (λ (a : LicenseAssignment). a.order_item_id == i.id)
                  (λ a. a.order_item_id) (assignment_rows n pairs),
            ))
            counted) in
      rw (consistent, counts) refl

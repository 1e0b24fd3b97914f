-- ===== src/Inventory/Writes.antt =====
-- The writes of the services to the two tables keep the stock.
use mathlib.Core.List.{map-append, append_assoc, append-nil}
use ludora.Common.{
  ℕ, suc, Bool, true, false, not, ◌||◌, List, [], ◌∷◌, ◌++◌, ◌≡◌, refl, ap, subst, contains,
  Distinct, Below, filter, update_where, contains-append, arith, All-update_where, All-map,
  not-contains-Below, Distinct-snoc, distinct, distinct→Distinct, Distinct-filter, Below-filter,
  contains-disjoint, contains-split, not-contains-filter,
}
use ludora.Store.{
  LicenseKey, LicenseAssignment, OrderItem, is_available, is_reserved, assigned_keys,
  assignment_rows, advance,
}
use ludora.Inventory.{IsStock, assignment_ids}
use ludora.Orders.{paired_keys}

pub assigned-rows :
    (n : ℕ) (pairs : List (OrderItem × LicenseKey))
    → assigned_keys (assignment_rows n pairs) ≡ paired_keys pairs
assigned-rows n [] = refl
assigned-rows n (p ∷ pairs) = ap (λ l. p.1.id ∷ l) (assigned-rows (suc n) pairs)

Below-snoc : (n : ℕ) (xs : List ℕ) → Below n xs → Below (suc n) (xs ++ n ∷ [])
Below-snoc n [] h = (omega arith, tt)
Below-snoc n (x ∷ xs) h = (omega arith, Below-snoc n xs h.1)

-- Rows numbered by the sequence have new ids, below the advanced sequence.
rows_numbered :
    (xs : List ℕ) (n : ℕ) (pairs : List (OrderItem × LicenseKey))
    → Distinct xs
    → Below n xs
    → Distinct (xs ++ assignment_ids (assignment_rows n pairs))
      × Below (advance pairs n) (xs ++ assignment_ids (assignment_rows n pairs))
rows_numbered xs n [] d b = rw append-nil (d, b)
rows_numbered xs n (p ∷ pairs) d b =
    subst (λ l. Distinct l × Below (advance pairs (suc n)) l)
      (append_assoc xs (n ∷ []) (assignment_ids (assignment_rows (suc n) pairs)))
      (rows_numbered (xs ++ n ∷ []) (suc n) pairs
        (Distinct-snoc xs n d (not-contains-Below n n xs b (omega arith))) (Below-snoc n xs b))

contains-assigned :
    (n : ℕ) (assignments : List LicenseAssignment) (next : ℕ)
    (pairs : List (OrderItem × LicenseKey))
    → contains n (assigned_keys (assignments ++ assignment_rows next pairs))
      ≡ (contains n (assigned_keys assignments) || contains n (paired_keys pairs))
contains-assigned n assignments next pairs =
    rw (map-append (λ (a : LicenseAssignment). a.license_key_id) assignments, assigned-rows)
      (contains-append n (assigned_keys assignments) (paired_keys pairs))

module _ (strict : Bool) (keys : List LicenseKey) (assignments : List LicenseAssignment) (next : ℕ)
    (stock : IsStock strict keys assignments next) where
  -- Keys are reserved or sold, with an assignment each.
  pub assign-IsStock :
      (pairs : List (OrderItem × LicenseKey)) (f : LicenseKey → LicenseKey)
      → ((k : LicenseKey) → (f k).id ≡ k.id)
      → ((k : LicenseKey) → is_available (f k).status ≡ false)
      → distinct (assigned_keys (assignments ++ assignment_rows next pairs)) ≡ true
      → IsStock strict
          (update_where (λ k. contains k.id (paired_keys pairs)) f keys)
          (assignments ++ assignment_rows next pairs)
          (advance pairs next)
  assign-IsStock pairs f same taken unique =
      let numbers =
        rows_numbered (assignment_ids assignments) next pairs stock.numbered stock.below in
      let ids =
        map-append (λ (a : LicenseAssignment). a.id) assignments (assignment_rows next pairs) in
      record {
        numbered = rw ids numbers.0;
        below = rw ids numbers.1;
        exclusive = distinct→Distinct _ unique;
        free =
            All-update_where _ _ _ f keys (λ k h e. λ available. cc (taken k))
              (λ k h e. λ available.
                let unassigned : contains k.id (assigned_keys assignments) ≡ false = h available in
                ground (arith, contains-assigned k.id assignments next pairs, unassigned))
              stock.free;
        held =
            All-update_where _ _ _ f keys
              (λ k h e. λ s reserved.
                rw same (ground (arith, contains-assigned k.id assignments next pairs)))
              (λ k h e. λ s reserved.
                ground (arith, contains-assigned k.id assignments next pairs, h s reserved))
              stock.held;
      }

  -- Keys with an assignment are sold.
  pub sell-IsStock :
      (ids : List ℕ) (f : LicenseKey → LicenseKey)
      → ((k : LicenseKey) → is_available (f k).status ≡ false)
      → ((k : LicenseKey) → is_reserved (f k).status ≡ false)
      → IsStock strict (update_where (λ k. contains k.id ids) f keys) assignments next
  sell-IsStock ids f taken sold = record {
    numbered = stock.numbered;
    below = stock.below;
    exclusive = stock.exclusive;
    free =
        All-update_where _ _ _ f keys (λ k h e. λ available. cc (taken k)) (λ k h e. h) stock.free;
    held =
        All-update_where _ _ _ f keys (λ k h e. λ s reserved. cc (sold k)) (λ k h e. h) stock.held;
  }

  -- The keys of the selected assignments are available again, and these assignments are deleted.
  pub free-IsStock :
      (p : LicenseAssignment → Bool) (f : LicenseKey → LicenseKey)
      → ((k : LicenseKey) → (f k).id ≡ k.id)
      → ((k : LicenseKey) → is_reserved (f k).status ≡ false)
      → IsStock strict
          (update_where (λ k. contains k.id (assigned_keys (filter p assignments))) f keys)
          (filter (λ a. not (p a)) assignments)
          next
  free-IsStock p f same freed =
      let key = λ (a : LicenseAssignment). a.license_key_id in
      let number = λ (a : LicenseAssignment). a.id in
      let left = λ (a : LicenseAssignment). not (p a) in
      record {
        numbered = Distinct-filter number left assignments stock.numbered;
        below = Below-filter number left next assignments stock.below;
        exclusive = Distinct-filter key left assignments stock.exclusive;
        free =
            All-update_where _ _ _ f keys
              (λ k h e.
                λ available. rw same (contains-disjoint key p k.id assignments stock.exclusive e))
              (λ k h e.
                λ available. ground (arith, contains-split key p k.id assignments, h available))
              stock.free;
        held =
            All-update_where _ _ _ f keys (λ k h e. λ s reserved. cc (freed k))
              (λ k h e.
                λ s reserved. ground (arith, contains-split key p k.id assignments, h s reserved))
              stock.held;
      }

  -- A deletion of assignments leaves no key with two, and makes no available key assigned.
  pub delete-IsStock :
      (p : LicenseAssignment → Bool) → IsStock false keys (filter p assignments) next
  delete-IsStock p =
      let key = λ (a : LicenseAssignment). a.license_key_id in
      record {
        numbered = Distinct-filter (λ (a : LicenseAssignment). a.id) p assignments stock.numbered;
        below = Below-filter (λ (a : LicenseAssignment). a.id) p next assignments stock.below;
        exclusive = Distinct-filter key p assignments stock.exclusive;
        free =
            All-map keys
              (λ k h. λ available. not-contains-filter key p k.id assignments (h available))
              stock.free;
        held = All-map keys (λ k h. λ s reserved. cc) stock.held;
      }

-- ===== src/Inventory/Fresh.antt =====
-- A fresh reservation: the rows it writes, and its keys marked and unmarked.
use ludora.Common.{
  ℕ, suc, Bool, true, ◌≡◌, refl, ap, sym, inl, inr, List, [], ◌∷◌, ◌++◌, some, arith, find, filter,
  ◌==◌, contains, update_where, All, ==→≡, Bool-cases,
}
use ludora.Store.{
  Db, gets, ◌>>=◌, OrderItem, LicenseKey, KeyStatus, LicenseAssignment, assignment_rows, advance,
  is_available, update_keys, create_assignments,
}
use ludora.Store.Hoare.{Post, Post-bind}
use ludora.Orders.{
  paired_keys, reservable_keys, mark_reserved, mark_available, item_ids, pick_keys, reserve_fresh,
}
use ludora.Orders.Picks.{picked, are_enough, pick_keys_lem}
use ludora.Orders.Reserved.{Fits}
use ludora.Inventory.Release.{of_items}

-- The database after the pairs are reserved.
abbrev pub reserved : List (OrderItem × LicenseKey) → Db → Db
reserved pairs db = record db {
  license_keys =
      update_where (λ k. contains k.id (paired_keys pairs)) mark_reserved db.license_keys;
  license_assignments = db.license_assignments ++ assignment_rows db.next_assignment pairs;
  next_assignment = advance pairs db.next_assignment;
}

module _ (locked : ℕ → Bool) (items : List OrderItem) (db : Db) where
  abbrev pub chosen : List (OrderItem × LicenseKey)
  chosen = picked (reservable_keys locked db) items

  abbrev pub IsReserved : List LicenseAssignment → Db → Type 0
  IsReserved rows db' =
      (are_enough (reservable_keys locked db) items ≡ true)
      × (rows ≡ assignment_rows db.next_assignment chosen)
      × (db' ≡ reserved chosen db)

  picks :
      Post
        (λ pairs db'.
          (db' ≡ db) × (pairs ≡ chosen) × (are_enough (reservable_keys locked db) items ≡ true))
        (pick_keys (reservable_keys locked db) items db)
  picks =
      rw (pick_keys_lem (reservable_keys locked db) items db)
        (elim (Bool-cases (are_enough (reservable_keys locked db) items)) [
          | inl e ↦ rw e (refl, refl, refl)
          | inr e ↦ rw e tt
        ])

  writes :
      are_enough (reservable_keys locked db) items ≡ true
      → Post IsReserved
          ((update_keys (paired_keys chosen) mark_reserved >>= λ _. create_assignments chosen) db)
  unfolding update_keys create_assignments ◌>>=◌
  writes e = ground (arith, e)

  pub reserve_fresh_lem : Post IsReserved (reserve_fresh locked items db)
  unfolding reserve_fresh
  reserve_fresh_lem =
      Post-bind (λ c d. (d ≡ db) × (c ≡ reservable_keys locked db)) IsReserved
        (gets (reservable_keys locked)) _ db (unfold ◌>>=◌ in (refl, refl))
        λ c d same.
          rw (same.0, same.1)
            (Post-bind _ IsReserved (pick_keys (reservable_keys locked db) items) _ db picks
              λ pairs d2 picked_now. rw (picked_now.0, picked_now.1) (writes picked_now.2))

pub rows_of_items :
    (items : List OrderItem) (keys : List LicenseKey) (n : ℕ) (ps : List (OrderItem × LicenseKey))
    → All (Fits items keys) ps
    → filter (of_items items) (assignment_rows n ps) ≡ assignment_rows n ps
rows_of_items items keys n [] h = refl
rows_of_items items keys n (p ∷ ps) h = rw (own items p.0 (h.0.0)) (
    ap (λ l. record { id = n; order_item_id = p.0.id; license_key_id = p.1.id } ∷ l)
      (rows_of_items items keys (suc n) ps h.1))
  where
    own :
        (xs : List OrderItem) (i : OrderItem)
        → find (λ x. x.id == i.id) xs ≡ some i
        → contains i.id (item_ids xs) ≡ true
    own [] i e = cc
    own (x ∷ xs) i e = ground (arith, own xs i)

-- Keys that are chosen were available.
pub chosen_available :
    (items : List OrderItem) (keys : List LicenseKey) (ps : List (OrderItem × LicenseKey))
    (k : LicenseKey)
    → All (Fits items keys) ps
    → find (λ x. x.id == k.id) keys ≡ some k
    → contains k.id (paired_keys ps) ≡ true
    → is_available k.status ≡ true
chosen_available items keys [] k h found e = cc
chosen_available items keys (p ∷ ps) k h found e = elim (Bool-cases (k.id == p.1.id)) [
  | inl same ↦
      let ids : k.id ≡ p.1.id = ==→≡ k.id p.1.id same in
      let row : find (λ x. x.id == p.1.id) keys ≡ some k = rw (sym ids) found in cc (h.0.1, h.0.3)
  | inr other ↦ chosen_available items keys ps k h.1 found (ground (arith, other, e))
]

unmark : (k : LicenseKey) → is_available k.status ≡ true → mark_available (mark_reserved k) ≡ k
unmark k e = λ i. record k { status = same k.status e i }
  where
    same : (s : KeyStatus) → is_available s ≡ true → KeyStatus.available ≡ s
    same KeyStatus.available e = refl
    same KeyStatus.reserved e = cc
    same KeyStatus.sold e = cc

-- Keys that are marked and unmarked are as they were.
pub unmarked :
    (ids : List ℕ) (keys : List LicenseKey)
    → All (λ k. contains k.id ids ≡ true → is_available k.status ≡ true) keys
    → update_where
        (λ k. contains k.id ids)
        mark_available
        (update_where (λ k. contains k.id ids) mark_reserved keys)
      ≡ keys
unmarked ids [] h = refl
unmarked ids (k ∷ keys) h = elim (Bool-cases (contains k.id ids)) [
  | inl e ↦ rw (e, e, unmark k (h.0 e), unmarked ids keys h.1) refl
  | inr e ↦ rw (e, e, unmarked ids keys h.1) refl
]

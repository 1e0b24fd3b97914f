-- ===== src/Inventory/RoundTrip.antt =====
-- A reservation and its release.
use mathlib.Core.List.{append-nil}
use ludora.Common.{
  ℕ, Bool, true, false, not, ◌≡◌, refl, ap, ◌∙◌, List, [], arith, filter, null, contains,
  update_where, All, All-map, find-Distinct, Distinct, filter-append, filter-all, if◌then◌else◌,
}
use ludora.Store.{
  Db, pure, ok, ◌>>=◌, OrderItem, LicenseKey, LicenseAssignment, assignment_rows, advance,
  assigned_keys, update_keys, delete_assignments,
}
use ludora.Store.Hoare.{bind-ok}
use ludora.Orders.{
  paired_keys, reservable_keys, mark_available, item_ids, key_ids, assignments_of, is_reservation,
  locked_reservation_assignments, reserve_fresh, reserve_items, release_items, free_assignments,
}
use ludora.Orders.Picks.{are_enough}
use ludora.Orders.Reserved.{Fits, picked-Fits, pairs-is_reservation}
use ludora.Orders.Counts.{rows-Counted}
use ludora.Inventory.{HasStock}
use ludora.Inventory.Reserve.{reserve_items-HasStock}
use ludora.Inventory.Writes.{assigned-rows}
use ludora.Inventory.Release.{
  released, release_items-released, null-order_by, of_items, filter-none,
}
use ludora.Inventory.Fresh.{
  reserved, chosen, IsReserved, reserve_fresh_lem, rows_of_items, chosen_available, unmarked,
}

free-or-none :
    (b : Bool) (found : List LicenseAssignment) (db : Db)
    → (ids : List ℕ) × (db' : Db) × ((if b then pure [] else free_assignments found) db
        ≡ ok (ids, db'))
unfolding free_assignments update_keys delete_assignments ◌>>=◌
free-or-none true found db = (_, _, refl)
free-or-none false found db = (_, _, refl)

-- A release of a reservation that is in order commits.
release-commits :
    (items : List OrderItem) (db : Db) (found : List LicenseAssignment)
    → locked_reservation_assignments items db ≡ ok (found, db)
    → (ids : List ℕ) × (db' : Db) × (release_items items db ≡ ok (ids, db'))
unfolding release_items
release-commits items db found e =
    let (ids, db', freed) = free-or-none (null found) found db in
    (ids, db', bind-ok _ _ db db found e ∙ freed)

-- Without a reservation, `reserve_items` makes one, for the items that there are.
reserve_items-first :
    (locked : ℕ → Bool) (items : List OrderItem) (db db' : Db) (rows : List LicenseAssignment)
    → null (assignments_of items db) ≡ true
    → reserve_items locked items db ≡ ok (rows, db')
    → reserve_fresh locked items db ≡ ok (rows, db')
unfolding reserve_items locked_reservation_assignments ◌>>=◌
reserve_items-first locked items db db' rows empty e = ground (arith, e)

module _ (locked : ℕ → Bool) (items : List OrderItem) (db : Db)
    (unique_items : Distinct (item_ids items)) (unique_keys : Distinct (key_ids db.license_keys))
    (none_yet : null (assignments_of items db) ≡ true) where
  abbrev now_reserved : Db
  now_reserved = reserved (chosen locked items db) db

  abbrev new_rows : List LicenseAssignment
  new_rows = assignment_rows db.next_assignment (chosen locked items db)

  fits : All (Fits items db.license_keys) (chosen locked items db)
  fits = picked-Fits locked db items unique_keys unique_items

  none_before : filter (of_items items) db.license_assignments ≡ []
  none_before = null-order_by (filter (of_items items) db.license_assignments) none_yet

  new_of_items : filter (of_items items) now_reserved.license_assignments ≡ new_rows
  new_of_items =
      rw (filter-append (of_items items) db.license_assignments, none_before)
        (rows_of_items items db.license_keys db.next_assignment (chosen locked items db) fits)

  old_left :
      filter (λ a. not (of_items items a)) now_reserved.license_assignments ≡ db.license_assignments
  old_left =
      rw
        (
          filter-append (λ a. not (of_items items a)) db.license_assignments,
          filter-none (of_items items) db.license_assignments none_before,
          filter-all (of_items items) new_rows (
              rows_of_items items db.license_keys db.next_assignment (chosen locked items db) fits),
        )
        (append-nil db.license_assignments)

  -- The new rows are a reservation in order.
  locked_again :
      are_enough (reservable_keys locked db) items ≡ true
      → locked_reservation_assignments items now_reserved
        ≡ ok (assignments_of items now_reserved, now_reserved)
  unfolding locked_reservation_assignments ◌>>=◌
  locked_again enough =
      let fine : is_reservation items now_reserved.license_keys (assignments_of items now_reserved)
          ≡ true =
        rw new_of_items (
          pairs-is_reservation items db.license_keys (chosen locked items db) db.next_assignment
            fits
            (rows-Counted (reservable_keys locked db) db.next_assignment items unique_items
              enough)) in
      ground (arith, fine)

  keys_back :
      update_where
        (λ k.
          contains k.id (assigned_keys (filter (of_items items) now_reserved.license_assignments)))
        mark_available
        now_reserved.license_keys
      ≡ db.license_keys
  keys_back =
      rw (new_of_items, assigned-rows db.next_assignment (chosen locked items db))
        (unmarked (paired_keys (chosen locked items db)) db.license_keys (
          All-map db.license_keys
            (λ k found. λ own.
              chosen_available items db.license_keys (chosen locked items db) k fits found own)
            (find-Distinct (λ (k : LicenseKey). k.id) db.license_keys unique_keys)))

  released_again :
      released items now_reserved
      ≡ record db { next_assignment = advance (chosen locked items db) db.next_assignment }
  unfolding released
  released_again = λ i. record db {
    license_keys = keys_back i;
    license_assignments = old_left i;
    next_assignment = advance (chosen locked items db) db.next_assignment;
  }

-- A reservation is undone by its release. If the stock is in order, the ids of the items and those
-- of the keys are distinct, the items have no assignment yet and `reserve_items` commits, then the
-- release of the items commits, and the database is what it was but for the sequence of the
-- assignments.
pub release-reserve :
    (locked : ℕ → Bool) (items : List OrderItem) (db db' : Db) (rows : List LicenseAssignment)
    → HasStock false db
    → Distinct (item_ids items)
    → Distinct (key_ids db.license_keys)
    → null (assignments_of items db) ≡ true
    → reserve_items locked items db ≡ ok (rows, db')
    → (ids : List ℕ) × (release_items items db'
        ≡ ok (ids, record db { next_assignment = db'.next_assignment }))
release-reserve locked items db db' rows stock unique_items unique_keys none_yet e =
    let done : IsReserved locked items db rows db' =
      rw (reserve_items-first locked items db db' rows none_yet e) at
        (reserve_fresh_lem locked items db) in
    let kept : HasStock false db' = rw e at ((reserve_items-HasStock locked items).at db stock) in
    let again : locked_reservation_assignments items db' ≡ ok (assignments_of items db', db') =
      rw done.2 (locked_again locked items db unique_items unique_keys none_yet done.0) in
    let (ids, after, commits) = release-commits items db' _ again in
    let result : after ≡ released items db' =
      rw commits at (release_items-released items db' kept.numbered) in
    (
      ids,
      commits
          ∙ ap (λ d. ok (ids, d))
              (result
                ∙ rw done.2 (released_again locked items db unique_items unique_keys none_yet)),
    )

-- ===== src/Inventory/Release.antt =====
-- The release of a reservation: what it leaves, and that it keeps the stock.
use ludora.Common.{
  ℕ, Bool, true, false, not, ◌≡◌, refl, List, filter, null, contains, order_by, contains-order_by,
  filter-cong, selected_ids, arith, ap, Bool-cases, inl, inr, if◌then◌else◌, Distinct, All-map,
  update_where, ◌∙◌, ◌∷◌, [], insert_by, sym, ◌⊎◌,
}
use ludora.Store.{
  Db, ◌>>=◌, pure, OrderItem, LicenseAssignment, LicenseKey, update_keys, delete_assignments,
  assigned_keys,
}
use ludora.Store.Hoare.{Keeps, keeps_rules, Post, Post-bind, Post-mono}
use ludora.Inventory.{HasStock, assignment_ids}
use ludora.Inventory.Writes.{free-IsStock}
use ludora.Inventory.Reserve.{get_order-HasStock}
use ludora.Orders.{
  assignments_of, locked_reservation_assignments, free_assignments, release_items,
  release_order_license_reservation, mark_available, item_ids,
}

-- A reservation that is read is the set of assignments of the items, and nothing is written.
pub locked_reservation_reads :
    (items : List OrderItem) (db : Db)
    → Post
        (λ found db'. (db' ≡ db) × (found ≡ assignments_of items db))
        (locked_reservation_assignments items db)
unfolding locked_reservation_assignments ◌>>=◌
locked_reservation_reads items db = ground arith

abbrev pub of_items : List OrderItem → LicenseAssignment → Bool
of_items items a = contains a.order_item_id (item_ids items)

-- The deletion by ids deletes the assignments of the items and no other.
left_assignments :
    (items : List OrderItem) (db : Db)
    → Distinct (assignment_ids db.license_assignments)
    → filter
        (λ a. not (contains a.id (assignment_ids (assignments_of items db))))
        db.license_assignments
      ≡ filter (λ a. not (of_items items a)) db.license_assignments
left_assignments items db distinct_ids = filter-cong _ _ db.license_assignments (
    All-map db.license_assignments
      (λ a e. ap not (
        contains-order_by (λ (b : LicenseAssignment). b.id) (λ b. b.order_item_id) a.id
          (filter (of_items items) db.license_assignments)
        ∙ e))
      (selected_ids (λ (b : LicenseAssignment). b.id) (of_items items) db.license_assignments
        distinct_ids))

update_where-cong :
    (p q : LicenseKey → Bool) (f : LicenseKey → LicenseKey) (keys : List LicenseKey)
    → ((k : LicenseKey) → p k ≡ q k)
    → update_where p f keys ≡ update_where q f keys
update_where-cong p q f [] h = refl
update_where-cong p q f (k ∷ keys) h = rw (h k, update_where-cong p q f keys h)

-- The database after a release of the items.
unfoldable pub released : List OrderItem → Db → Db
released items db = record db {
  license_keys =
      update_where
        (λ k. contains k.id (assigned_keys (filter (of_items items) db.license_assignments)))
        mark_available db.license_keys;
  license_assignments = filter (λ a. not (of_items items a)) db.license_assignments;
}

pub free_assignments-released :
    (items : List OrderItem) (db : Db)
    → Distinct (assignment_ids db.license_assignments)
    → Post (λ _ db'. db' ≡ released items db) (free_assignments (assignments_of items db) db)
unfolding free_assignments update_keys delete_assignments ◌>>=◌ released
free_assignments-released items db distinct_ids = λ i. record db {
  license_keys =
      update_where-cong _ _ mark_available db.license_keys
        (λ k.
          contains-order_by (λ (b : LicenseAssignment). b.license_key_id) (λ b. b.order_item_id)
            k.id (filter (of_items items) db.license_assignments))
        i;
  license_assignments = left_assignments items db distinct_ids i;
}

null-insert_by :
    (a : LicenseAssignment) (l : List LicenseAssignment)
    → null (insert_by (λ b. b.order_item_id) a l) ≡ false
null-insert_by a [] = refl
null-insert_by a (b ∷ l) = ground arith

pub null-order_by :
    (l : List LicenseAssignment) → null (order_by (λ b. b.order_item_id) l) ≡ true → l ≡ []
null-order_by [] h = refl
null-order_by (a ∷ l) h = cc (null-insert_by a (order_by (λ b. b.order_item_id) l))

pub filter-none :
    (p : LicenseAssignment → Bool) (l : List LicenseAssignment)
    → filter p l ≡ []
    → filter (λ a. not (p a)) l ≡ l
filter-none p [] h = refl
filter-none p (a ∷ l) h = elim (Bool-cases (p a)) [
  | inl e ↦ absurd (cc (rw e at h))
  | inr e ↦ rw e (ap (λ r. a ∷ r) (filter-none p l (rw e at h)))
]

update_where-none :
    (f : LicenseKey → LicenseKey) (keys : List LicenseKey)
    → update_where (λ k. contains k.id []) f keys ≡ keys
update_where-none f [] = refl
update_where-none f (k ∷ keys) = ap (λ r. k ∷ r) (update_where-none f keys)

released_none :
    (items : List OrderItem) (db : Db)
    → null (assignments_of items db) ≡ true
    → db ≡ released items db
unfolding released
released_none items db empty =
    let e = null-order_by (filter (of_items items) db.license_assignments) empty in
    let keys : db.license_keys ≡ (released items db).license_keys =
      rw e (sym (update_where-none mark_available db.license_keys)) in
    λ i. record db {
      license_keys = keys i;
      license_assignments = sym (filter-none (of_items items) db.license_assignments e) i;
    }

-- If the ids of the assignments are distinct, a release that commits leaves the database without
-- the assignments of the items, and their keys available; nothing else changes.
pub release_items-released :
    (items : List OrderItem) (db : Db)
    → Distinct (assignment_ids db.license_assignments)
    → Post (λ _ db'. db' ≡ released items db) (release_items items db)
unfolding release_items
release_items-released items db distinct_ids =
    Post-bind (λ found db'. (db' ≡ db) × (found ≡ assignments_of items db)) _
      (locked_reservation_assignments items) _ db (locked_reservation_reads items db)
      (λ found db' e. rw (e.0, e.1) (free_or_none (Bool-cases (null (assignments_of items db)))))
  where
    free_or_none :
        (null (assignments_of items db) ≡ true) ⊎ (null (assignments_of items db) ≡ false)
        → Post
            (λ _ db'. db' ≡ released items db)
            ((if null (assignments_of items db)
                then pure []
                else free_assignments (assignments_of items db))
              db)
    free_or_none (inl e) = rw e (unfold ◌>>=◌ in released_none items db e)
    free_or_none (inr e) = rw e (free_assignments-released items db distinct_ids)

module _ {strict : Bool} where
  pub released-HasStock :
      (items : List OrderItem) (db : Db) → HasStock strict db → HasStock strict (released items db)
  unfolding released
  released-HasStock items db h =
      free-IsStock strict db.license_keys db.license_assignments db.next_assignment h
        (of_items items) mark_available (λ k. refl) (λ k. refl)

  release_items-HasStock : (items : List OrderItem) → Keeps (HasStock strict) (release_items items)
  release_items-HasStock items = record {
    at = λ db h.
        Post-mono _ (λ _. HasStock strict) (release_items items db)
          (λ _ db' e. rw e (released-HasStock items db h))
          (release_items-released items db h.numbered);
  }

  pub release_order-HasStock :
      (n : ℕ) → Keeps (HasStock strict) (release_order_license_reservation n)
  unfolding release_order_license_reservation
  release_order-HasStock n = search (keeps_rules, get_order-HasStock, release_items-HasStock)

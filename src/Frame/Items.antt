-- ===== src/Frame/Items.antt =====
-- The work on order items, license keys and assignments writes none of the other tables.
use ludora.Common.{ℕ, Bool, List, [], ◌∷◌, Option, none, some}
use ludora.Store.{
  Db, Product, LicenseKey, Order, OrderItem, LicenseAssignment, get_product, get_order, update_keys,
  create_order_item, create_assignments, delete_assignments,
}
use ludora.Store.Hoare.{Keeps, Keeps-modify, Keeps-bind, Keeps-pure, Keeps-raise_if, keeps_rules}
use ludora.Orders.{
  payable_total, legacy_order_item, get_or_create_order_items_for_fulfilment,
  locked_reservation_assignments, pick_keys, free_assignments, release_items,
  release_order_license_reservation, reserve_fresh, reserve_items, reserve_order_licenses,
}
use ludora.Completion.{sell_reserved, sell_fresh, fulfil_order, delivered_key}

-- A predicate that reads none of the tables of order items, license keys and assignments.
abbrev pub ReadsNoItem : (Db → Type 0) → Type 0
ReadsNoItem P =
    (db : Db) (keys : List LicenseKey) (items : List OrderItem)
    (assignments : List LicenseAssignment) (next_item next_assignment : ℕ)
    → P db
    → P (record db {
      license_keys = keys;
      order_items = items;
      license_assignments = assignments;
      next_order_item = next_item;
      next_assignment = next_assignment;
    })

module _ (P : Db → Type 0) (frame : ReadsNoItem P) where
  pub update_keys-framed :
      (ids : List ℕ) (f : LicenseKey → LicenseKey) → Keeps P (update_keys ids f)
  unfolding update_keys
  update_keys-framed ids f = Keeps-modify _ (λ db h. frame db _ _ _ _ _ h)

  delete_assignments-framed : (ids : List ℕ) → Keeps P (delete_assignments ids)
  unfolding delete_assignments
  delete_assignments-framed ids = Keeps-modify _ (λ db h. frame db _ _ _ _ _ h)

  create_assignments-framed :
      (pairs : List (OrderItem × LicenseKey)) → Keeps P (create_assignments pairs)
  unfolding create_assignments
  create_assignments-framed pairs = record {
    at = λ db h.
        (Keeps-bind _ _ (Keeps-raise_if _ _) λ _.
            Keeps-bind _ _ (Keeps-modify _ λ d p. frame d _ _ _ _ _ p) λ _. Keeps-pure {P = P} _).at
          db h;
  }

  pub create_order_item-framed :
      (n : ℕ) (p : Product) (q u : ℕ) → Keeps P (create_order_item n p q u)
  unfolding create_order_item
  create_order_item-framed n p q u = record {
    at = λ db h.
        (Keeps-bind _ _ (Keeps-raise_if _ _) λ _. Keeps-bind _ _ (Keeps-raise_if _ _) λ _.
            Keeps-bind _ _ (Keeps-modify _ λ d i. frame d _ _ _ _ _ i) λ _. Keeps-pure {P = P} _).at
          db h;
  }

  ruleset writes = (
    keeps_rules, update_keys-framed, delete_assignments-framed, create_assignments-framed,
    create_order_item-framed,
  )

  get_product-framed : (n : ℕ) → Keeps P (get_product n)
  unfolding get_product
  get_product-framed n = search keeps_rules

  pub get_order-framed : (n : ℕ) → Keeps P (get_order n)
  unfolding get_order
  get_order-framed n = search keeps_rules

  pub payable_total-framed : (o : Order) → Keeps P (payable_total o)
  unfolding payable_total
  payable_total-framed o = search keeps_rules

  legacy_order_item-framed : (o : Order) (p : Option ℕ) (n : ℕ) → Keeps P (legacy_order_item o p n)
  unfolding legacy_order_item
  legacy_order_item-framed o none n = search writes
  legacy_order_item-framed o (some p) n = search (writes, get_product-framed)

  pub get_or_create-framed :
      (o : Order) (n : ℕ) → Keeps P (get_or_create_order_items_for_fulfilment o n)
  unfolding get_or_create_order_items_for_fulfilment
  get_or_create-framed o n = search (keeps_rules, legacy_order_item-framed)

  locked_reservation-framed :
      (items : List OrderItem) → Keeps P (locked_reservation_assignments items)
  unfolding locked_reservation_assignments
  locked_reservation-framed items = search keeps_rules

  pick_keys-framed :
      (candidates : OrderItem → List LicenseKey) (items : List OrderItem)
      → Keeps P (pick_keys candidates items)
  unfolding pick_keys
  pick_keys-framed candidates [] = Keeps-pure []
  pick_keys-framed candidates (item ∷ items) =
      Keeps-bind _ _ (Keeps-raise_if _ _)
        λ _. Keeps-bind _ _ (pick_keys-framed candidates items) λ rest. Keeps-pure _

  free_assignments-framed : (l : List LicenseAssignment) → Keeps P (free_assignments l)
  unfolding free_assignments
  free_assignments-framed l = search writes

  release_items-framed : (items : List OrderItem) → Keeps P (release_items items)
  unfolding release_items
  release_items-framed items =
      search (keeps_rules, locked_reservation-framed, free_assignments-framed)

  pub release_order-framed : (n : ℕ) → Keeps P (release_order_license_reservation n)
  unfolding release_order_license_reservation
  release_order-framed n = search (keeps_rules, get_order-framed, release_items-framed)

  sell_reserved-framed : (n : ℕ) (l : List LicenseAssignment) → Keeps P (sell_reserved n l)
  unfolding sell_reserved
  sell_reserved-framed n l = search writes

  sell_fresh-framed : (n : ℕ) (items : List OrderItem) → Keeps P (sell_fresh n items)
  unfolding sell_fresh
  sell_fresh-framed n items = search (writes, pick_keys-framed) depth 7

  pub fulfil_order-framed :
      (items : List OrderItem) (n : ℕ) (required : Bool) → Keeps P (fulfil_order items n required)
  unfolding fulfil_order
  fulfil_order-framed items n required =
      search (keeps_rules, locked_reservation-framed, sell_reserved-framed, sell_fresh-framed) depth
        8

  pub delivered_key-framed : (o : Order) (keys : List ℕ) → Keeps P (delivered_key o keys)
  unfolding delivered_key
  delivered_key-framed o keys = search keeps_rules

  reserve_fresh-framed :
      (locked : ℕ → Bool) (items : List OrderItem) → Keeps P (reserve_fresh locked items)
  unfolding reserve_fresh
  reserve_fresh-framed locked items = search (writes, pick_keys-framed) depth 7

  reserve_items-framed :
      (locked : ℕ → Bool) (items : List OrderItem) → Keeps P (reserve_items locked items)
  unfolding reserve_items
  reserve_items-framed locked items =
      search (keeps_rules, locked_reservation-framed, reserve_fresh-framed)

  pub reserve_order_licenses-framed :
      (locked : ℕ → Bool) (n : ℕ) → Keeps P (reserve_order_licenses locked n)
  unfolding reserve_order_licenses
  reserve_order_licenses-framed locked n =
      search
        (
          keeps_rules, get_order-framed, payable_total-framed, get_or_create-framed,
          reserve_items-framed,
        )
        depth 9

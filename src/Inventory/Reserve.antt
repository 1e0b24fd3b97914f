-- ===== src/Inventory/Reserve.antt =====
-- The reservation and the release of license keys keep the stock.
use ludora.Common.{ℕ, Bool, false, ◌≡◌, refl, List, Option, none, some, arith, ◌∷◌, []}
use ludora.Store.{
  ◌>>=◌, Order, OrderItem, LicenseKey, PaymentStatus, Payment, Product, get_product, get_order,
  get_payment, update_order, update_payment, update_keys, create_order_item, create_assignments,
  save_payment_status, is_available,
}
use ludora.Store.Hoare.{
  Keeps, Keeps-modify, Keeps-bind, Keeps-gets, Keeps-pure, Keeps-raise_if, keeps_rules,
}
use ludora.Inventory.{HasStock}
use ludora.Inventory.Writes.{assign-IsStock}
use ludora.Orders.{
  payable_total, legacy_order_item, get_or_create_order_items_for_fulfilment,
  locked_reservation_assignments, pick_keys, reserve_fresh, reserve_items, reserve_order_licenses,
  mark_reserved, paired_keys,
}

module _ {strict : Bool} where
  get_product-HasStock : (n : ℕ) → Keeps (HasStock strict) (get_product n)
  unfolding get_product
  get_product-HasStock n = search keeps_rules

  pub get_order-HasStock : (n : ℕ) → Keeps (HasStock strict) (get_order n)
  unfolding get_order
  get_order-HasStock n = search keeps_rules

  pub get_payment-HasStock : (n : ℕ) → Keeps (HasStock strict) (get_payment n)
  unfolding get_payment
  get_payment-HasStock n = search keeps_rules

  pub update_order-HasStock :
      (n : ℕ) (f : Order → Order) → Keeps (HasStock strict) (update_order n f)
  unfolding update_order
  update_order-HasStock n f = Keeps-modify _ (λ db h. h)

  pub update_payment-HasStock :
      (n : ℕ) (f : Payment → Payment) → Keeps (HasStock strict) (update_payment n f)
  unfolding update_payment
  update_payment-HasStock n f = Keeps-modify _ (λ db h. h)

  pub save_payment_status-HasStock :
      (p : Payment) (s : PaymentStatus) → Keeps (HasStock strict) (save_payment_status p s)
  unfolding save_payment_status
  save_payment_status-HasStock p s = search (keeps_rules, update_payment-HasStock)

  pub create_order_item-HasStock :
      (n : ℕ) (p : Product) (q u : ℕ) → Keeps (HasStock strict) (create_order_item n p q u)
  unfolding create_order_item ◌>>=◌
  create_order_item-HasStock n p q u = record { at = λ db h. ground arith }

  pub payable_total-HasStock : (o : Order) → Keeps (HasStock strict) (payable_total o)
  unfolding payable_total
  payable_total-HasStock o = search keeps_rules

  legacy_order_item-HasStock :
      (o : Order) (p : Option ℕ) (n : ℕ) → Keeps (HasStock strict) (legacy_order_item o p n)
  unfolding legacy_order_item
  legacy_order_item-HasStock o none n = search keeps_rules
  legacy_order_item-HasStock o (some p) n =
      search (keeps_rules, get_product-HasStock, create_order_item-HasStock)

  pub get_or_create_order_items-HasStock :
      (o : Order) (n : ℕ) → Keeps (HasStock strict) (get_or_create_order_items_for_fulfilment o n)
  unfolding get_or_create_order_items_for_fulfilment
  get_or_create_order_items-HasStock o n = search (keeps_rules, legacy_order_item-HasStock)

  pub locked_reservation-HasStock :
      (items : List OrderItem) → Keeps (HasStock strict) (locked_reservation_assignments items)
  unfolding locked_reservation_assignments
  locked_reservation-HasStock items = search keeps_rules

  pub pick_keys-HasStock :
      (candidates : OrderItem → List LicenseKey) (items : List OrderItem)
      → Keeps (HasStock strict) (pick_keys candidates items)
  unfolding pick_keys
  pick_keys-HasStock candidates [] = Keeps-pure []
  pick_keys-HasStock candidates (item ∷ items) =
      Keeps-bind _ _ (Keeps-raise_if _ _)
        λ _. Keeps-bind _ _ (pick_keys-HasStock candidates items) λ rest. Keeps-pure _

  -- Keys that get their assignments are marked with them.
  pub assign-HasStock :
      (pairs : List (OrderItem × LicenseKey)) (f : LicenseKey → LicenseKey)
      → ((k : LicenseKey) → (f k).id ≡ k.id)
      → ((k : LicenseKey) → is_available (f k).status ≡ false)
      → Keeps
          (HasStock strict)
          (update_keys (paired_keys pairs) f >>= λ _. create_assignments pairs)
  unfolding ◌>>=◌ update_keys create_assignments
  assign-HasStock pairs f same taken = record {
    at = λ db h. ground (
      arith,
      assign-IsStock strict db.license_keys db.license_assignments db.next_assignment h pairs f same
          taken,
    );
  }

  reserve_fresh-HasStock :
      (locked : ℕ → Bool) (items : List OrderItem)
      → Keeps (HasStock strict) (reserve_fresh locked items)
  unfolding reserve_fresh
  reserve_fresh-HasStock locked items = Keeps-bind _ _ (Keeps-gets _) λ candidates.
      Keeps-bind _ _ (pick_keys-HasStock candidates items)
        λ pairs. assign-HasStock pairs mark_reserved (λ k. refl) (λ k. refl)

  pub reserve_items-HasStock :
      (locked : ℕ → Bool) (items : List OrderItem)
      → Keeps (HasStock strict) (reserve_items locked items)
  unfolding reserve_items
  reserve_items-HasStock locked items =
      search (keeps_rules, locked_reservation-HasStock, reserve_fresh-HasStock)

  pub reserve_order_licenses-HasStock :
      (locked : ℕ → Bool) (n : ℕ) → Keeps (HasStock strict) (reserve_order_licenses locked n)
  unfolding reserve_order_licenses
  reserve_order_licenses-HasStock locked n =
      search
        (
          keeps_rules, get_order-HasStock, payable_total-HasStock,
          get_or_create_order_items-HasStock, reserve_items-HasStock,
        )
        depth 9

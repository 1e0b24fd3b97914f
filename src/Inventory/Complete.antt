-- ===== src/Inventory/Complete.antt =====
-- The completion of a payment keeps the stock.
use ludora.Common.{ℕ, ◌++◌, ◌∷◌, [], Bool, refl, List, Option, arith}
use ludora.Store.{
  ◌>>=◌, pure, modify, Order, OrderItem, LicenseAssignment, LicenseKey, Payment, update_keys,
  create_assignments,
}
use ludora.Store.Hoare.{Keeps, Keeps-modify, Keeps-bind, Keeps-gets, keeps_rules}
use ludora.Inventory.{HasStock}
use ludora.Inventory.Writes.{assign-IsStock, sell-IsStock}
use ludora.Inventory.Reserve.{
  payable_total-HasStock, get_order-HasStock, get_payment-HasStock, update_order-HasStock,
  update_payment-HasStock, get_or_create_order_items-HasStock, locked_reservation-HasStock,
  pick_keys-HasStock,
}
use ludora.Orders.{paired_keys, mark_sold}
use ludora.Completion.{
  sell_reserved, sell_fresh, fulfil_order, delivered_key, finish_payment, check_completable,
  complete_unpaid, complete_payment,
}

module _ {strict : Bool} where
  sell_keys-HasStock :
      (ids : List ℕ) (paid_at : ℕ) → Keeps (HasStock strict) (update_keys ids (mark_sold paid_at))
  unfolding update_keys
  sell_keys-HasStock ids paid_at = Keeps-modify _ λ db h.
      sell-IsStock strict db.license_keys db.license_assignments db.next_assignment h ids
        (mark_sold paid_at) (λ k. refl) (λ k. refl)

  sell_reserved-HasStock :
      (paid_at : ℕ) (reserved : List LicenseAssignment)
      → Keeps (HasStock strict) (sell_reserved paid_at reserved)
  unfolding sell_reserved
  sell_reserved-HasStock paid_at reserved = search (keeps_rules, sell_keys-HasStock)

  assign_then :
      (pairs : List (OrderItem × LicenseKey)) (paid_at : ℕ) (ids : List ℕ)
      → Keeps (HasStock strict) (
          update_keys (paired_keys pairs) (mark_sold paid_at) >>= λ _.
          create_assignments pairs >>= λ _. pure ids)
  unfolding ◌>>=◌ update_keys create_assignments
  assign_then pairs paid_at ids = record {
    at = λ db h. ground (
      arith,
      assign-IsStock strict db.license_keys db.license_assignments db.next_assignment h pairs
          (mark_sold paid_at) (λ k. refl) (λ k. refl),
    );
  }

  sell_fresh-HasStock :
      (paid_at : ℕ) (items : List OrderItem) → Keeps (HasStock strict) (sell_fresh paid_at items)
  unfolding sell_fresh
  sell_fresh-HasStock paid_at items = Keeps-bind _ _ (Keeps-gets _) λ candidates.
      Keeps-bind _ _ (pick_keys-HasStock candidates items)
        λ pairs. assign_then pairs paid_at (paired_keys pairs)

  fulfil_order-HasStock :
      (items : List OrderItem) (paid_at : ℕ) (required : Bool)
      → Keeps (HasStock strict) (fulfil_order items paid_at required)
  unfolding fulfil_order
  fulfil_order-HasStock items paid_at required =
      search (keeps_rules, locked_reservation-HasStock, sell_reserved-HasStock, sell_fresh-HasStock)
        depth 8

  delivered_key-HasStock :
      (o : Order) (keys : List ℕ) → Keeps (HasStock strict) (delivered_key o keys)
  unfolding delivered_key
  delivered_key-HasStock o keys = search keeps_rules

  queue_email-HasStock :
      (n : ℕ)
      → Keeps
          (HasStock strict)
          (modify (λ db. record db { queued_emails = db.queued_emails ++ n ∷ [] }))
  queue_email-HasStock n = Keeps-modify _ (λ db h. h)

  finish_payment-HasStock :
      (now : ℕ) (o : Order) (p : Payment) (price : ℕ) (key : Option ℕ)
      → Keeps (HasStock strict) (finish_payment now o p price key)
  unfolding finish_payment
  finish_payment-HasStock now o p price key =
      search (keeps_rules, update_order-HasStock, update_payment-HasStock, queue_email-HasStock)
        depth 9

  check_completable-HasStock :
      (o : Order) (p : Payment) → Keeps (HasStock strict) (check_completable o p)
  unfolding check_completable
  check_completable-HasStock o p = search (keeps_rules, payable_total-HasStock) depth 9

  complete_unpaid-HasStock :
      (now : ℕ) (o : Order) (p : Payment) → Keeps (HasStock strict) (complete_unpaid now o p)
  unfolding complete_unpaid
  complete_unpaid-HasStock now o p =
      search
        (
          keeps_rules, check_completable-HasStock, get_or_create_order_items-HasStock,
          fulfil_order-HasStock, delivered_key-HasStock, finish_payment-HasStock,
        )
        depth 9

  pub complete_payment-HasStock : (now n : ℕ) → Keeps (HasStock strict) (complete_payment now n)
  unfolding complete_payment
  complete_payment-HasStock now n =
      search (keeps_rules, get_order-HasStock, get_payment-HasStock, complete_unpaid-HasStock) depth
        9

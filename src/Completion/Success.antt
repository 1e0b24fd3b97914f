-- ===== src/Completion/Success.antt =====
-- A payment whose order is reserved is completed.
use ludora.Common.{
  ℕ, Bool, true, false, ◌≡◌, refl, ◌∙◌, ◌⊎◌, inl, inr, List, [], ◌∷◌, ◌++◌, Option, some, arith,
  ltb, ◌==◌, filter, null, head?, contains, update_where, ==-refl,
}
use ludora.Store.{
  Db, raise_if, order_payment_error, no_product_reference, ok, ◌>>=◌, Order, OrderItem, Payment,
  is_direct, assigned_keys, decimal_10_limit, find_order, find_payment, items_of_order, update_keys,
  update_order, update_payment,
}
use ludora.Store.Hoare.{bind-ok}
use ludora.Orders.{
  payable_total, get_or_create_order_items_for_fulfilment, locked_reservation_assignments,
  assignments_of, is_reservation, mark_sold, key_ids,
}
use ludora.Completion.{
  paid_order, paid_payment, has_key_of_another, sell_reserved, fulfil_order, delivered_key,
  finish_payment, check_completable, complete_unpaid, complete_payment,
}
use ludora.Completion.Effect.{IsCompletable, complete_rows}

-- The ids of the keys that are reserved for the items, as they are sold.
abbrev pub reserved_keys : List OrderItem → Db → List ℕ
reserved_keys items db =
    key_ids (filter (λ k. contains k.id (assigned_keys (assignments_of items db))) db.license_keys)

-- The order has items with a reservation in order, and a key to deliver that no other order has.
pub record IsReady (db : Db) (order : Order) (payment : Payment) (price : ℕ) (key : Option ℕ)
    : Type 0 where
  pub completable : IsCompletable order payment price
  pub small : ltb price decimal_10_limit ≡ true
  pub has_items : null (items_of_order order.id db) ≡ false
  pub is_reserved : null (assignments_of (items_of_order order.id db) db) ≡ false
  pub consistent :
      is_reservation
        (items_of_order order.id db)
        db.license_keys
        (assignments_of (items_of_order order.id db) db)
      ≡ true
  pub delivers :
      ((is_direct order.source ≡ false) × (key ≡ order.license_key_id))
      ⊎ ((k : ℕ) × (is_direct order.source ≡ true)
          × (head? (reserved_keys (items_of_order order.id db) db) ≡ some k)
          × (key ≡ some k))
  pub exclusive : has_key_of_another order key db ≡ false

-- The keys of the reservation are sold.
abbrev pub sold : ℕ → List OrderItem → Db → Db
sold now items db = record db {
  license_keys =
      update_where (λ k. contains k.id (assigned_keys (assignments_of items db))) (mark_sold now)
        db.license_keys;
}

-- Order and payment are paid, and the mail is queued.
abbrev pub settled : ℕ → Order → Payment → ℕ → Option ℕ → Db → Db
settled now order payment price key db = record db {
  orders = update_where (λ o. o.id == order.id) (paid_order price now key) db.orders;
  payments = update_where (λ p. p.id == payment.id) (paid_payment now) db.payments;
  queued_emails = db.queued_emails ++ order.id ∷ [];
}

module _ (now : ℕ) (db : Db) (o : Order) (p : Payment) (price : ℕ) (key : Option ℕ)
    (ready : IsReady db o p price key) where
  abbrev items : List OrderItem
  items = items_of_order o.id db

  checks : check_completable o p db ≡ ok (price, db)
  unfolding check_completable payable_total ◌>>=◌
  checks =
      let c = ready.completable in
      ground (
        arith,
        c.unpaid,
        c.open_payment,
        c.priced,
        c.matches,
        c.authorized,
        ==-refl price,
        ==-refl p.id,
      )

  reads : get_or_create_order_items_for_fulfilment o price db ≡ ok (items, db)
  unfolding get_or_create_order_items_for_fulfilment ◌>>=◌
  reads = rw ready.has_items refl

  locks : locked_reservation_assignments items db ≡ ok (assignments_of items db, db)
  unfolding locked_reservation_assignments ◌>>=◌
  locks = rw (ready.is_reserved, ready.consistent) refl

  sells :
      (required : Bool)
      → fulfil_order items now required db ≡ ok (reserved_keys items db, sold now items db)
  unfolding fulfil_order sell_reserved update_keys
  sells required = rw ready.has_items (
      bind-ok (raise_if false (order_payment_error no_product_reference)) _ db db tt
        (unfold ◌>>=◌ in refl)
      ∙ bind-ok (locked_reservation_assignments items) _ db db (assignments_of items db) locks
      ∙ rw ready.is_reserved (unfold ◌>>=◌ in refl))

  delivers_key :
      delivered_key o (reserved_keys items db) (sold now items db) ≡ ok (key, sold now items db)
  unfolding delivered_key ◌>>=◌
  delivers_key = elim ready.delivers [
    | inl (from_cart, same) ↦ rw (from_cart, same) refl
    | inr (k, direct, first, same) ↦ rw (direct, first, same) refl
  ]

  finishes :
      finish_payment now o p price key (sold now items db)
      ≡ ok (tt, settled now o p price key (sold now items db))
  unfolding finish_payment update_order update_payment ◌>>=◌
  finishes = ground (arith, ready.small, ready.exclusive)

  completes_unpaid :
      complete_unpaid now o p db
      ≡ ok (
        record { order = paid_order price now key o; already_completed = false },
        settled now o p price key (sold now items db),
      )
  unfolding complete_unpaid
  completes_unpaid =
      bind-ok (check_completable o p) _ db db price checks
      ∙ bind-ok (get_or_create_order_items_for_fulfilment o price) _ db db items reads
      ∙ bind-ok (fulfil_order items now _) _ db (sold now items db) (reserved_keys items db)
          (sells _)
      ∙ bind-ok (delivered_key o (reserved_keys items db)) _ (sold now items db) (sold now items db)
          key delivers_key
      ∙ bind-ok (finish_payment now o p price key) _ (sold now items db)
          (settled now o p price key (sold now items db)) tt finishes
      ∙ unfold ◌>>=◌ in refl

-- A payment that is found with its order is completed, if the order is unpaid and priced, has items
-- with a reservation in order and a key to deliver that no other order has, and the payment is open,
-- authorized and of the order's amount: exactly the keys of the reservation are sold, the order and
-- the payment are paid, and one mail is queued.
pub complete_payment-IsReady :
    (now n price : ℕ) (key : Option ℕ) (db : Db) (o : Order) (p : Payment)
    → find_payment n db ≡ some p
    → find_order p.order_id db ≡ some o
    → IsReady db o p price key
    → complete_payment now n db
      ≡ ok (
        record { order = paid_order price now key o; already_completed = false },
        settled now o p price key (sold now (items_of_order o.id db) db),
      )
complete_payment-IsReady now n price key db o p hp ho ready =
    rw (complete_rows now n db p o hp ho, ready.completable.unpaid)
      (completes_unpaid now db o p price key ready)

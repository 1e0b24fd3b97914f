-- ===== src/Store/Tables.antt =====
-- The queries and writes of the ORM on the tables of backend/apps/orders/models.py and
-- backend/apps/games/models.py, with the constraints that the database checks on a write: unique
-- indexes and check constraints (IntegrityError) and the digits of a decimal column (DataError).
use ludora.Common.{
  ℕ, suc, Text, List, [], ◌∷◌, ◌++◌, map, Option, none, Bool, not, ◌&&◌, ◌||◌, ◌==◌, ltb, filter,
  find, any, update_where, order_by, contains, distinct,
}
use ludora.Store.Rows.{
  Product, LicenseKey, Order, OrderItem, LicenseAssignment, Payment, PaymentStatus, Db,
  is_active_payment,
}
use ludora.Store.Errors.{does_not_exist, integrity_error, data_error}
use ludora.Store.Transaction.{Tx, ◌>>=◌, ◌>>◌, pure, gets, or_raise, raise_if, modify}

-- `max_digits=10, decimal_places=2`, in cents.
abbrev pub decimal_10_limit : ℕ
decimal_10_limit = 10000000000

-- `max_digits=12, decimal_places=2`, in cents.
abbrev pub decimal_12_limit : ℕ
decimal_12_limit = 1000000000000

abbrev pub find_product : ℕ → Db → Option Product
find_product n db = find (λ p. p.id == n) db.products

abbrev pub find_order : ℕ → Db → Option Order
find_order n db = find (λ o. o.id == n) db.orders

abbrev pub find_payment : ℕ → Db → Option Payment
find_payment n db = find (λ p. p.id == n) db.payments

-- `.get(id=…)`
unfoldable pub get_product : ℕ → Tx Product
get_product n = do found ← gets (find_product n); or_raise found does_not_exist

unfoldable pub get_order : ℕ → Tx Order
get_order n = do found ← gets (find_order n); or_raise found does_not_exist

unfoldable pub get_payment : ℕ → Tx Payment
get_payment n = do found ← gets (find_payment n); or_raise found does_not_exist

-- `order.items.order_by("product_id", "id")`
abbrev pub items_of_order : ℕ → Db → List OrderItem
items_of_order n db = order_by (λ i. i.product_id) (filter (λ i. i.order_id == n) db.order_items)

-- `Payment.objects.filter(order=…, status__in=(CREATED, PENDING)).order_by("created_at", "id")
-- .first()`: rows are created in the order of their ids.
abbrev pub active_payment_of_order : ℕ → Db → Option Payment
active_payment_of_order n db = find (λ p. p.order_id == n && is_active_payment p.status) db.payments

-- The ids of the license keys that have an assignment.
abbrev pub assigned_keys : List LicenseAssignment → List ℕ
assigned_keys = map (λ a. a.license_key_id)

-- `Order.objects.filter(id=n).update(…)`
unfoldable pub update_order : ℕ → (Order → Order) → Tx (Unit {0})
update_order n f = modify λ db. record db { orders = update_where (λ o. o.id == n) f db.orders }

unfoldable pub update_payment : ℕ → (Payment → Payment) → Tx (Unit {0})
update_payment n f =
    modify λ db. record db { payments = update_where (λ p. p.id == n) f db.payments }

-- `LicenseKey.objects.bulk_update(keys, …)`
unfoldable pub update_keys : List ℕ → (LicenseKey → LicenseKey) → Tx (Unit {0})
update_keys ids f =
    modify
      λ db. record db { license_keys = update_where (λ k. contains k.id ids) f db.license_keys }

-- Another active payment of the order: what the index `unique_active_payment_per_order` refuses.
abbrev pub has_other_active : ℕ → ℕ → List Payment → Bool
has_other_active order_id payment_id =
    any λ p. p.order_id == order_id && is_active_payment p.status && not (p.id == payment_id)

-- A write of the status column of a payment.
unfoldable pub save_payment_status : Payment → PaymentStatus → Tx (Unit {0})
save_payment_status payment status = do
  payments ← gets (λ db. db.payments)
  raise_if (is_active_payment status && has_other_active payment.order_id payment.id payments)
      integrity_error
  update_payment payment.id (λ p. record p { status = status })

-- `Payment.objects.create(order=…, status=CREATED, amount=…, provider=…)`
unfoldable pub create_payment_row : ℕ → ℕ → Option Text → Tx Payment
create_payment_row order_id amount provider db =
    let row : Payment = record {
      id = db.next_payment;
      order_id = order_id;
      status = PaymentStatus.created;
      provider = provider;
      transaction_id = none;
      checkout_url = none;
      amount = amount;
      paid_at = none;
    } in
    (do
      raise_if (not (ltb amount decimal_10_limit)) data_error
      raise_if (has_other_active order_id db.next_payment db.payments) integrity_error
      modify
          (λ d. record d { payments = d.payments ++ row ∷ []; next_payment = suc d.next_payment })
      pure row)
      db

-- `OrderItem.objects.create(…)`
unfoldable pub create_order_item : ℕ → Product → ℕ → ℕ → Tx OrderItem
create_order_item order_id product quantity unit_price db =
    let row : OrderItem = record {
      id = db.next_order_item;
      order_id = order_id;
      product_id = product.id;
      product_title = product.title;
      quantity = quantity;
      unit_price = unit_price;
    } in
    (do
      raise_if (not (ltb unit_price decimal_10_limit)) data_error
      raise_if
          (quantity == 0
            || any (λ i. i.order_id == order_id && i.product_id == product.id) db.order_items)
          integrity_error
      modify λ d. record d {
        order_items = d.order_items ++ row ∷ [];
        next_order_item = suc d.next_order_item;
      }
      pure row)
      db

-- The rows of `LicenseAssignment(order_item=…, license_key=…)`, numbered by the sequence.
abbrev pub assignment_rows : ℕ → List (OrderItem × LicenseKey) → List LicenseAssignment
assignment_rows n [] = []
assignment_rows n ((item, key) ∷ pairs) =
    record { id = n; order_item_id = item.id; license_key_id = key.id }
    ∷ assignment_rows (suc n) pairs

abbrev pub advance : List (OrderItem × LicenseKey) → ℕ → ℕ
advance [] n = n
advance (_ ∷ pairs) n = advance pairs (suc n)

-- `LicenseAssignment.objects.bulk_create(…)`: a key has one assignment at most.
unfoldable pub create_assignments : List (OrderItem × LicenseKey) → Tx (List LicenseAssignment)
create_assignments pairs db =
    let rows = assignment_rows db.next_assignment pairs in
    (do
      raise_if (not (distinct (assigned_keys (db.license_assignments ++ rows)))) integrity_error
      modify λ d. record d {
        license_assignments = d.license_assignments ++ rows;
        next_assignment = advance pairs d.next_assignment;
      }
      pure rows)
      db

-- `LicenseAssignment.objects.filter(id__in=ids).delete()`
unfoldable pub delete_assignments : List ℕ → Tx (Unit {0})
delete_assignments ids = modify λ db. record db {
  license_assignments = filter (λ a. not (contains a.id ids)) db.license_assignments;
}

-- `OrderItem.objects.filter(pk=n).delete()`, which cascades to the assignments of the item.
unfoldable pub delete_order_item : ℕ → Tx (Unit {0})
delete_order_item n = modify λ db. record db {
  order_items = filter (λ i. not (i.id == n)) db.order_items;
  license_assignments = filter (λ a. not (a.order_item_id == n)) db.license_assignments;
}

-- ===== src/OrdersApi/Details.antt =====
-- The detail of an order as the orders API shows it and the bot reads it: backend/apps/orders/serializers.py
-- with bot/app/api/schemas.py.
use ludora.Common.{
  Bool-cases, Option-cases, inl, inr, All-map, ℕ, ◌*◌, ◌<◌, false, ◌≡◌, refl, [], ◌∷◌, map, Option,
  none, some, Text, null, All, order_by, if◌then◌else◌,
}
use ludora.Json.{text, get}
use ludora.Store.{
  Db, LicenseKey, Order, OrderStatus, OrderItem, LicenseAssignment, Payment, is_paid_order,
}
use ludora.Emails.{all_items, find_key}
use ludora.Bot.Outcome.{returned}
use ludora.Bot.Schemas.Fields.{
  each, Formats, as_required, required_string, datetime, positive_int, decimal, optional_string,
}
use ludora.Bot.Schemas.Purchases
use ludora.Bot.Schemas.Purchases.{
  read_license_assignment, read_order_detail_item, read_order_payment, read_order_detail,
}
use ludora.OrdersApi.{
  Stamps, order_status, order_item_fields, license_assignment_json, my_order_item_json,
  my_order_payment_json, my_order_detail_json, assignments_of_item, payments_of,
}
use ludora.OrdersApi.Decoded.{
  Agrees, price, instant_of, elements-array_of, each-map, positive, payment_of, payment_lem,
}

abbrev pub key_of : Option LicenseKey → Option Text
key_of none = none
key_of (some key) = some key.value

-- An assignment as the bot reads it: its key is shown for a paid order only.
abbrev pub assignment_of : Order → Db → LicenseAssignment → Purchases.LicenseAssignment
assignment_of order db a = record {
  id = a.id;
  license_key = if is_paid_order order.status then key_of (find_key a.license_key_id db) else none;
}

abbrev pub item_of : Order → Db → OrderItem → Purchases.OrderDetailItem
item_of order db item = record {
  product = item.product_id;
  product_title = item.product_title;
  quantity = item.quantity;
  unit_price = price item.unit_price;
  line_total = price (item.unit_price * item.quantity);
  license_assignments = map (assignment_of order db) (assignments_of_item item db);
}

-- An item with positive numbers, a title, and assignments with ids.
abbrev pub IsItem : Db → OrderItem → Type 0
IsItem db item =
    (0 < item.product_id)
    × (null item.product_title ≡ false)
    × (0 < item.quantity)
    × All (λ a. 0 < a.id) (assignments_of_item item db)

pub not_null : (t : Text) → null t ≡ false → as_required (some (text t)) ≡ some t
not_null [] h = cc
not_null (c ∷ cs) h = refl

pub assignment_lem :
    (order : Order) (db : Db) (a : LicenseAssignment)
    → 0 < a.id
    → read_license_assignment (license_assignment_json order db a)
      ≡ returned (assignment_of order db a)
unfolding read_license_assignment license_assignment_json positive_int optional_string get
assignment_lem order db a h = rw (positive a.id h) (elim (Bool-cases (is_paid_order order.status)) [
  | inl paid ↦ elim (Option-cases (find_key a.license_key_id db)) [
    | inl missing ↦ rw (paid, missing) refl
    | inr (key, found) ↦ rw (paid, found) refl
  ]
  | inr unpaid ↦ rw unpaid refl
])

module _ (formats : Formats) (stamps : Stamps) (agrees : Agrees formats stamps) (order : Order)
    (db : Db) where
  pub item_lem :
      (item : OrderItem)
      → IsItem db item
      → read_order_detail_item formats (my_order_item_json order db item)
        ≡ returned (item_of order db item)
  unfolding read_order_detail_item my_order_item_json order_item_fields positive_int required_string
      decimal get
  item_lem item h =
      let read =
        each-map read_license_assignment (license_assignment_json order db) (assignment_of order db)
          (assignments_of_item item db)
          (All-map {P = λ a. 0 < a.id}
            {Q = λ a.
              read_license_assignment (license_assignment_json order db a)
              ≡ returned (assignment_of order db a)}
            (assignments_of_item item db) (assignment_lem order db) h.3) in
      rw
        (
          elements-array_of (map (license_assignment_json order db) (assignments_of_item item db)),
          positive item.product_id h.0,
          not_null item.product_title h.1,
          positive item.quantity h.2,
          agrees.prices item.unit_price,
          agrees.prices (item.unit_price * item.quantity),
          read,
        )
        refl

abbrev text_of : Option Text → Text
text_of none = []
text_of (some t) = t

-- A payment with an id, a provider and a transaction id.
abbrev pub IsPayment : Payment → Type 0
IsPayment p =
    (0 < p.id)
    × (p.provider ≡ some (text_of p.provider))
    × (p.transaction_id ≡ some (text_of p.transaction_id))

-- The detail of an order as the bot reads it.
abbrev pub detail_of : Stamps → Db → Order → Text → ℕ → Purchases.OrderDetail
detail_of stamps db order order_number total = record {
  id = order.id;
  order_number = order_number;
  status = order_status order.status;
  total_price = price total;
  created_at = instant_of (stamps.order_created_at order.id);
  items = map (item_of order db) (order_by (λ i. i.id) (all_items order db));
  payments =
      map (λ p. payment_of stamps p (text_of p.provider) (text_of p.transaction_id))
        (payments_of stamps order db);
}

pub order_status-as_required :
    (status : OrderStatus)
    → as_required (some (text (order_status status))) ≡ some (order_status status)
order_status-as_required OrderStatus.created = refl
order_status-as_required OrderStatus.paid = refl
order_status-as_required OrderStatus.cancelled = refl

-- The items of an order, all well formed, as the bot reads them.
pub items_read :
    (formats : Formats) (stamps : Stamps) (order : Order) (db : Db)
    → Agrees formats stamps
    → All (IsItem db) (order_by (λ i. i.id) (all_items order db))
    → each
        (read_order_detail_item formats)
        (map (my_order_item_json order db) (order_by (λ i. i.id) (all_items order db)))
      ≡ returned (map (item_of order db) (order_by (λ i. i.id) (all_items order db)))
items_read formats stamps order db agrees items =
    each-map (read_order_detail_item formats) (my_order_item_json order db) (item_of order db)
      (order_by (λ i. i.id) (all_items order db))
      (All-map {P = IsItem db}
        {Q = λ i.
          read_order_detail_item formats (my_order_item_json order db i)
          ≡ returned (item_of order db i)}
        (order_by (λ i. i.id) (all_items order db)) (item_lem formats stamps agrees order db) items)

-- The bot reads the detail that the API shows of an order: its number, status, total and time, its
-- items with their assignments, and its payments, where the order has an id, a number and a
-- total, its items positive numbers and titles, and its payments a provider and a transaction id.
pub read_order_detail-json :
    (formats : Formats) (stamps : Stamps) (order : Order) (db : Db) (order_number : Text)
    (total : ℕ)
    → Agrees formats stamps
    → 0 < order.id
    → order.order_number ≡ some order_number
    → null order_number ≡ false
    → order.total_price ≡ some total
    → All (IsItem db) (order_by (λ i. i.id) (all_items order db))
    → All IsPayment (payments_of stamps order db)
    → read_order_detail formats (my_order_detail_json stamps db order)
      ≡ returned (detail_of stamps db order order_number total)
unfolding read_order_detail my_order_detail_json positive_int required_string decimal datetime get
read_order_detail-json formats stamps order db order_number total agrees id number filled priced
      items payments =
    let payments_read =
      each-map (read_order_payment formats) (my_order_payment_json stamps)
        (λ p. payment_of stamps p (text_of p.provider) (text_of p.transaction_id))
        (payments_of stamps order db)
        (All-map {P = IsPayment}
          {Q = λ p.
            read_order_payment formats (my_order_payment_json stamps p)
            ≡ returned (payment_of stamps p (text_of p.provider) (text_of p.transaction_id))}
          (payments_of stamps order db)
          (λ p h.
            payment_lem formats stamps agrees p (text_of p.provider) (text_of p.transaction_id) h.0
              h.1 h.2)
          payments) in
    rw
      (
        elements-array_of
            (map (my_order_item_json order db) (order_by (λ i. i.id) (all_items order db))),
        elements-array_of (map (my_order_payment_json stamps) (payments_of stamps order db)),
        positive order.id id,
        number,
        not_null order_number filled,
        order_status-as_required order.status,
        priced,
        agrees.prices total,
        agrees.instants (stamps.order_created_at order.id),
        items_read formats stamps order db agrees items,
        payments_read,
      )
      refl

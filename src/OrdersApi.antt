-- ===== src/OrdersApi.antt =====
-- backend/apps/orders/serializers.py and backend/apps/orders/selectors.py: what the orders API shows a user of the
-- user's orders. The framework's text of an instant, and the columns that the framework stamps, are
-- parameters.
pub mod Decoded
pub mod Details
pub mod Keys
pub mod Unreadable
use ludora.Common.{
  ℕ, ◌*◌, List, [], ◌∷◌, ◌++◌, map, Option, none, some, ◌==◌, Text, codes, filter, find, order_by,
  sum_by, holds, if◌then◌else◌,
}
use ludora.Json.{Json, empty, integer, text, array, object, Members, nil, member, array_of}
use ludora.Store.{
  Db, LicenseKey, Source, Order, OrderStatus, OrderItem, LicenseAssignment, Payment, PaymentStatus,
  is_paid_order,
}
use ludora.Emails.{all_items, find_key, print_price}

-- The columns `auto_now_add` and `auto_now` by the ids of their rows, and the text of an instant.
pub record Stamps : Type 0 where
  pub order_created_at : ℕ → ℕ
  pub order_updated_at : ℕ → ℕ
  pub payment_created_at : ℕ → ℕ
  pub print : ℕ → Text

-- A dictionary with these members.
abbrev pub members_of : List (Text × Json) → Members
members_of [] = nil
members_of ((name, value) ∷ rest) = member name value (members_of rest)

abbrev pub nullable_text : Option Text → Json
nullable_text none = empty
nullable_text (some t) = text t

-- A decimal is written as text.
abbrev pub price_json : Option ℕ → Json
price_json none = empty
price_json (some cents) = text (print_price (some cents))

abbrev pub instant_json : Stamps → Option ℕ → Json
instant_json stamps none = empty
instant_json stamps (some t) = text (stamps.print t)

abbrev pub order_status : OrderStatus → Text
order_status OrderStatus.created = codes "CREATED"
order_status OrderStatus.paid = codes "PAID"
order_status OrderStatus.cancelled = codes "CANCELLED"

abbrev pub source_name : Source → Text
source_name Source.direct = codes "DIRECT"
source_name Source.cart = codes "CART"

abbrev pub payment_status : PaymentStatus → Text
payment_status PaymentStatus.created = codes "CREATED"
payment_status PaymentStatus.pending = codes "PENDING"
payment_status PaymentStatus.paid = codes "PAID"
payment_status PaymentStatus.failed = codes "FAILED"
payment_status PaymentStatus.cancelled = codes "CANCELLED"
payment_status PaymentStatus.expired = codes "EXPIRED"

-- `OrderItemSerializer`
unfoldable pub order_item_fields : OrderItem → List (Text × Json)
order_item_fields item =
    (codes "product", integer item.product_id)
    ∷ (codes "product_title", text item.product_title)
    ∷ (codes "quantity", integer item.quantity)
    ∷ (codes "unit_price", price_json (some item.unit_price))
    ∷ (codes "line_total", price_json (some (item.unit_price * item.quantity)))
    ∷ []

abbrev pub value_json : Option LicenseKey → Json
value_json none = empty
value_json (some key) = text key.value

-- `LicenseAssignmentSerializer`, of an assignment to an item of the order.
unfoldable pub license_assignment_json : Order → Db → LicenseAssignment → Json
license_assignment_json order db assignment =
    let license_key =
      if is_paid_order order.status
      then value_json (find_key assignment.license_key_id db)
      else empty in
    object
      (members_of ((codes "id", integer assignment.id) ∷ (codes "license_key", license_key) ∷ []))

-- The assignments that `user_order_details` prefetches, by id.
abbrev pub assignments_of_item : OrderItem → Db → List LicenseAssignment
assignments_of_item item db =
    order_by (λ a. a.id) (filter (λ a. a.order_item_id == item.id) db.license_assignments)

-- `MyOrderItemSerializer`
unfoldable pub my_order_item_json : Order → Db → OrderItem → Json
unfolding order_item_fields license_assignment_json
my_order_item_json order db item = object (
    members_of (
      order_item_fields item
      ++ (
        codes "license_assignments",
        array (array_of (map (license_assignment_json order db) (assignments_of_item item db))),
      )
        ∷ []))

-- `MyOrderPaymentSerializer`
unfoldable pub my_order_payment_json : Stamps → Payment → Json
my_order_payment_json stamps payment = object (
    members_of (
      (codes "id", integer payment.id)
      ∷ (codes "status", text (payment_status payment.status))
      ∷ (codes "provider", nullable_text payment.provider)
      ∷ (codes "transaction_id", nullable_text payment.transaction_id)
      ∷ (codes "amount", price_json (some payment.amount))
      ∷ (codes "created_at", text (stamps.print (stamps.payment_created_at payment.id)))
      ∷ (codes "paid_at", instant_json stamps payment.paid_at)
      ∷ []))

-- The payments that `user_order_details` prefetches, by the time of their creation and by id.
abbrev pub payments_of : Stamps → Order → Db → List Payment
payments_of stamps order db =
    order_by (λ p. stamps.payment_created_at p.id)
      (order_by (λ p. p.id) (filter (λ p. p.order_id == order.id) db.payments))

-- `MyOrderDetailSerializer`
unfoldable pub my_order_detail_json : Stamps → Db → Order → Json
unfolding my_order_item_json my_order_payment_json
my_order_detail_json stamps db order = object (
    members_of (
      (codes "id", integer order.id)
      ∷ (codes "order_number", nullable_text order.order_number)
      ∷ (codes "status", text (order_status order.status))
      ∷ (codes "source", text (source_name order.source))
      ∷ (codes "email", text order.email)
      ∷ (codes "total_price", price_json order.total_price)
      ∷ (codes "price_paid", price_json order.price_paid)
      ∷ (codes "created_at", text (stamps.print (stamps.order_created_at order.id)))
      ∷ (codes "updated_at", text (stamps.print (stamps.order_updated_at order.id)))
      ∷ (codes "paid_at", instant_json stamps order.paid_at)
      ∷ (
        codes "items",
        array (
            array_of
              (map (my_order_item_json order db) (order_by (λ i. i.id) (all_items order db)))),
      )
      ∷ (
        codes "payments",
        array (array_of (map (my_order_payment_json stamps) (payments_of stamps order db))),
      )
      ∷ []))

-- `user_order_details`, of which the detail view takes the order with the id.
abbrev pub user_order_details : ℕ → ℕ → Db → Option Order
user_order_details user_id id db =
    find (λ o. o.id == id) (filter (λ o. holds o.user_id user_id) db.orders)

abbrev pub reverse_onto : List Order → List Order → List Order
reverse_onto [] acc = acc
reverse_onto (x ∷ xs) acc = reverse_onto xs (x ∷ acc)

-- `user_order_history`: the newest first, and of those created together the one with the largest id.
abbrev pub user_order_history : Stamps → ℕ → Db → List Order
user_order_history stamps user_id db =
    reverse_onto
      (order_by (λ o. stamps.order_created_at o.id)
        (order_by (λ o. o.id) (filter (λ o. holds o.user_id user_id) db.orders)))
      []

-- `MyOrderListSerializer`, with the annotated number of items.
unfoldable pub my_order_json : Stamps → Db → Order → Json
my_order_json stamps db order = object (
    members_of (
      (codes "id", integer order.id)
      ∷ (codes "status", text (order_status order.status))
      ∷ (codes "created_at", text (stamps.print (stamps.order_created_at order.id)))
      ∷ (codes "paid_at", instant_json stamps order.paid_at)
      ∷ (codes "total_price", price_json order.total_price)
      ∷ (codes "number_of_items", integer (sum_by (λ i. i.quantity) (all_items order db)))
      ∷ []))

-- `CheckoutOrderSerializer`
unfoldable pub checkout_order_json : Stamps → Db → Order → Json
unfolding order_item_fields
checkout_order_json stamps db order = object (
    members_of (
      (codes "id", integer order.id)
      ∷ (codes "order_number", nullable_text order.order_number)
      ∷ (codes "status", text (order_status order.status))
      ∷ (codes "source", text (source_name order.source))
      ∷ (codes "total_price", price_json order.total_price)
      ∷ (codes "price_paid", price_json order.price_paid)
      ∷ (
        codes "items",
        array (
            array_of (
              map (λ i. object (members_of (order_item_fields i)))
                (order_by (λ i. i.id) (all_items order db)))),
      )
      ∷ (codes "created_at", text (stamps.print (stamps.order_created_at order.id)))
      ∷ []))

-- ===== src/Orders.antt =====
-- backend/apps/orders/services.py: the reservation of license keys, fulfilment, and the ends of a
-- payment. Each function is the transaction that the source's function runs in; `select_for_update`
-- makes it one step, so that other transactions run before or after it. What `skip_locked` leaves
-- out is the argument `locked`: the ids of the keys that other transactions hold.
pub mod Picks
pub mod Reserved
pub mod Counts
pub mod Ownership
use ludora.Common.{
  ℕ, List, [], ◌∷◌, ◌++◌, map, Option, none, some, Bool, false, not, ◌&&◌, ◌||◌, ◌==◌, holds,
  is_none, filter, find, all, null, length, take, order_by, contains, if◌then◌else◌,
}
use ludora.Store.{
  LicenseKey, KeyStatus, Order, OrderItem, LicenseAssignment, Payment, PaymentStatus, Db, Tx, ◌>>=◌,
  ◌>>◌, pure, raise, gets, or_raise, raise_if, order_payment_error, value_error, is_available,
  is_reserved, is_direct, is_paid_order, is_paid, is_unsuccessful, no_authoritative_total,
  no_product_reference, reservation_inconsistent, paid_orders_cannot_reserve,
  paid_orders_cannot_release, no_keys_available, payment_not_of_order,
  reservation_of_another_payment, get_product, get_order, items_of_order, assigned_keys,
  update_order, update_keys, save_payment_status, create_order_item, create_assignments,
  delete_assignments,
}

unfoldable pub payable_total : Order → Tx ℕ
payable_total order = or_raise order.total_price (order_payment_error no_authoritative_total)

-- The branch of `get_or_create_order_items_for_fulfilment` for an order without items.
unfoldable pub legacy_order_item : Order → Option ℕ → ℕ → Tx (List OrderItem)
legacy_order_item order none price = raise (order_payment_error no_product_reference)
legacy_order_item order (some product_id) price = do
  product ← get_product product_id
  item ← create_order_item order.id product 1 price
  pure (item ∷ [])

unfoldable pub get_or_create_order_items_for_fulfilment : Order → ℕ → Tx (List OrderItem)
get_or_create_order_items_for_fulfilment order legacy_unit_price = do
  order_items ← gets (items_of_order order.id)
  if not (null order_items) || not (is_direct order.source)
      then pure order_items
      else legacy_order_item order order.product_id legacy_unit_price

abbrev pub item_ids : List OrderItem → List ℕ
item_ids = map λ i. i.id

abbrev pub key_ids : List LicenseKey → List ℕ
key_ids = map λ k. k.id

-- `LicenseAssignment.objects.filter(order_item__in=items).order_by("order_item_id", "id")`
abbrev pub assignments_of : List OrderItem → Db → List LicenseAssignment
assignments_of items db =
    order_by (λ a. a.order_item_id)
      (filter (λ a. contains a.order_item_id (item_ids items)) db.license_assignments)

-- The body of the loop over the assignments: the key is reserved, and of the item's product.
abbrev pub backs : OrderItem → LicenseKey → Bool
backs item key = key.product_id == item.product_id && is_reserved key.status

abbrev pub both {ℓ κ} : {A : Type ℓ} {B : Type κ} → (A → B → Bool) → Option A → Option B → Bool
both f none b = false
both f (some a) none = false
both f (some a) (some b) = f a b

abbrev pub is_consistent : List OrderItem → List LicenseKey → LicenseAssignment → Bool
is_consistent items keys a =
    both backs (find (λ i. i.id == a.order_item_id) items)
      (find (λ k. k.id == a.license_key_id) keys)

abbrev pub count_of : List LicenseAssignment → OrderItem → ℕ
count_of assignments item = length (filter (λ a. a.order_item_id == item.id) assignments)

abbrev pub is_reservation : List OrderItem → List LicenseKey → List LicenseAssignment → Bool
is_reservation items keys assignments =
    all (is_consistent items keys) assignments
    && all (λ i. count_of assignments i == i.quantity) items

-- `_locked_reservation_assignments`
unfoldable pub locked_reservation_assignments : List OrderItem → Tx (List LicenseAssignment)
locked_reservation_assignments items = do
  assignments ← gets (assignments_of items)
  keys ← gets (λ db. db.license_keys)
  raise_if (not (null assignments) && not (is_reservation items keys assignments))
      (order_payment_error reservation_inconsistent)
  pure assignments

-- The pairs of an item and a key that the loops over the items collect, from the candidates of each
-- item: the database is written after the loop.
abbrev pub pair_with : OrderItem → List LicenseKey → List (OrderItem × LicenseKey)
pair_with item = map λ k. (item, k)

unfoldable pub pick_keys :
    (OrderItem → List LicenseKey) → List OrderItem → Tx (List (OrderItem × LicenseKey))
pick_keys candidates [] = pure []
pick_keys candidates (item ∷ items) = do
  let item_keys = take item.quantity (candidates item)
  raise_if (not (length item_keys == item.quantity)) (order_payment_error no_keys_available)
  rest ← pick_keys candidates items
  pure (pair_with item item_keys ++ rest)

-- The query of `reserve_order_licenses`: available, unassigned, and not locked by another
-- transaction.
abbrev pub reservable_keys : (ℕ → Bool) → Db → OrderItem → List LicenseKey
reservable_keys locked db item =
    filter
      (λ k.
        k.product_id == item.product_id
        && is_available k.status
        && not (contains k.id (assigned_keys db.license_assignments))
        && not (locked k.id))
      db.license_keys

-- The query of `_fulfil_order`, which waits for locked rows and does not look at assignments.
abbrev pub sellable_keys : Db → OrderItem → List LicenseKey
sellable_keys db item =
    filter (λ k. k.product_id == item.product_id && is_available k.status) db.license_keys

abbrev pub paired_keys : List (OrderItem × LicenseKey) → List ℕ
paired_keys = map λ p. p.1.id

abbrev pub mark_reserved : LicenseKey → LicenseKey
mark_reserved k = record k { status = KeyStatus.reserved }

abbrev pub mark_available : LicenseKey → LicenseKey
mark_available k = record k { status = KeyStatus.available }

abbrev pub mark_sold : ℕ → LicenseKey → LicenseKey
mark_sold paid_at k = record k { status = KeyStatus.sold; sold_at = some paid_at }

-- The second half of `reserve_order_licenses`: no reservation exists.
unfoldable pub reserve_fresh : (ℕ → Bool) → List OrderItem → Tx (List LicenseAssignment)
reserve_fresh locked items = do
  candidates ← gets (reservable_keys locked)
  pairs ← pick_keys candidates items
  update_keys (paired_keys pairs) mark_reserved
  create_assignments pairs

-- From the locked items of the order on.
unfoldable pub reserve_items : (ℕ → Bool) → List OrderItem → Tx (List LicenseAssignment)
reserve_items locked items = do
  raise_if (null items) (order_payment_error no_product_reference)
  existing ← locked_reservation_assignments items
  if null existing then reserve_fresh locked items else pure existing

-- `OrderItem.objects.select_for_update().filter(id__in=ids).order_by("product_id", "id")`
abbrev pub items_by_id : List ℕ → Db → List OrderItem
items_by_id ids db = order_by (λ i. i.product_id) (filter (λ i. contains i.id ids) db.order_items)

unfoldable pub reserve_order_licenses : (ℕ → Bool) → ℕ → Tx (List LicenseAssignment)
reserve_order_licenses locked order_id = do
  order ← get_order order_id
  raise_if (is_paid_order order.status) (order_payment_error paid_orders_cannot_reserve)
  price ← payable_total order
  order_items ← get_or_create_order_items_for_fulfilment order price
  items ← gets (items_by_id (item_ids order_items))
  reserve_items locked items

unfoldable pub free_assignments : List LicenseAssignment → Tx (List ℕ)
free_assignments assignments = do
  update_keys (assigned_keys assignments) mark_available
  delete_assignments (map (λ a. a.id) assignments)
  pure (assigned_keys assignments)

-- From the locked items of the order on.
unfoldable pub release_items : List OrderItem → Tx (List ℕ)
release_items items = do
  assignments ← locked_reservation_assignments items
  if null assignments then pure [] else free_assignments assignments

-- The source returns the released keys; here they are given by their ids.
unfoldable pub release_order_license_reservation : ℕ → Tx (List ℕ)
release_order_license_reservation order_id = do
  order ← get_order order_id
  raise_if (is_paid_order order.status) (order_payment_error paid_orders_cannot_release)
  items ← gets (items_of_order order_id)
  if null items then pure [] else release_items items

abbrev pub set_reservation : Option ℕ → Order → Order
set_reservation attempt o = record o { reservation_payment_attempt_id = attempt }

unfoldable pub authorize_order_reservation : Order → Payment → Tx (Unit {0})
authorize_order_reservation order payment = do
  raise_if (not (payment.order_id == order.id)) (order_payment_error payment_not_of_order)
  let attempt = order.reservation_payment_attempt_id
  raise_if (not (is_none attempt) && not (holds attempt payment.id))
      (order_payment_error reservation_of_another_payment)
  if holds attempt payment.id
      then pure tt
      else update_order order.id (set_reservation (some payment.id))

abbrev pub clear_reservation : Order → Tx (Unit {0})
clear_reservation order =
    if is_none order.reservation_payment_attempt_id
    then pure tt
    else update_order order.id (set_reservation none)

-- The end of `terminate_payment`, where the payment is recorded with its new status.
unfoldable pub release_after : Order → Payment → Tx Payment
release_after order payment = do
  release_order_license_reservation order.id
  clear_reservation order
  pure payment

-- The first half of `terminate_payment`: the new status, if it is new.
unfoldable pub record_status : Payment → PaymentStatus → Tx Payment
record_status payment status = do
  save_payment_status payment status
  pure (record payment { status = status })

-- `order` and `payment` are the locked rows.
unfoldable pub terminate_payment : Order → Payment → PaymentStatus → Tx Payment
terminate_payment order payment status = do
  raise_if (not (is_unsuccessful status)) value_error
  if is_paid payment.status then pure payment else do
    saved ← record_status payment status
    let attempt = order.reservation_payment_attempt_id
    let owns = is_none attempt || holds attempt payment.id
    if not (is_paid_order order.status) && owns then release_after order saved else pure saved

unfoldable pub fail_payment : Order → Payment → Tx Payment
fail_payment order payment = terminate_payment order payment PaymentStatus.failed

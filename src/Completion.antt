-- ===== src/Completion.antt =====
-- backend/apps/orders/services.py: `_fulfil_order` and `complete_payment`, the transaction that
-- sells the keys of an order and marks it paid. `now` is `timezone.now()`.
pub mod Effect
pub mod Twice
pub mod Success
use ludora.Common.{
  ℕ, List, [], ◌∷◌, ◌++◌, Option, none, some, Bool, true, false, not, ◌&&◌, ◌==◌, ltb, holds,
  is_none, filter, find, any, null, head?, contains, if◌then◌else◌,
}
use ludora.Store.{
  Order, OrderStatus, OrderItem, LicenseAssignment, Payment, PaymentStatus, Db, Tx, ◌>>=◌, ◌>>◌,
  pure, gets, or_raise, raise_if, modify, order_payment_error, index_error, integrity_error,
  data_error, does_not_exist, is_direct, is_paid_order, is_paid, is_completable,
  no_product_reference, reservation_inconsistent, payment_state_inconsistent,
  payment_cannot_be_completed, amount_mismatch, payment_not_authorized, decimal_10_limit, get_order,
  get_payment, assigned_keys, update_order, update_payment, update_keys, create_assignments,
}
use ludora.Orders.{
  payable_total, get_or_create_order_items_for_fulfilment, locked_reservation_assignments,
  pick_keys, sellable_keys, paired_keys, mark_sold, key_ids,
}

-- The reserved keys of the order are sold; the result lists them by id.
unfoldable pub sell_reserved : ℕ → List LicenseAssignment → Tx (List ℕ)
sell_reserved paid_at reserved = do
  keys ← gets (λ db. key_ids (filter (λ k. contains k.id (assigned_keys reserved)) db.license_keys))
  update_keys (assigned_keys reserved) (mark_sold paid_at)
  pure keys

-- Without a reservation, available keys are sold at once.
unfoldable pub sell_fresh : ℕ → List OrderItem → Tx (List ℕ)
sell_fresh paid_at items = do
  candidates ← gets sellable_keys
  pairs ← pick_keys candidates items
  update_keys (paired_keys pairs) (mark_sold paid_at)
  create_assignments pairs
  pure (paired_keys pairs)

-- `_fulfil_order`, which returns the sold keys: here their ids.
unfoldable pub fulfil_order : List OrderItem → ℕ → Bool → Tx (List ℕ)
fulfil_order items paid_at require_reservation = do
  raise_if (null items) (order_payment_error no_product_reference)
  reserved ← locked_reservation_assignments items
  if not (null reserved) then sell_reserved paid_at reserved else do
    raise_if require_reservation (order_payment_error reservation_inconsistent)
    sell_fresh paid_at items

-- `license_keys[0]` for a direct order; a cart order keeps its column.
unfoldable pub delivered_key : Order → List ℕ → Tx (Option ℕ)
delivered_key order keys =
    if is_direct order.source
    then (do key ← or_raise (head? keys) index_error; pure (some key))
    else pure order.license_key_id

-- Another order with this key: `Order.license_key` is a one-to-one column.
abbrev pub has_key_of_another : Order → Option ℕ → Db → Bool
has_key_of_another order none db = false
has_key_of_another order (some k) db =
    any (λ o. not (o.id == order.id) && holds o.license_key_id k) db.orders

abbrev pub paid_order : ℕ → ℕ → Option ℕ → Order → Order
paid_order price paid_at key o = record o {
  license_key_id = key;
  status = OrderStatus.paid;
  price_paid = some price;
  paid_at = some paid_at;
  reservation_payment_attempt_id = none;
}

abbrev pub paid_payment : ℕ → Payment → Payment
paid_payment paid_at p = record p { status = PaymentStatus.paid; paid_at = some paid_at }

-- The writes at the end of `complete_payment`, and the mail that is queued on commit.
unfoldable pub finish_payment : ℕ → Order → Payment → ℕ → Option ℕ → Tx (Unit {0})
finish_payment now order payment price key = do
  raise_if (not (ltb price decimal_10_limit)) data_error
  taken ← gets (has_key_of_another order key)
  raise_if taken integrity_error
  update_order order.id (paid_order price now key)
  update_payment payment.id (paid_payment now)
  modify λ db. record db { queued_emails = db.queued_emails ++ order.id ∷ [] }

-- CompletePaymentResult
pub record CompletePaymentResult : Type 0 where
  pub order : Order
  pub already_completed : Bool

-- `complete_payment` behind its first return, up to the fulfilment.
unfoldable pub check_completable : Order → Payment → Tx ℕ
check_completable order payment = do
  raise_if (is_paid_order order.status) (order_payment_error payment_state_inconsistent)
  raise_if (not (is_completable payment.status)) (order_payment_error payment_cannot_be_completed)
  price ← payable_total order
  raise_if (not (payment.amount == price)) (order_payment_error amount_mismatch)
  let attempt = order.reservation_payment_attempt_id
  raise_if (not (is_none attempt) && not (holds attempt payment.id))
      (order_payment_error payment_not_authorized)
  pure price

unfoldable pub complete_unpaid : ℕ → Order → Payment → Tx CompletePaymentResult
complete_unpaid now order payment = do
  price ← check_completable order payment
  items ← get_or_create_order_items_for_fulfilment order price
  keys ← fulfil_order items now (not (is_none order.reservation_payment_attempt_id))
  key ← delivered_key order keys
  finish_payment now order payment price key
  pure (record { order = paid_order price now key order; already_completed = false })

unfoldable pub complete_payment : ℕ → ℕ → Tx CompletePaymentResult
complete_payment now payment_id = do
  reference ← get_payment payment_id
  order ← get_order reference.order_id
  payments ← gets (λ db. db.payments)
  payment ←
      or_raise (find (λ p. p.id == payment_id && p.order_id == order.id) payments) does_not_exist
  if is_paid_order order.status && is_paid payment.status
      then pure (record { order = order; already_completed = true })
      else complete_unpaid now order payment

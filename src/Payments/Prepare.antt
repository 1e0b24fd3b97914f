-- ===== src/Payments/Prepare.antt =====
-- backend/apps/orders/payment_services.py, `create_payment`: its transactions, and those that it
-- shares with `_pay_order` of backend/apps/orders/services.py.
use ludora.Common.{
  ℕ, List, [], ◌∷◌, Option, none, some, Bool, true, false, not, ◌&&◌, ◌==◌, any, is_none, Text,
  is_text,
}
use ludora.Store.{
  Db, Tx, ◌>>=◌, ◌>>◌, pure, gets, or_raise, raise_if, Order, OrderItem, Payment,
  order_payment_error, integrity_error, already_paid, payment_in_progress, provider_misconfigured,
  is_paid_order, get_order, get_payment, active_payment_of_order, create_payment_row,
  delete_order_item, update_payment,
}
use ludora.Orders.{
  payable_total, get_or_create_order_items_for_fulfilment, reserve_order_licenses,
  authorize_order_reservation, fail_payment,
}
use ludora.Payments.Providers.{PaymentProvider, ProviderPayment, Settings, get_payment_provider}

-- `provider or get_payment_provider()`, with `ImproperlyConfigured` turned into the domain error.
abbrev pub select_provider : Settings → Option PaymentProvider → Tx PaymentProvider
select_provider settings (some provider) = pure provider
select_provider settings none =
    or_raise (get_payment_provider settings none) (order_payment_error provider_misconfigured)

-- `order.items.exists()`
abbrev pub has_items : ℕ → Db → Bool
has_items order_id db = any (λ i. i.order_id == order_id) db.order_items

-- What the first transaction hands on.
pub record Prepared : Type 0 where
  pub order : Order
  pub payment : Payment
  pub provider : PaymentProvider
  pub created_order_item_id : Option ℕ

-- `order_items[0].pk if order_items and not had_order_items else None`
abbrev pub created_item : Bool → List OrderItem → Option ℕ
created_item true items = none
created_item false [] = none
created_item false (item ∷ items) = some item.id

-- The first transaction of `create_payment`.
unfoldable pub prepare_attempt : Settings → (ℕ → Bool) → Option PaymentProvider → ℕ → Tx Prepared
prepare_attempt settings locked provider order_id = do
  order ← get_order order_id
  raise_if (is_paid_order order.status) (order_payment_error already_paid)
  amount ← payable_total order
  active ← gets (active_payment_of_order order.id)
  raise_if (not (is_none active)) (order_payment_error payment_in_progress)
  selected ← select_provider settings provider
  payment ← create_payment_row order.id amount (some selected.name)
  had_order_items ← gets (has_items order.id)
  items ← get_or_create_order_items_for_fulfilment order amount
  reserve_order_licenses locked order.id
  authorize_order_reservation order payment
  pure (record {
    order = order;
    payment = payment;
    provider = selected;
    created_order_item_id = created_item had_order_items items;
  })

abbrev pub delete_created_item : Option ℕ → Tx (Unit {0})
delete_created_item none = pure tt
delete_created_item (some n) = delete_order_item n

-- The transaction after a refusal of the provider: the payment fails, and an order item that the
-- first transaction made is deleted.
unfoldable pub abandon_attempt : Prepared → Tx (Unit {0})
abandon_attempt prepared = do
  locked_order ← get_order prepared.order.id
  locked_payment ← get_payment prepared.payment.id
  fail_payment locked_order locked_payment
  delete_created_item prepared.created_order_item_id

-- Another payment with this reference: `Payment.transaction_id` is unique.
abbrev pub has_transaction : Text → ℕ → Db → Bool
has_transaction reference payment_id db =
    any (λ p. is_text p.transaction_id reference && not (p.id == payment_id)) db.payments

abbrev pub with_reference : Text → Text → Payment → Payment
with_reference provider reference p = record p {
  provider = some provider;
  transaction_id = some reference;
}

-- The transaction in which `_pay_order` records the provider's reference.
unfoldable pub record_reference : Prepared → ProviderPayment → Tx Payment
record_reference prepared result = do
  payment ← get_payment prepared.payment.id
  taken ← gets (has_transaction result.external_id payment.id)
  raise_if taken integrity_error
  let name = prepared.provider.name
  update_payment payment.id (with_reference name result.external_id)
  pure (with_reference name result.external_id payment)

abbrev pub with_checkout : Text → Text → Option Text → Payment → Payment
with_checkout provider reference url p = record p {
  provider = some provider;
  transaction_id = some reference;
  checkout_url = url;
}

-- The transaction in which `create_payment` records the provider's reference and its page.
unfoldable pub record_checkout : Prepared → ProviderPayment → Tx Payment
record_checkout prepared result = do
  payment ← get_payment prepared.payment.id
  taken ← gets (has_transaction result.external_id payment.id)
  raise_if taken integrity_error
  let save = with_checkout prepared.provider.name result.external_id result.checkout_url
  update_payment payment.id save
  pure (save payment)

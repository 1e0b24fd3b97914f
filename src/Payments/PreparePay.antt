-- ===== src/Payments/PreparePay.antt =====
-- backend/apps/orders/services.py: the transactions of `_pay_order`.
use ludora.Common.{
  ℕ, Option, none, some, Bool, Text, ◌=ᵗ◌, is_blank, is_text, filter, ◌==◌, if◌then◌else◌,
}
use ludora.Store.{
  Tx, ◌>>=◌, ◌>>◌, pure, gets, or_raise, raise_if, Order, Payment, PaymentStatus, PaymentIssue,
  order_payment_error, already_paid, provider_misconfigured, stripe_requires_checkout,
  payment_rejected, payment_still_pending, is_paid_order, get_order, get_payment,
  active_payment_of_order, create_payment_row, save_payment_status,
}
use ludora.Orders.{payable_total, reserve_order_licenses, authorize_order_reservation, fail_payment}
use ludora.Completion.{complete_payment}
use ludora.Payments.Providers.{
  PaymentProvider, ProviderStatus, pending, succeeded, failed, Settings, get_payment_provider,
  stripe_name,
}
use ludora.Payments.Prepare.{Prepared, select_provider, has_items, created_item}

-- The active payment of the order, or a new one, which Stripe does not get here.
unfoldable pub active_or_new :
    Settings → Option PaymentProvider → Order → ℕ → Option Payment → Tx Payment
active_or_new settings provider order price (some payment) = pure payment
active_or_new settings provider order price none = do
  selected ← select_provider settings provider
  raise_if (selected.name =ᵗ stripe_name) (order_payment_error stripe_requires_checkout)
  create_payment_row order.id price none

-- `provider`, if its name is the recorded one, or the configured provider of that name.
abbrev pub matching_provider :
    Settings → Option PaymentProvider → Option Text → Option PaymentProvider
matching_provider settings (some provider) name =
    if is_text name provider.name then some provider else none
matching_provider settings none name = get_payment_provider settings name

-- The provider that a recorded reference belongs to.
unfoldable pub provider_of_reference :
    Settings → Option PaymentProvider → Option Text → Tx PaymentProvider
provider_of_reference settings provider name = do
  raise_if (is_blank name) (order_payment_error provider_misconfigured)
  or_raise (matching_provider settings provider name) (order_payment_error provider_misconfigured)

-- The first transaction of `_pay_order`.
unfoldable pub prepare_payment : Settings → (ℕ → Bool) → Option PaymentProvider → ℕ → Tx Prepared
prepare_payment settings locked provider order_id = do
  order ← get_order order_id
  raise_if (is_paid_order order.status) (order_payment_error already_paid)
  price_paid ← payable_total order
  active ← gets (active_payment_of_order order.id)
  payment ← active_or_new settings provider order price_paid active
  had_order_items ← gets (has_items order.id)
  reserve_order_licenses locked order.id
  authorize_order_reservation order payment
  items ← gets (λ db. filter (λ i. i.order_id == order.id) db.order_items)
  selected ←
      if is_blank payment.transaction_id
      then select_provider settings provider
      else provider_of_reference settings provider payment.provider
  pure (record {
    order = order;
    payment = payment;
    provider = selected;
    created_order_item_id = created_item had_order_items items;
  })

-- The last transaction of `_pay_order`: the order, or the issue that is raised once it has committed.
unfoldable pub apply_confirmation : ℕ → Prepared → ProviderStatus → Tx (Order × Option PaymentIssue)
apply_confirmation now prepared failed = do
  order ← get_order prepared.order.id
  payment ← get_payment prepared.payment.id
  fail_payment order payment
  pure (order, some payment_rejected)
apply_confirmation now prepared pending = do
  order ← get_order prepared.order.id
  payment ← get_payment prepared.payment.id
  save_payment_status payment PaymentStatus.pending
  pure (order, some payment_still_pending)
apply_confirmation now prepared succeeded = do
  order ← get_order prepared.order.id
  payment ← get_payment prepared.payment.id
  result ← complete_payment now payment.id
  pure (result.order, none)

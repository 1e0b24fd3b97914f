-- ===== src/Inventory/Attempts.antt =====
-- The transactions of payment attempts and webhooks keep the stock.
use ludora.Common.{ℕ, ◌++◌, ◌∷◌, [], Bool, false, Option, none, some, arith, Text}
use ludora.Store.{◌>>=◌, Order, Payment, create_payment_row, delete_order_item, modify}
use ludora.Store.Hoare.{Keeps, Keeps-modify, Keeps-pure, Keeps-or_raise, keeps_rules}
use ludora.Inventory.{HasStock}
use ludora.Inventory.Writes.{delete-IsStock}
use ludora.Inventory.Reserve.{
  payable_total-HasStock, get_order-HasStock, get_payment-HasStock, update_payment-HasStock,
  save_payment_status-HasStock, get_or_create_order_items-HasStock, reserve_order_licenses-HasStock,
}
use ludora.Inventory.Terminate.{authorize_order_reservation-HasStock, fail_payment-HasStock}
use ludora.Inventory.Complete.{complete_payment-HasStock}
use ludora.Payments.Providers.{
  PaymentProvider, ProviderPayment, ProviderStatus, pending, succeeded, failed, Settings,
}
use ludora.Payments.Prepare.{
  Prepared, select_provider, prepare_attempt, delete_created_item, abandon_attempt,
  record_reference, record_checkout,
}
use ludora.Payments.PreparePay.{
  active_or_new, provider_of_reference, prepare_payment, apply_confirmation,
}
use ludora.Payments.Webhooks.{
  EventType, CheckoutSession, WebhookResult, apply_event, apply_session, apply_supported,
  process_stripe_webhook,
}

module _ {strict : Bool} where
  create_payment_row-HasStock :
      (o amount : ℕ) (provider : Option Text)
      → Keeps (HasStock strict) (create_payment_row o amount provider)
  unfolding create_payment_row ◌>>=◌
  create_payment_row-HasStock o amount provider = record { at = λ db h. ground arith }

  select_provider-HasStock :
      (s : Settings) (p : Option PaymentProvider) → Keeps (HasStock strict) (select_provider s p)
  select_provider-HasStock s none = Keeps-or_raise _ _
  select_provider-HasStock s (some p) = Keeps-pure p

  ruleset attempt_rules = (
    keeps_rules, get_order-HasStock, get_payment-HasStock, payable_total-HasStock,
    update_payment-HasStock, create_payment_row-HasStock, select_provider-HasStock,
    get_or_create_order_items-HasStock, reserve_order_licenses-HasStock,
    authorize_order_reservation-HasStock,
  )

  pub prepare_attempt-HasStock :
      (s : Settings) (locked : ℕ → Bool) (p : Option PaymentProvider) (n : ℕ)
      → Keeps (HasStock strict) (prepare_attempt s locked p n)
  unfolding prepare_attempt
  prepare_attempt-HasStock s locked p n = search attempt_rules depth 14

  pub record_reference-HasStock :
      (p : Prepared) (r : ProviderPayment) → Keeps (HasStock strict) (record_reference p r)
  unfolding record_reference
  record_reference-HasStock p r = search attempt_rules depth 8

  pub record_checkout-HasStock :
      (p : Prepared) (r : ProviderPayment) → Keeps (HasStock strict) (record_checkout p r)
  unfolding record_checkout
  record_checkout-HasStock p r = search attempt_rules depth 8

  active_or_new-HasStock :
      (s : Settings) (p : Option PaymentProvider) (o : Order) (price : ℕ) (a : Option Payment)
      → Keeps (HasStock strict) (active_or_new s p o price a)
  unfolding active_or_new
  active_or_new-HasStock s p o price none = search attempt_rules
  active_or_new-HasStock s p o price (some a) = search attempt_rules

  provider_of_reference-HasStock :
      (s : Settings) (p : Option PaymentProvider) (n : Option Text)
      → Keeps (HasStock strict) (provider_of_reference s p n)
  unfolding provider_of_reference
  provider_of_reference-HasStock s p n = search keeps_rules

  pub prepare_payment-HasStock :
      (s : Settings) (locked : ℕ → Bool) (p : Option PaymentProvider) (n : ℕ)
      → Keeps (HasStock strict) (prepare_payment s locked p n)
  unfolding prepare_payment
  prepare_payment-HasStock s locked p n =
      search (attempt_rules, active_or_new-HasStock, provider_of_reference-HasStock) depth 14

  pub apply_confirmation-HasStock :
      (now : ℕ) (p : Prepared) (r : ProviderStatus)
      → Keeps (HasStock strict) (apply_confirmation now p r)
  unfolding apply_confirmation
  apply_confirmation-HasStock now p pending =
      search (attempt_rules, save_payment_status-HasStock) depth 7
  apply_confirmation-HasStock now p failed = search (attempt_rules, fail_payment-HasStock) depth 7
  apply_confirmation-HasStock now p succeeded =
      search (attempt_rules, complete_payment-HasStock) depth 7

  apply_event-HasStock :
      (now : ℕ) (t : EventType) (s : CheckoutSession) (o : Order) (p : Payment)
      → Keeps (HasStock strict) (apply_event now t s o p)
  unfolding apply_event
  apply_event-HasStock now t s o p =
      search (keeps_rules, complete_payment-HasStock, fail_payment-HasStock) depth 8

  apply_session-HasStock :
      (now : ℕ) (t : EventType) (s : CheckoutSession)
      → Keeps (HasStock strict) (apply_session now t s)
  unfolding apply_session
  apply_session-HasStock now t s = search (keeps_rules, apply_event-HasStock) depth 11

  apply_supported-HasStock :
      (now : ℕ) (e : Option (EventType × CheckoutSession))
      → Keeps (HasStock strict) (apply_supported now e)
  apply_supported-HasStock now none = Keeps-pure tt
  apply_supported-HasStock now (some (t, s)) = apply_session-HasStock now t s

  record_event-HasStock :
      (event_id : Text)
      → Keeps
          (HasStock strict)
          (modify λ db. record db { webhook_events = db.webhook_events ++ event_id ∷ [] })
  record_event-HasStock event_id = Keeps-modify _ (λ db h. h)

  pub process_stripe_webhook-HasStock :
      (now : ℕ) (r : WebhookResult) → Keeps (HasStock strict) (process_stripe_webhook now r)
  unfolding process_stripe_webhook
  process_stripe_webhook-HasStock now r =
      search (keeps_rules, record_event-HasStock, apply_supported-HasStock) depth 8

-- An order item is deleted with its assignments, also those of reserved keys.
delete_order_item-HasStock : (n : ℕ) → Keeps (HasStock false) (delete_order_item n)
unfolding delete_order_item
delete_order_item-HasStock n =
    Keeps-modify _
      λ db h. delete-IsStock false db.license_keys db.license_assignments db.next_assignment h _

delete_created_item-HasStock : (n : Option ℕ) → Keeps (HasStock false) (delete_created_item n)
delete_created_item-HasStock none = Keeps-pure tt
delete_created_item-HasStock (some n) = delete_order_item-HasStock n

pub abandon_attempt-HasStock : (p : Prepared) → Keeps (HasStock false) (abandon_attempt p)
unfolding abandon_attempt
abandon_attempt-HasStock p =
    search
      (
        keeps_rules, get_order-HasStock, get_payment-HasStock, fail_payment-HasStock,
        delete_created_item-HasStock,
      )
      depth 8

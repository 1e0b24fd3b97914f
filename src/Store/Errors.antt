-- ===== src/Store/Errors.antt =====
-- The exceptions of the services: backend/apps/orders/exceptions.py with the messages of its raises,
-- backend/apps/carts/exceptions.py, backend/apps/payments/webhooks.py, and those of Django and of
-- the database.

-- The messages of `OrderPaymentError`.
pub data PaymentIssue : Type 0 where
  no_authoritative_total : PaymentIssue
  no_product_reference : PaymentIssue
  reservation_inconsistent : PaymentIssue
  paid_orders_cannot_reserve : PaymentIssue
  paid_orders_cannot_release : PaymentIssue
  no_keys_available : PaymentIssue
  payment_not_of_order : PaymentIssue
  reservation_of_another_payment : PaymentIssue
  payment_state_inconsistent : PaymentIssue
  payment_cannot_be_completed : PaymentIssue
  amount_mismatch : PaymentIssue
  payment_not_authorized : PaymentIssue
  already_paid : PaymentIssue
  payment_in_progress : PaymentIssue
  provider_misconfigured : PaymentIssue
  stripe_requires_checkout : PaymentIssue
  provider_could_not_create : PaymentIssue
  provider_could_not_confirm : PaymentIssue
  payment_rejected : PaymentIssue
  payment_still_pending : PaymentIssue

-- The messages of `InvalidStripeWebhook`.
pub data WebhookIssue : Type 0 where
  invalid_signature : WebhookIssue
  invalid_event_id : WebhookIssue
  invalid_event_type : WebhookIssue
  no_checkout_session : WebhookIssue
  not_a_checkout_session : WebhookIssue
  invalid_session_id : WebhookIssue
  invalid_payment_status : WebhookIssue
  invalid_metadata : WebhookIssue
  invalid_payment_reference : WebhookIssue
  payment_does_not_exist : WebhookIssue
  provider_is_not_stripe : WebhookIssue
  session_of_another_payment : WebhookIssue

pub data Error : Type 0 where
  order_payment_error : PaymentIssue → Error
  invalid_stripe_webhook : WebhookIssue → Error
  empty_cart : Error
  product_unavailable : Error
  cart_conflict : Error
  cart_item_not_found : Error
  does_not_exist : Error
  validation_error : Error
  value_error : Error
  index_error : Error
  attribute_error : Error
  -- A constraint or a column's range, refused by the database.
  integrity_error : Error
  database_error : Error
  data_error : Error
  -- Any other exception, as of the transport to a provider.
  transport_error : Error

pub data Result {ℓ} (A : Type ℓ) : Type ℓ where
  ok : A → Result A
  err : Error → Result A

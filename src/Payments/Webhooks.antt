-- ===== src/Payments/Webhooks.antt =====
-- backend/apps/payments/webhooks.py, `process_stripe_webhook`: a parsed event is applied to its
-- payment in one transaction.
pub mod Events
use ludora.Common.{
  ℕ, [], ◌∷◌, ◌++◌, Option, none, some, Bool, true, false, not, ◌&&◌, ◌||◌, Text, codes, ◌=ᵗ◌,
  is_text, contains_text, is_decimal, parse_decimal, print_decimal, if◌then◌else◌,
}
use ludora.Store.{
  Db, Tx, ◌>>=◌, ◌>>◌, pure, gets, or_raise, raise_if, modify, Order, Payment,
  invalid_stripe_webhook, invalid_payment_reference, payment_does_not_exist, provider_is_not_stripe,
  session_of_another_payment, is_paid, find_order, find_payment,
}
use ludora.Orders.{fail_payment}
use ludora.Completion.{complete_payment}
use ludora.Payments.Providers.{stripe_name}

-- StripeCheckoutEventType
pub data EventType : Type 0 where
  completed async_payment_succeeded async_payment_failed expired : EventType

-- StripeCheckoutSession
pub record CheckoutSession : Type 0 where
  pub id : Text
  pub local_payment_id : Option Text
  pub payment_status : Text

-- StripeWebhookResult: a supported event has its type and its session, any other has neither.
pub record WebhookResult : Type 0 where
  pub event_id : Text
  pub checkout_session : Option (EventType × CheckoutSession)

-- SUCCESSFUL_PAYMENT_STATUSES
abbrev pub is_successful : Text → Bool
is_successful s = s =ᵗ codes "paid" || s =ᵗ codes "no_payment_required"

-- The payment id that the metadata names: a canonical decimal numeral. `isdecimal` also passes
-- other scripts' digits, which the comparison with `str(int(…))` then refuses.
unfoldable pub parse_reference : Option Text → Option ℕ
parse_reference none = none
parse_reference (some t) =
    if is_decimal t && print_decimal (parse_decimal t) =ᵗ t then some (parse_decimal t) else none

-- The locked rows of the payment that the reference names. Both queries fail as one.
abbrev pub referenced_rows : Option Payment → Db → Option (Order × Payment)
referenced_rows none db = none
referenced_rows (some payment) db = elim (find_order payment.order_id db) [
  | none ↦ none
  | some order ↦ some (order, payment)
]

abbrev pub is_success : EventType → Bool
is_success completed = true
is_success async_payment_succeeded = true
is_success async_payment_failed = false
is_success expired = false

-- The end of `process_stripe_webhook`, on the locked rows.
unfoldable pub apply_event : ℕ → EventType → CheckoutSession → Order → Payment → Tx (Unit {0})
apply_event now event_type session order payment =
    if is_success event_type
    then if not (is_successful session.payment_status)
      then pure tt
      else complete_payment now payment.id >> pure tt
    else if not (is_paid payment.status)
    then fail_payment order payment >> pure tt
    else pure tt

unfoldable pub apply_session : ℕ → EventType → CheckoutSession → Tx (Unit {0})
apply_session now event_type session = do
  payment_id ←
      or_raise (parse_reference session.local_payment_id)
        (invalid_stripe_webhook invalid_payment_reference)
  rows ← gets (λ db. referenced_rows (find_payment payment_id db) db)
  (order, payment) ← or_raise rows (invalid_stripe_webhook payment_does_not_exist)
  raise_if (not (is_text payment.provider stripe_name))
      (invalid_stripe_webhook provider_is_not_stripe)
  raise_if (not (is_text payment.transaction_id session.id))
      (invalid_stripe_webhook session_of_another_payment)
  apply_event now event_type session order payment

abbrev pub apply_supported : ℕ → Option (EventType × CheckoutSession) → Tx (Unit {0})
apply_supported now none = pure tt
apply_supported now (some (event_type, session)) = apply_session now event_type session

unfoldable pub process_stripe_webhook : ℕ → WebhookResult → Tx (Unit {0})
process_stripe_webhook now result = do
  events ← gets (λ db. db.webhook_events)
  if contains_text result.event_id events then pure tt else do
    modify λ db. record db { webhook_events = db.webhook_events ++ result.event_id ∷ [] }
    apply_supported now result.checkout_session

-- ===== src/Payments/Attempt.antt =====
-- backend/apps/orders/payment_services.py: `create_payment`. Other transactions run in its two gaps:
-- 0 before the provider's result is recorded, 1 before a refused attempt is given up.
use ludora.Common.{ℕ, Option, Bool, some, ◌++◌, codes, print_decimal}
use ludora.Store.{
  Payment, PaymentIssue, order_payment_error, transport_error, provider_misconfigured,
  provider_could_not_create,
}
use ludora.Payments.Process.{Proc, Others, ◌>>=◌, ◌>>◌, transact, throw, interleave}
use ludora.Payments.Providers.{
  PaymentProvider, Settings, CreatePaymentRequest, Outcome, returned, rejected, misconfigured,
  interrupted,
}
use ludora.Payments.Prepare.{Prepared, prepare_attempt, abandon_attempt, record_checkout}

-- `CreatePaymentRequest(…, idempotency_key=f"payment-{payment.pk}", …)`
abbrev pub payment_request : Prepared → CreatePaymentRequest
payment_request prepared = record {
  amount = prepared.payment.amount;
  order_number = prepared.order.order_number;
  idempotency_key = codes "payment-" ++ print_decimal prepared.payment.id;
  local_payment_id = some prepared.payment.id;
}

-- The `except` clauses for a refusal of the provider.
unfoldable pub give_up : {A : Type 0} → Others → PaymentIssue → Prepared → Proc A
give_up others issue prepared = do
  interleave others 1
  transact (abandon_attempt prepared)
  throw (order_payment_error issue)

unfoldable pub settle_creation : Others → Prepared → Outcome → Proc Payment
settle_creation others prepared (returned result) = do
  interleave others 0
  transact (record_checkout prepared result)
settle_creation others prepared rejected = give_up others provider_could_not_create prepared
settle_creation others prepared misconfigured = give_up others provider_misconfigured prepared
settle_creation others prepared interrupted = throw transport_error

unfoldable pub create_payment :
    Settings → Others → (ℕ → Bool) → Option PaymentProvider → ℕ → Proc Payment
create_payment settings others locked provider order_id = do
  prepared ← transact (prepare_attempt settings locked provider order_id)
  settle_creation others prepared (prepared.provider.create_payment (payment_request prepared))

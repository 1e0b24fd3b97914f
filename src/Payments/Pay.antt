-- ===== src/Payments/Pay.antt =====
-- backend/apps/orders/services.py: `pay_order` and `_pay_order`. The advisory lock keeps two calls for
-- one order apart; other transactions run in the gaps: 0 before the provider's reference is
-- recorded, 1 before a refused attempt is given up, 2 before the confirmation is applied.
use ludora.Common.{ℕ, [], Option, none, some, Bool, is_blank, Text, if◌then◌else◌}
use ludora.Store.{
  Order, Payment, PaymentIssue, order_payment_error, transport_error, provider_misconfigured,
  provider_could_not_confirm,
}
use ludora.Payments.Process.{Proc, Others, ◌>>=◌, ◌>>◌, transact, done, throw, interleave}
use ludora.Payments.Providers.{
  PaymentProvider, Settings, Outcome, returned, rejected, misconfigured, interrupted,
}
use ludora.Payments.Prepare.{Prepared, record_reference}
use ludora.Payments.PreparePay.{prepare_payment, apply_confirmation}
use ludora.Payments.Attempt.{payment_request, give_up}

unfoldable pub settle_reference : Others → Prepared → Outcome → Proc Payment
settle_reference others prepared (returned result) = do
  interleave others 0
  transact (record_reference prepared result)
settle_reference others prepared rejected = give_up others provider_could_not_confirm prepared
settle_reference others prepared misconfigured = give_up others provider_misconfigured prepared
settle_reference others prepared interrupted = throw transport_error

-- The payment with its provider's reference.
unfoldable pub referenced_payment : Others → Prepared → Proc Payment
referenced_payment others prepared =
    if is_blank prepared.payment.transaction_id
    then settle_reference others prepared
        (prepared.provider.create_payment (payment_request prepared))
    else done prepared.payment

abbrev pub reference_of : Payment → Text
reference_of payment = elim payment.transaction_id [ none ↦ [] | some t ↦ t ]

abbrev pub raise_issue : Order × Option PaymentIssue → Proc Order
raise_issue (order, none) = done order
raise_issue (order, some issue) = throw (order_payment_error issue)

unfoldable pub settle_confirmation : Others → ℕ → Prepared → Outcome → Proc Order
settle_confirmation others now prepared (returned result) = do
  interleave others 2
  outcome ← transact (apply_confirmation now prepared result.status)
  raise_issue outcome
settle_confirmation others now prepared rejected =
    throw (order_payment_error provider_could_not_confirm)
settle_confirmation others now prepared misconfigured =
    throw (order_payment_error provider_misconfigured)
settle_confirmation others now prepared interrupted = throw transport_error

unfoldable pub pay_order :
    Settings → Others → (ℕ → Bool) → ℕ → Option PaymentProvider → ℕ → Proc Order
pay_order settings others locked now provider order_id = do
  prepared ← transact (prepare_payment settings locked provider order_id)
  payment ← referenced_payment others prepared
  settle_confirmation others now prepared (prepared.provider.confirm_payment (reference_of payment))

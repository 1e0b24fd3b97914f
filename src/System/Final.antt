-- ===== src/System/Final.antt =====
-- No transaction of a payment changes a paid order.
use ludora.Common.{ℕ, Bool, true, not, ◌≡◌, Option, none, some, Text}
use ludora.Store.{Db, pure, Order, Payment, is_paid, ◌>>◌, is_paid_order, delete_order_item}
use ludora.Store.Hoare.{
  Keeps, Keeps-modify, Keeps-bind, Keeps-gets, Keeps-pure, Keeps-raise_if, Keeps-or_raise, Keeps-if,
  Keeps-raise_if-then, keeps_rules,
}
use ludora.Frame.Items.{payable_total-framed, get_or_create-framed, reserve_order_licenses-framed}
use ludora.System.Paid.{
  Stays, IsRow, stays, get_order-then, unpaid_other, update_payment-Stays,
  save_payment_status-Stays, get_payment-Stays, create_payment_row-Stays, authorize-Stays,
  fail_payment-Stays, complete_payment-Stays,
}
use ludora.Orders.{fail_payment}
use ludora.Completion.{complete_payment}
use ludora.Payments.Providers.{
  PaymentProvider, ProviderPayment, ProviderStatus, pending, succeeded, failed, Settings,
}
use ludora.Payments.Prepare.{
  Prepared, select_provider, prepare_attempt, delete_created_item, abandon_attempt,
  record_reference, record_checkout,
}
use ludora.Payments.PreparePay.{
  active_or_new, provider_of_reference, prepare_payment, apply_confirmation,
}
use ludora.Payments.Webhooks.{
  EventType, completed, async_payment_succeeded, async_payment_failed, expired, CheckoutSession,
  apply_event, is_successful,
}

module _ (n : ℕ) (o : Order) (paid : is_paid_order o.status ≡ true) where
  abbrev pub Here : Db → Type 0
  Here = Stays n o paid

  select_provider-Here :
      (s : Settings) (p : Option PaymentProvider) → Keeps Here (select_provider s p)
  select_provider-Here s none = Keeps-or_raise _ _
  select_provider-Here s (some p) = Keeps-pure p

  pub prepare_attempt-Here :
      (s : Settings) (locked : ℕ → Bool) (p : Option PaymentProvider) (m : ℕ)
      → Keeps Here (prepare_attempt s locked p m)
  unfolding prepare_attempt
  prepare_attempt-Here s locked p m = get_order-then n o paid m _ λ x row.
      Keeps-raise_if-then _ _ _ λ unpaid.
        Keeps-bind _ _ (payable_total-framed Here (stays n o paid) x) λ amount.
          Keeps-bind _ _ (Keeps-gets _) λ active. Keeps-bind _ _ (Keeps-raise_if _ _) λ _.
            Keeps-bind _ _ (select_provider-Here s p) λ selected.
              Keeps-bind _ _ (create_payment_row-Stays n o paid x.id amount _) λ payment.
                Keeps-bind _ _ (Keeps-gets _) λ had.
                  Keeps-bind _ _ (get_or_create-framed Here (stays n o paid) x amount) λ items.
                    Keeps-bind _ _ (reserve_order_licenses-framed Here (stays n o paid) locked x.id)
                      λ _.
                        Keeps-bind _ _
                          (authorize-Stays n o paid x payment (unpaid_other n o paid x row unpaid))
                          λ _. Keeps-pure _

  pub record_reference-Here :
      (p : Prepared) (r : ProviderPayment) → Keeps Here (record_reference p r)
  unfolding record_reference
  record_reference-Here p r =
      search (keeps_rules, get_payment-Stays n o paid, update_payment-Stays n o paid) depth 8

  pub record_checkout-Here : (p : Prepared) (r : ProviderPayment) → Keeps Here (record_checkout p r)
  unfolding record_checkout
  record_checkout-Here p r =
      search (keeps_rules, get_payment-Stays n o paid, update_payment-Stays n o paid) depth 8

  active_or_new-Here :
      (s : Settings) (p : Option PaymentProvider) (x : Order) (price : ℕ) (a : Option Payment)
      → Keeps Here (active_or_new s p x price a)
  unfolding active_or_new
  active_or_new-Here s p x price none =
      search (keeps_rules, select_provider-Here, create_payment_row-Stays n o paid)
  active_or_new-Here s p x price (some a) = Keeps-pure a

  provider_of_reference-Here :
      (s : Settings) (p : Option PaymentProvider) (m : Option Text)
      → Keeps Here (provider_of_reference s p m)
  unfolding provider_of_reference
  provider_of_reference-Here s p m = search keeps_rules

  pub prepare_payment-Here :
      (s : Settings) (locked : ℕ → Bool) (p : Option PaymentProvider) (m : ℕ)
      → Keeps Here (prepare_payment s locked p m)
  unfolding prepare_payment
  prepare_payment-Here s locked p m = get_order-then n o paid m _ λ x row.
      Keeps-raise_if-then _ _ _ λ unpaid.
        Keeps-bind _ _ (payable_total-framed Here (stays n o paid) x) λ amount.
          Keeps-bind _ _ (Keeps-gets _) λ active.
            Keeps-bind _ _ (active_or_new-Here s p x amount active) λ payment.
              Keeps-bind _ _ (Keeps-gets _) λ had.
                Keeps-bind _ _ (reserve_order_licenses-framed Here (stays n o paid) locked x.id)
                  λ _.
                    Keeps-bind _ _
                      (authorize-Stays n o paid x payment (unpaid_other n o paid x row unpaid))
                      λ _. Keeps-bind _ _ (Keeps-gets _) λ items.
                        search (keeps_rules, select_provider-Here, provider_of_reference-Here)

  delete_created_item-Here : (m : Option ℕ) → Keeps Here (delete_created_item m)
  unfolding delete_order_item
  delete_created_item-Here none = Keeps-pure tt
  delete_created_item-Here (some m) = Keeps-modify _ (λ db h. h)

  pub abandon_attempt-Here : (p : Prepared) → Keeps Here (abandon_attempt p)
  unfolding abandon_attempt
  abandon_attempt-Here p = get_order-then n o paid p.order.id _ λ x row.
      Keeps-bind _ _ (get_payment-Stays n o paid p.payment.id) λ payment.
        Keeps-bind _ _ (fail_payment-Stays n o paid x payment row)
          λ _. delete_created_item-Here p.created_order_item_id

  pub apply_confirmation-Here :
      (now : ℕ) (p : Prepared) (r : ProviderStatus) → Keeps Here (apply_confirmation now p r)
  unfolding apply_confirmation
  apply_confirmation-Here now p pending = get_order-then n o paid p.order.id _ λ x row.
      Keeps-bind _ _ (get_payment-Stays n o paid p.payment.id)
        λ payment. Keeps-bind _ _ (save_payment_status-Stays n o paid payment _) λ _. Keeps-pure _
  apply_confirmation-Here now p failed = get_order-then n o paid p.order.id _ λ x row.
      Keeps-bind _ _ (get_payment-Stays n o paid p.payment.id)
        λ payment. Keeps-bind _ _ (fail_payment-Stays n o paid x payment row) λ _. Keeps-pure _
  apply_confirmation-Here now p succeeded = get_order-then n o paid p.order.id _ λ x row.
      Keeps-bind _ _ (get_payment-Stays n o paid p.payment.id) λ payment.
        Keeps-bind _ _ (complete_payment-Stays n o paid now payment.id) λ result. Keeps-pure _

  fails-Here :
      (x : Order) (p : Payment) → IsRow n o paid x → Keeps Here (fail_payment x p >> pure tt)
  fails-Here x p row = Keeps-bind _ _ (fail_payment-Stays n o paid x p row) λ saved. Keeps-pure tt

  completes-Here : (now : ℕ) (p : Payment) → Keeps Here (complete_payment now p.id >> pure tt)
  completes-Here now p =
      Keeps-bind _ _ (complete_payment-Stays n o paid now p.id) λ result. Keeps-pure tt

  pub apply_event-Here :
      (now : ℕ) (t : EventType) (s : CheckoutSession) (x : Order) (p : Payment)
      → IsRow n o paid x
      → Keeps Here (apply_event now t s x p)
  unfolding apply_event
  apply_event-Here now completed s x p row =
      Keeps-if (not (is_successful s.payment_status)) _ _ (λ _. Keeps-pure tt)
        (λ _. completes-Here now p)
  apply_event-Here now async_payment_succeeded s x p row =
      Keeps-if (not (is_successful s.payment_status)) _ _ (λ _. Keeps-pure tt)
        (λ _. completes-Here now p)
  apply_event-Here now async_payment_failed s x p row =
      Keeps-if (not (is_paid p.status)) _ _ (λ _. fails-Here x p row) (λ _. Keeps-pure tt)
  apply_event-Here now expired s x p row =
      Keeps-if (not (is_paid p.status)) _ _ (λ _. fails-Here x p row) (λ _. Keeps-pure tt)

-- ===== src/Inventory/Terminate.antt =====
-- The end of an unsuccessful payment keeps the stock.
use ludora.Common.{Bool}
use ludora.Store.{Order, PaymentStatus, Payment}
use ludora.Store.Hoare.{Keeps, keeps_rules}
use ludora.Inventory.{HasStock}
use ludora.Inventory.Reserve.{update_order-HasStock, save_payment_status-HasStock}
use ludora.Inventory.Release.{release_order-HasStock}
use ludora.Orders.{
  authorize_order_reservation, release_after, record_status, terminate_payment, fail_payment,
}

module _ {strict : Bool} where
  pub authorize_order_reservation-HasStock :
      (o : Order) (p : Payment) → Keeps (HasStock strict) (authorize_order_reservation o p)
  unfolding authorize_order_reservation
  authorize_order_reservation-HasStock o p = search (keeps_rules, update_order-HasStock)

  release_after-HasStock : (o : Order) (p : Payment) → Keeps (HasStock strict) (release_after o p)
  unfolding release_after
  release_after-HasStock o p = search (keeps_rules, release_order-HasStock, update_order-HasStock)

  record_status-HasStock :
      (p : Payment) (s : PaymentStatus) → Keeps (HasStock strict) (record_status p s)
  unfolding record_status
  record_status-HasStock p s = search (keeps_rules, save_payment_status-HasStock)

  pub terminate_payment-HasStock :
      (o : Order) (p : Payment) (s : PaymentStatus)
      → Keeps (HasStock strict) (terminate_payment o p s)
  unfolding terminate_payment
  terminate_payment-HasStock o p s =
      search (keeps_rules, record_status-HasStock, release_after-HasStock) depth 8

  pub fail_payment-HasStock : (o : Order) (p : Payment) → Keeps (HasStock strict) (fail_payment o p)
  unfolding fail_payment
  fail_payment-HasStock o p = terminate_payment-HasStock o p PaymentStatus.failed

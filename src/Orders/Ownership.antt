-- ===== src/Orders/Ownership.antt =====
-- Who may release a reservation when a payment ends.
use ludora.Common.{
  true, false, not, ◌&&◌, ◌||◌, ◌≡◌, ◌≢◌, ◌⊎◌, inl, inr, ℕ, some, arith, ◌==◌, holds, is_none,
  update_where,
}
use ludora.Store.{
  Db, ok, ◌>>=◌, Order, Payment, PaymentStatus, is_paid_order, is_paid, is_unsuccessful,
  save_payment_status, update_payment,
}
use ludora.Orders.{terminate_payment, record_status}

-- The payment may not release the order's keys: the order is paid, or another payment has
-- authorized the reservation.
abbrev pub IsStranger : Order → Payment → Type 0
IsStranger order payment =
    (is_paid_order order.status ≡ true)
    ⊎ ((m : ℕ) × (order.reservation_payment_attempt_id ≡ some m) × (m ≢ payment.id))

stranger_owns :
    (o : Order) (p : Payment)
    → IsStranger o p
    → (not (is_paid_order o.status)
        && (is_none o.reservation_payment_attempt_id
            || holds o.reservation_payment_attempt_id p.id))
      ≡ false
stranger_owns o p (inl paid) = ground arith
stranger_owns o p (inr (m, e, ne)) = rw e (ground (arith, ne))

-- If an unpaid payment ends with an unsuccessful status, and the order is paid or another payment
-- has authorized its reservation, then the payment's status is written and nothing else: no key is
-- released and the reservation stays with its payment.
pub terminate_payment-IsStranger :
    (order : Order) (payment : Payment) (status : PaymentStatus) (db : Db)
    → is_unsuccessful status ≡ true
    → is_paid payment.status ≡ false
    → IsStranger order payment
    → terminate_payment order payment status db
      ≡ ok (
        record payment { status = status },
        record db {
          payments =
              update_where
                (λ p. p.id == payment.id)
                (λ p. record p { status = status })
                db.payments;
        },
      )
unfolding terminate_payment record_status save_payment_status update_payment ◌>>=◌
terminate_payment-IsStranger o p status db ends unpaid stranger =
    rw (stranger_owns o p stranger) (ground (arith, ends, unpaid))

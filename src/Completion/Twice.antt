-- ===== src/Completion/Twice.antt =====
-- A payment is completed once: a later call for it finds it done.
use ludora.Common.{
  ℕ, true, ◌≡◌, refl, inl, inr, Option, some, arith, ◌==◌, update_where, find-update_where,
}
use ludora.Store.{Db, ok, Order, Payment, find_order, find_payment, ◌>>=◌, is_paid, is_paid_order}
use ludora.Completion.{CompletePaymentResult, complete_payment, paid_order, paid_payment}
use ludora.Completion.Effect.{complete_rows, complete_payment_effect}

-- Two paid rows are enough for the early return.
pub complete_paid :
    (now n : ℕ) (db : Db) (p : Payment) (o : Order)
    → find_payment n db ≡ some p
    → find_order p.order_id db ≡ some o
    → is_paid p.status ≡ true
    → is_paid_order o.status ≡ true
    → complete_payment now n db ≡ ok (record { order = o; already_completed = true }, db)
unfolding ◌>>=◌
complete_paid now n db p o hp ho pp po = rw (complete_rows now n db p o hp ho, pp, po)

-- The payment's row after the writes of a completion.
paid_payment_row :
    (now n : ℕ) (db db' : Db) (p : Payment)
    → find_payment n db ≡ some p
    → db'.payments ≡ update_where (λ x. x.id == p.id) (paid_payment now) db.payments
    → find_payment n db' ≡ some (paid_payment now p)
paid_payment_row now n db db' p hp e = ground (
  arith,
  find-update_where (λ x. x.id == n) (λ x. x.id == p.id) (paid_payment now) db.payments (λ x. refl),
)

paid_order_row :
    (now n price : ℕ) (key : Option ℕ) (db db' : Db) (o : Order)
    → find_order n db ≡ some o
    → db'.orders ≡ update_where (λ x. x.id == o.id) (paid_order price now key) db.orders
    → find_order n db' ≡ some (paid_order price now key o)
paid_order_row now n price key db db' o ho e = ground (
  arith,
  find-update_where (λ x. x.id == n) (λ x. x.id == o.id) (paid_order price now key) db.orders
      (λ x. refl),
)

-- Once `complete_payment` has committed, any later call for the payment returns the same order,
-- reports that it was completed already and writes nothing: no second key is sold and no second
-- mail is queued.
pub complete_payment_twice :
    (now later n : ℕ) (db db' : Db) (r : CompletePaymentResult)
    → complete_payment now n db ≡ ok (r, db')
    → complete_payment later n db' ≡ ok (record { order = r.order; already_completed = true }, db')
complete_payment_twice now later n db db' r e =
    let (p, o, hp, ho, effect) = complete_payment_effect now n db db' r e in
    elim effect [
      | inl repeats ↦
          rw (repeats.unchanged, repeats.result)
            (complete_paid later n db p o hp ho repeats.payment_paid_before repeats.paid_before)
      | inr completes ↦ rw completes.result (
          complete_paid later n db' (paid_payment now p)
            (paid_order completes.price now completes.key o)
            (paid_payment_row now n db db' p hp completes.payments)
            (paid_order_row now p.order_id completes.price completes.key db db' o ho
              completes.orders)
            refl refl)
    ]

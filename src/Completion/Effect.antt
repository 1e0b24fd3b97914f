-- ===== src/Completion/Effect.antt =====
-- What `complete_payment` commits to orders, payments and mails, on every branch that returns.
use ludora.Common.{
  ℕ, true, false, ◌&&◌, ◌≡◌, refl, ◌⊎◌, inl, inr, [], ◌∷◌, ◌++◌, Option, none, some, arith,
  update_where, ◌==◌, find, find-true, find-and, Bool-cases, Option-cases, if◌then◌else◌,
}
use ludora.Store.{
  Db, ok, err, does_not_exist, pure, ◌>>=◌, Order, Payment, is_paid_order, is_paid, is_completable,
  find_order, find_payment, get_order, get_payment, update_order, update_payment,
}
use ludora.Store.Hoare.{Post, Post-bind, Post-mono}
use ludora.Completion.{
  paid_order, paid_payment, check_completable, complete_unpaid, complete_payment, finish_payment,
  CompletePaymentResult, delivered_key, fulfil_order,
}
use ludora.Frame.Items.{
  ReadsNoItem, get_or_create-framed, fulfil_order-framed, delivered_key-framed,
}
use ludora.Orders.{payable_total, get_or_create_order_items_for_fulfilment}

-- The conditions of `complete_payment` behind its first return.
pub record IsCompletable (order : Order) (payment : Payment) (price : ℕ) : Type 0 where
  pub unpaid : is_paid_order order.status ≡ false
  pub open_payment : is_completable payment.status ≡ true
  pub priced : order.total_price ≡ some price
  pub matches : payment.amount ≡ price
  pub authorized :
      (order.reservation_payment_attempt_id ≡ none)
      ⊎ (order.reservation_payment_attempt_id ≡ some payment.id)

-- The order and the payment become paid, and one mail is queued.
pub record Completes (now : ℕ) (db : Db) (order : Order) (payment : Payment)
    (r : CompletePaymentResult) (db' : Db) : Type 0 where
  pub price : ℕ
  pub key : Option ℕ
  pub completable : IsCompletable order payment price
  pub result : r ≡ record { order = paid_order price now key order; already_completed = false }
  pub orders :
      db'.orders ≡ update_where (λ o. o.id == order.id) (paid_order price now key) db.orders
  pub payments :
      db'.payments ≡ update_where (λ p. p.id == payment.id) (paid_payment now) db.payments
  pub emails : db'.queued_emails ≡ db.queued_emails ++ order.id ∷ []

-- The same orders, payments and queued mails.
abbrev SameLedger : Db → Db → Type 0
SameLedger s db =
    (db.orders ≡ s.orders) × (db.payments ≡ s.payments) × (db.queued_emails ≡ s.queued_emails)

same_ledger : (s : Db) → ReadsNoItem (SameLedger s)
same_ledger s db _ _ _ _ _ h = h

pub check_completable_lem :
    (o : Order) (p : Payment) (db : Db)
    → Post (λ price db'. (db' ≡ db) × IsCompletable o p price) (check_completable o p db)
unfolding check_completable payable_total ◌>>=◌
check_completable_lem o p db = ground arith

finish_payment_lem :
    (now : ℕ) (o : Order) (p : Payment) (price : ℕ) (key : Option ℕ) (db : Db)
    → Post
        (λ _ db'.
          (db'.orders ≡ update_where (λ x. x.id == o.id) (paid_order price now key) db.orders)
          × (db'.payments ≡ update_where (λ x. x.id == p.id) (paid_payment now) db.payments)
          × (db'.queued_emails ≡ db.queued_emails ++ o.id ∷ []))
        (finish_payment now o p price key db)
unfolding finish_payment ◌>>=◌ update_order update_payment
finish_payment_lem now o p price key db = ground arith

complete_unpaid_lem :
    (now : ℕ) (o : Order) (p : Payment) (db : Db)
    → Post (Completes now db o p) (complete_unpaid now o p db)
unfolding complete_unpaid
complete_unpaid_lem now o p db =
    let Q = Completes now db o p in
    Post-bind _ Q (check_completable o p) _ db (check_completable_lem o p db) λ price d1 checked.
      Post-bind (λ _. SameLedger db) Q (get_or_create_order_items_for_fulfilment o price) _ d1
        ((get_or_create-framed (SameLedger db) (same_ledger db) o price).at d1
          (rw checked.0 (refl, refl, refl)))
        λ items d2 same2.
          Post-bind (λ _. SameLedger db) Q (fulfil_order items now _) _ d2
            ((fulfil_order-framed (SameLedger db) (same_ledger db) items now _).at d2 same2)
            λ keys d3 same3.
              Post-bind (λ _. SameLedger db) Q (delivered_key o keys) _ d3
                ((delivered_key-framed (SameLedger db) (same_ledger db) o keys).at d3 same3)
                λ key d4 same4.
                  Post-bind _ Q (finish_payment now o p price key)
                    (λ _.
                      pure
                        (record { order = paid_order price now key o; already_completed = false }))
                    d4 (finish_payment_lem now o p price key d4)
                    λ _ d5 written.
                      unfold ◌>>=◌ in
                      record {
                        price = price;
                        key = key;
                        completable = checked.1;
                        result = refl;
                        orders = rw same4.0 at written.0;
                        payments = rw same4.1 at written.1;
                        emails = rw same4.2 at written.2;
                      }

-- The early return of `complete_payment`: nothing is written.
pub record Repeats (db : Db) (order : Order) (payment : Payment) (r : CompletePaymentResult)
    (db' : Db) : Type 0 where
  pub paid_before : is_paid_order order.status ≡ true
  pub payment_paid_before : is_paid payment.status ≡ true
  pub result : r ≡ record { order = order; already_completed = true }
  pub unchanged : db' ≡ db

-- The row that the reference names is the one that is locked.
locked_payment :
    (n : ℕ) (db : Db) (p : Payment) (o : Order)
    → find_payment n db ≡ some p
    → find_order p.order_id db ≡ some o
    → find (λ x. x.id == n && x.order_id == o.id) db.payments ≡ some p
locked_payment n db p o hp ho =
    find-and (λ x. x.id == n) (λ x. x.order_id == o.id) db.payments p hp
      (ground (arith, find-true (λ x. x.id == p.order_id) db.orders o ho))

pub complete_rows :
    (now n : ℕ) (db : Db) (p : Payment) (o : Order)
    → find_payment n db ≡ some p
    → find_order p.order_id db ≡ some o
    → complete_payment now n db
      ≡ (if is_paid_order o.status && is_paid p.status
            then pure (record { order = o; already_completed = true })
            else complete_unpaid now o p)
          db
unfolding complete_payment get_order get_payment ◌>>=◌
complete_rows now n db p o hp ho = ground (arith, locked_payment n db p o hp ho)

complete_found :
    (now n : ℕ) (db : Db) (p : Payment) (o : Order)
    → find_payment n db ≡ some p
    → find_order p.order_id db ≡ some o
    → Post (λ r db'. Repeats db o p r db' ⊎ Completes now db o p r db') (complete_payment now n db)
complete_found now n db p o hp ho =
    rw (complete_rows now n db p o hp ho)
      (elim (Bool-cases (is_paid_order o.status && is_paid p.status)) [
        | inl e ↦ rw e (unfold ◌>>=◌ in inl (ground arith))
        | inr e ↦ rw e (
            Post-mono (Completes now db o p) _ (complete_unpaid now o p db) (λ r db' c. inr c)
              (complete_unpaid_lem now o p db))
      ])

-- Without the payment or its order the call raises.
pub complete_missing :
    (now n : ℕ) (db : Db)
    → find_payment n db ≡ none
    → complete_payment now n db ≡ err does_not_exist
unfolding complete_payment get_order get_payment ◌>>=◌
complete_missing now n db h = ground arith

complete_orphan :
    (now n : ℕ) (db : Db) (p : Payment)
    → find_payment n db ≡ some p
    → find_order p.order_id db ≡ none
    → complete_payment now n db ≡ err does_not_exist
unfolding complete_payment get_order get_payment ◌>>=◌
complete_orphan now n db p hp ho = ground arith

-- If `complete_payment` commits, then it found the payment and its order, and either both
-- were paid and nothing is written, or all conditions held, both are paid now and one mail is
-- queued.
pub complete_payment_effect :
    (now n : ℕ) (db db' : Db) (r : CompletePaymentResult)
    → complete_payment now n db ≡ ok (r, db')
    → (p : Payment) × (o : Order) × (find_payment n db ≡ some p)
      × (find_order p.order_id db ≡ some o)
      × (Repeats db o p r db' ⊎ Completes now db o p r db')
complete_payment_effect now n db db' r e = elim (Option-cases (find_payment n db)) [
  | inl absent ↦ cc (complete_missing now n db absent)
  | inr (p, hp) ↦ elim (Option-cases (find_order p.order_id db)) [
    | inl orphan ↦ cc (complete_orphan now n db p hp orphan)
    | inr (o, ho) ↦ (p, o, hp, ho, rw e at (complete_found now n db p o hp ho))
  ]
]

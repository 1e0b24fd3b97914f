-- ===== src/Frame/Orders.antt =====
-- The transactions on orders and payments write no product, cart, cart item or webhook event.
use ludora.Common.{ℕ, List, [], ◌∷◌, ◌++◌, Option}
use ludora.Store.{
  Db, modify, LicenseKey, Order, OrderItem, LicenseAssignment, Payment, PaymentStatus, get_payment,
  update_order, update_payment, save_payment_status,
}
use ludora.Store.Hoare.{Keeps, Keeps-modify, keeps_rules}
use ludora.Orders.{release_after, record_status, terminate_payment, fail_payment}
use ludora.Completion.{finish_payment, check_completable, complete_unpaid, complete_payment}
use ludora.Frame.Items.{
  ReadsNoItem, get_order-framed, payable_total-framed, get_or_create-framed, release_order-framed,
  fulfil_order-framed, delivered_key-framed,
}

-- A predicate that reads none of the tables of orders, payments and license keys.
abbrev pub ReadsNoOrder : (Db → Type 0) → Type 0
ReadsNoOrder P =
    (db : Db) (keys : List LicenseKey) (orders : List Order) (items : List OrderItem)
    (assignments : List LicenseAssignment) (payments : List Payment)
    (next_item next_assignment next_payment : ℕ) (emails : List ℕ)
    → P db
    → P (record db {
      license_keys = keys;
      orders = orders;
      order_items = items;
      license_assignments = assignments;
      payments = payments;
      next_order_item = next_item;
      next_assignment = next_assignment;
      next_payment = next_payment;
      queued_emails = emails;
    })

module _ (P : Db → Type 0) (frame : ReadsNoOrder P) where
  pub reads_no_item : ReadsNoItem P
  reads_no_item db keys rows assignments next_item next_assignment h =
      frame db keys db.orders rows assignments db.payments next_item next_assignment db.next_payment
        db.queued_emails h

  pub update_order-framed : (n : ℕ) (f : Order → Order) → Keeps P (update_order n f)
  unfolding update_order
  update_order-framed n f = Keeps-modify _ (λ db h. frame db _ _ _ _ _ _ _ _ _ h)

  pub update_payment-framed : (n : ℕ) (f : Payment → Payment) → Keeps P (update_payment n f)
  unfolding update_payment
  update_payment-framed n f = Keeps-modify _ (λ db h. frame db _ _ _ _ _ _ _ _ _ h)

  ruleset writes = (keeps_rules, update_order-framed, update_payment-framed)

  pub get_payment-framed : (n : ℕ) → Keeps P (get_payment n)
  unfolding get_payment
  get_payment-framed n = search keeps_rules

  pub save_payment_status-framed :
      (p : Payment) (s : PaymentStatus) → Keeps P (save_payment_status p s)
  unfolding save_payment_status
  save_payment_status-framed p s = search writes

  release_after-framed : (o : Order) (p : Payment) → Keeps P (release_after o p)
  unfolding release_after
  release_after-framed o p = search (writes, release_order-framed P reads_no_item)

  record_status-framed : (p : Payment) (s : PaymentStatus) → Keeps P (record_status p s)
  unfolding record_status
  record_status-framed p s = search (keeps_rules, save_payment_status-framed)

  pub fail_payment-framed : (o : Order) (p : Payment) → Keeps P (fail_payment o p)
  unfolding fail_payment terminate_payment
  fail_payment-framed o p = search (keeps_rules, record_status-framed, release_after-framed) depth 8

  queue_email-framed :
      (n : ℕ) → Keeps P (modify (λ db. record db { queued_emails = db.queued_emails ++ n ∷ [] }))
  queue_email-framed n = Keeps-modify _ (λ db h. frame db _ _ _ _ _ _ _ _ _ h)

  finish_payment-framed :
      (now : ℕ) (o : Order) (p : Payment) (price : ℕ) (key : Option ℕ)
      → Keeps P (finish_payment now o p price key)
  unfolding finish_payment
  finish_payment-framed now o p price key = search (writes, queue_email-framed) depth 9

  check_completable-framed : (o : Order) (p : Payment) → Keeps P (check_completable o p)
  unfolding check_completable
  check_completable-framed o p = search (keeps_rules, payable_total-framed P reads_no_item) depth 9

  complete_unpaid-framed : (now : ℕ) (o : Order) (p : Payment) → Keeps P (complete_unpaid now o p)
  unfolding complete_unpaid
  complete_unpaid-framed now o p =
      search
        (
          keeps_rules,
          check_completable-framed,
          get_or_create-framed P reads_no_item,
          fulfil_order-framed P reads_no_item,
          delivered_key-framed P reads_no_item,
          finish_payment-framed,
        )
        depth 9

  pub complete_payment-framed : (now n : ℕ) → Keeps P (complete_payment now n)
  unfolding complete_payment
  complete_payment-framed now n =
      search
        (keeps_rules, get_order-framed P reads_no_item, get_payment-framed, complete_unpaid-framed)
        depth 9

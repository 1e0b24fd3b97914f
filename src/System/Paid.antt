-- ===== src/System/Paid.antt =====
-- A paid order stays as it is.
use ludora.Common.{
  ℕ, true, false, not, ◌&&◌, ◌||◌, ◌≡◌, ◌≢◌, refl, inl, inr, Option, none, some, arith, Text, ◌==◌,
  find-true, find-update_where, ==→≡, holds, is_none, Option-cases, sym, subst, ◌∙◌,
}
use ludora.Store.{
  Db, Tx, ◌>>=◌, pure, Order, Payment, PaymentStatus, is_paid_order, is_paid, find_order, get_order,
  get_payment, update_order, update_payment, save_payment_status, create_payment_row,
}
use ludora.Store.Hoare.{
  Keeps, Keeps-modify, Keeps-bind, Keeps-gets, Keeps-pure, Keeps-raise_if, Keeps-or_raise, Keeps-if,
  keeps_rules, Post, Post-bind,
}
use ludora.Orders.{
  get_or_create_order_items_for_fulfilment, authorize_order_reservation, set_reservation,
  clear_reservation, release_after, record_status, terminate_payment, fail_payment,
}
use ludora.Completion.{
  paid_order, paid_payment, fulfil_order, delivered_key, CompletePaymentResult, finish_payment,
  check_completable, complete_unpaid, complete_payment,
}
use ludora.Completion.Effect.{IsCompletable, check_completable_lem}
use ludora.Frame.Items.{
  ReadsNoItem, get_or_create-framed, release_order-framed, fulfil_order-framed,
  delivered_key-framed,
}

module _ (n : ℕ) (o : Order) (paid : is_paid_order o.status ≡ true) where
  -- The n-th order is `o`.
  abbrev pub Stays : Db → Type 0
  Stays db = find_order n db ≡ some o

  -- A row that the order's query returns is `o`, if it has its id.
  abbrev pub IsRow : Order → Type 0
  IsRow order = order.id ≡ n → order ≡ o

  pub stays : ReadsNoItem Stays
  stays db _ _ _ _ _ h = h

  pub find_order-IsRow :
      (m : ℕ) (db : Db) (x : Order) → Stays db → find_order m db ≡ some x → IsRow x
  find_order-IsRow m db x h e same =
      let found : x.id ≡ m = ==→≡ x.id m (find-true (λ y. y.id == m) db.orders x e) in
      let here : find_order n db ≡ some x =
        subst (λ k. find_order k db ≡ some x) (sym found ∙ same) e in
      cc

  get_order-IsRow :
      (m : ℕ) (db : Db) → Stays db → Post (λ x db'. Stays db' × IsRow x) (get_order m db)
  unfolding get_order ◌>>=◌
  get_order-IsRow m db h = elim (Option-cases (find_order m db)) [
    | inl e ↦ rw e tt
    | inr (x, e) ↦ rw e (h, find_order-IsRow m db x h e)
  ]

  pub get_order-then :
      {A : Type 0} (m : ℕ) (f : Order → Tx A)
      → ((x : Order) → IsRow x → Keeps Stays (f x))
      → Keeps Stays (get_order m >>= f)
  get_order-then m f k = record {
    at = λ db h.
        Post-bind (λ x d. Stays d × IsRow x) (λ _. Stays) (get_order m) f db
          (get_order-IsRow m db h) (λ x d row. (k x row.1).at d row.0);
  }

  update_order-other :
      (m : ℕ) (f : Order → Order)
      → m ≢ n
      → ((x : Order) → (f x).id ≡ x.id)
      → Keeps Stays (update_order m f)
  unfolding update_order
  update_order-other m f ne same = Keeps-modify _ λ db h.
      let row : o.id ≡ n = ==→≡ o.id n (find-true (λ y. y.id == n) db.orders o h) in
      ground
        (arith, find-update_where (λ y. y.id == n) (λ y. y.id == m) f db.orders (λ x. rw (same x)))

  pub unpaid_other : (x : Order) → IsRow x → is_paid_order x.status ≡ false → x.id ≢ n
  unpaid_other x row unpaid same = cc (row same)

  pub update_payment-Stays : (m : ℕ) (f : Payment → Payment) → Keeps Stays (update_payment m f)
  unfolding update_payment
  update_payment-Stays m f = Keeps-modify _ (λ db h. h)

  pub save_payment_status-Stays :
      (p : Payment) (s : PaymentStatus) → Keeps Stays (save_payment_status p s)
  unfolding save_payment_status
  save_payment_status-Stays p s = search (keeps_rules, update_payment-Stays)

  pub get_payment-Stays : (m : ℕ) → Keeps Stays (get_payment m)
  unfolding get_payment
  get_payment-Stays m = search keeps_rules

  pub create_payment_row-Stays :
      (m amount : ℕ) (provider : Option Text) → Keeps Stays (create_payment_row m amount provider)
  unfolding create_payment_row ◌>>=◌
  create_payment_row-Stays m amount provider = record { at = λ db h. ground arith }

  pub authorize-Stays :
      (x : Order) (p : Payment) → x.id ≢ n → Keeps Stays (authorize_order_reservation x p)
  unfolding authorize_order_reservation
  authorize-Stays x p ne = Keeps-bind _ _ (Keeps-raise_if _ _) λ _.
      Keeps-bind _ _ (Keeps-raise_if _ _) λ _.
        Keeps-if _ _ _ (λ _. Keeps-pure tt)
          (λ _. update_order-other x.id (set_reservation (some p.id)) ne (λ y. refl))

  clear-Stays : (x : Order) → x.id ≢ n → Keeps Stays (clear_reservation x)
  clear-Stays x ne =
      Keeps-if _ _ _ (λ _. Keeps-pure tt)
        (λ _. update_order-other x.id (set_reservation none) ne (λ y. refl))

  release_after-Stays : (x : Order) (p : Payment) → x.id ≢ n → Keeps Stays (release_after x p)
  unfolding release_after
  release_after-Stays x p ne =
      Keeps-bind _ _ (release_order-framed Stays stays x.id)
        λ _. Keeps-bind _ _ (clear-Stays x ne) λ _. Keeps-pure p

  record_status-Stays : (p : Payment) (s : PaymentStatus) → Keeps Stays (record_status p s)
  unfolding record_status
  record_status-Stays p s = search (keeps_rules, save_payment_status-Stays)

  pub fail_payment-Stays : (x : Order) (p : Payment) → IsRow x → Keeps Stays (fail_payment x p)
  unfolding fail_payment terminate_payment
  fail_payment-Stays x p row =
      let attempt = x.reservation_payment_attempt_id in
      let owns = is_none attempt || holds attempt p.id in
      Keeps-bind _ _ (Keeps-raise_if _ _) λ _.
        Keeps-if _ _ _ (λ _. Keeps-pure p)
          λ _. Keeps-bind _ _ (record_status-Stays p PaymentStatus.failed) λ saved.
            Keeps-if (not (is_paid_order x.status) && owns) _ _
              (λ e. release_after-Stays x saved (unpaid_other x row (ground arith)))
              (λ _. Keeps-pure saved)

  finish_payment-Stays :
      (now : ℕ) (x : Order) (p : Payment) (price : ℕ) (key : Option ℕ)
      → x.id ≢ n
      → Keeps Stays (finish_payment now x p price key)
  unfolding finish_payment
  finish_payment-Stays now x p price key ne = Keeps-bind _ _ (Keeps-raise_if _ _) λ _.
      Keeps-bind _ _ (Keeps-gets _) λ taken. Keeps-bind _ _ (Keeps-raise_if _ _) λ _.
        Keeps-bind _ _ (update_order-other x.id (paid_order price now key) ne (λ y. refl)) λ _.
          Keeps-bind _ _ (update_payment-Stays p.id (paid_payment now))
            λ _. Keeps-modify _ (λ db h. h)

  complete_rest :
      (now : ℕ) (x : Order) (p : Payment) (price : ℕ)
      → x.id ≢ n
      → Keeps {A = CompletePaymentResult} Stays (
          get_or_create_order_items_for_fulfilment x price >>= λ items.
          fulfil_order items now (not (is_none x.reservation_payment_attempt_id)) >>= λ keys.
          delivered_key x keys >>= λ key. finish_payment now x p price key >>= λ _.
          pure (record { order = paid_order price now key x; already_completed = false }))
  complete_rest now x p price ne =
      Keeps-bind _ _ (get_or_create-framed Stays stays x price) λ items.
        Keeps-bind _ _ (fulfil_order-framed Stays stays items now _) λ keys.
          Keeps-bind _ _ (delivered_key-framed Stays stays x keys)
            λ key. Keeps-bind _ _ (finish_payment-Stays now x p price key ne) λ _. Keeps-pure _

  complete_unpaid-Stays :
      (now : ℕ) (x : Order) (p : Payment) → IsRow x → Keeps Stays (complete_unpaid now x p)
  unfolding complete_unpaid
  complete_unpaid-Stays now x p row = record {
    at = λ db h.
        Post-bind (λ price d. (d ≡ db) × IsCompletable x p price) (λ _. Stays)
          (check_completable x p) _ db (check_completable_lem x p db)
          λ price d checked.
            (complete_rest now x p price (unpaid_other x row checked.1.unpaid)).at d
              (rw checked.0 h);
  }

  pub complete_payment-Stays : (now m : ℕ) → Keeps Stays (complete_payment now m)
  unfolding complete_payment
  complete_payment-Stays now m = Keeps-bind _ _ (get_payment-Stays m) λ reference.
      get_order-then reference.order_id _ λ x row. Keeps-bind _ _ (Keeps-gets _) λ payments.
        Keeps-bind _ _ (Keeps-or_raise _ _) λ p.
          Keeps-if (is_paid_order x.status && is_paid p.status)
            (pure (record { order = x; already_completed = true })) (complete_unpaid now x p)
            (λ _. Keeps-pure _) (λ _. complete_unpaid-Stays now x p row)

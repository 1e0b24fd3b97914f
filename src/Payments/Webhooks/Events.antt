-- ===== src/Payments/Webhooks/Events.antt =====
-- An event that is delivered again, or late, changes nothing; and the payment reference is read as it
-- was written.
use ludora.Common.{
  ℕ, true, false, ◌&&◌, ◌≡◌, sym, subst, inl, inr, ◌↔◌, List, [], ◌∷◌, ◌++◌, Option, none, some,
  arith, Text, ◌=ᵗ◌, =ᵗ→≡, =ᵗ-refl, contains_text, is_text, is_decimal, print_decimal,
  parse_decimal, parse-print_decimal, is_decimal-print, Bool-cases, ==→≡, find-true, ◌==◌,
}
use ludora.Store.{Db, ◌>>=◌, ok, Order, Payment, is_paid, is_paid_order, find_payment, find_order}
use ludora.Store.Hoare.{Keeps, Keeps-pure, Post, keeps_rules}
use ludora.Frame.Orders.{ReadsNoOrder, fail_payment-framed, complete_payment-framed}
use ludora.Completion.Twice.{complete_paid}
use ludora.Payments.Providers.{stripe_name}
use ludora.Payments.Webhooks.{
  EventType, CheckoutSession, WebhookResult, parse_reference, apply_event, apply_session,
  apply_supported, process_stripe_webhook, referenced_rows,
}

-- A payment reference is accepted exactly if it is `str(n)`, and is then read as `n`.
pub parse_reference_iff :
    (t : Text) (n : ℕ) → (parse_reference (some t) ≡ some n) ↔ (t ≡ print_decimal n)
unfolding parse_reference
parse_reference_iff t n = (read, λ e. rw e written)
  where
    read : parse_reference (some t) ≡ some n → t ≡ print_decimal n
    read h = elim (Bool-cases (is_decimal t && print_decimal (parse_decimal t) =ᵗ t)) [
      | inl e ↦
          let value : some (parse_decimal t) ≡ some n = rw e at h in
          let number : parse_decimal t ≡ n = cc in
          sym (rw number at (=ᵗ→≡ (print_decimal (parse_decimal t)) t (ground arith)))
      | inr e ↦ let value : none ≡ some n = rw e at h in cc
    ]

    written : parse_reference (some (print_decimal n)) ≡ some n
    written = rw (is_decimal-print n, parse-print_decimal n, =ᵗ-refl (print_decimal n))

-- The event is in the table.
abbrev Recorded : Text → Db → Type 0
Recorded event_id db = contains_text event_id db.webhook_events ≡ true

contains_text-snoc : (t : Text) (ts : List Text) → contains_text t (ts ++ t ∷ []) ≡ true
contains_text-snoc t [] = rw (=ᵗ-refl t)
contains_text-snoc t (s ∷ ts) = ground (arith, contains_text-snoc t ts)

module _ (event_id : Text) where
  frame : ReadsNoOrder (Recorded event_id)
  frame db _ _ _ _ _ _ _ _ _ h = h

  apply_event-Recorded :
      (now : ℕ) (t : EventType) (s : CheckoutSession) (o : Order) (p : Payment)
      → Keeps (Recorded event_id) (apply_event now t s o p)
  unfolding apply_event
  apply_event-Recorded now t s o p =
      search
        (
          keeps_rules,
          complete_payment-framed (Recorded event_id) frame,
          fail_payment-framed (Recorded event_id) frame,
        )
        depth 8

  apply_session-Recorded :
      (now : ℕ) (t : EventType) (s : CheckoutSession)
      → Keeps (Recorded event_id) (apply_session now t s)
  unfolding apply_session
  apply_session-Recorded now t s = search (keeps_rules, apply_event-Recorded) depth 11

  apply_supported-Recorded :
      (now : ℕ) (e : Option (EventType × CheckoutSession))
      → Keeps (Recorded event_id) (apply_supported now e)
  apply_supported-Recorded now none = Keeps-pure tt
  apply_supported-Recorded now (some (t, s)) = apply_session-Recorded now t s

process-Recorded :
    (now : ℕ) (result : WebhookResult) (db : Db)
    → Post (λ _ db'. Recorded result.event_id db') (process_stripe_webhook now result db)
unfolding process_stripe_webhook ◌>>=◌
process-Recorded now result db =
    elim (Bool-cases (contains_text result.event_id db.webhook_events)) [
      | inl e ↦ rw e e
      | inr e ↦ rw e (
          (apply_supported-Recorded result.event_id now result.checkout_session).at _
            (contains_text-snoc result.event_id db.webhook_events))
    ]

-- If an event was processed, then a delivery with the same event id is acknowledged on the database
-- that the first one left, without any write, whatever it holds beside the id.
pub process_twice :
    (now later : ℕ) (result again : WebhookResult) (db db' : Db)
    → again.event_id ≡ result.event_id
    → process_stripe_webhook now result db ≡ ok (tt, db')
    → process_stripe_webhook later again db' ≡ ok (tt, db')
unfolding process_stripe_webhook ◌>>=◌
process_twice now later result again db db' same e =
    let recorded : Recorded result.event_id db' = rw e at (process-Recorded now result db) in
    rw (same, recorded)

-- Payment and order are paid, and the event names them.
pub record IsPaidReference (result : WebhookResult) (db : Db) : Type 0 where
  pub event_type : EventType
  pub session : CheckoutSession
  pub payment_id : ℕ
  pub payment : Payment
  pub order : Order
  pub supported : result.checkout_session ≡ some (event_type, session)
  pub reference : parse_reference session.local_payment_id ≡ some payment_id
  pub payment_row : find_payment payment_id db ≡ some payment
  pub order_row : find_order payment.order_id db ≡ some order
  pub by_stripe : is_text payment.provider stripe_name ≡ true
  pub session_of_payment : is_text payment.transaction_id session.id ≡ true
  pub payment_paid : is_paid payment.status ≡ true
  pub order_paid : is_paid_order order.status ≡ true

apply_event_paid :
    (now : ℕ) (t : EventType) (s : CheckoutSession) (n : ℕ) (o : Order) (p : Payment) (db : Db)
    → find_payment n db ≡ some p
    → find_order p.order_id db ≡ some o
    → is_paid p.status ≡ true
    → is_paid_order o.status ≡ true
    → apply_event now t s o p db ≡ ok (tt, db)
unfolding apply_event ◌>>=◌
apply_event_paid now t s n o p db hp ho pp po =
    let same : p.id ≡ n = ==→≡ p.id n (find-true (λ x. x.id == n) db.payments p hp) in
    ground (
      arith,
      complete_paid now p.id db p o (subst (λ m. find_payment m db ≡ some p) (sym same) hp) ho pp
          po,
    )

apply_session_paid :
    (now : ℕ) (result : WebhookResult) (db : Db) (paid : IsPaidReference result db)
    → apply_session now paid.event_type paid.session db ≡ ok (tt, db)
unfolding apply_session ◌>>=◌
apply_session_paid now result db paid =
    let rows : referenced_rows (find_payment paid.payment_id db) db
        ≡ some (paid.order, paid.payment) =
      ground (arith, paid.payment_row, paid.order_row) in
    rw (paid.reference, rows, paid.by_stripe, paid.session_of_payment)
      (apply_event_paid now paid.event_type paid.session paid.payment_id paid.order paid.payment db
        paid.payment_row paid.order_row paid.payment_paid paid.order_paid)

-- The events of a payment may come in any order: if an event is not yet recorded and names a Stripe
-- payment by its session, and the payment and its order are paid, then the event, be it of success
-- or of failure, is recorded and nothing else is written.
pub paid_is_final :
    (now : ℕ) (result : WebhookResult) (db : Db)
    → contains_text result.event_id db.webhook_events ≡ false
    → IsPaidReference result db
    → process_stripe_webhook now result db
      ≡ ok (tt, record db { webhook_events = db.webhook_events ++ result.event_id ∷ [] })
unfolding process_stripe_webhook ◌>>=◌
paid_is_final now result db fresh paid =
    rw (fresh, paid.supported)
      (apply_session_paid now result
        (record db { webhook_events = db.webhook_events ++ result.event_id ∷ [] })
        (record {
          event_type = paid.event_type;
          session = paid.session;
          payment_id = paid.payment_id;
          payment = paid.payment;
          order = paid.order;
          supported = paid.supported;
          reference = paid.reference;
          payment_row = paid.payment_row;
          order_row = paid.order_row;
          by_stripe = paid.by_stripe;
          session_of_payment = paid.session_of_payment;
          payment_paid = paid.payment_paid;
          order_paid = paid.order_paid;
        }))

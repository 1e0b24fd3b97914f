-- ===== src/System/Lasting.antt =====
-- A paid order lasts: no call of any process changes it.
use ludora.Common.{
  ℕ, Bool, true, ◌≡◌, refl, List, [], ◌∷◌, ◌++◌, Option, none, some, arith, Text, find-append, ◌==◌,
  Option-cases, inl, inr,
}
use ludora.Store.{
  Db, Tx, Error, ◌>>=◌, modify, gets, or_raise, Order, Payment, Product, Source, Cart, CartItem,
  is_paid_order, find_order, find_payment,
}
use ludora.Store.Hoare.{
  Keeps, Keeps-modify, Keeps-bind, Keeps-pure, Keeps-or_raise, Keeps-raise_if, keeps_rules,
}
use ludora.Frame.Items.{create_order_item-framed}
use ludora.System.{
  Call, place, add, set_quantity, remove, clear, checkout, begin_attempt, begin_payment,
  record_session, record_local, confirm, webhook, import_keys, is_next_key, imported, abandon, run,
  Reach, reach_invariant, Keeps-committed, guarded-committed,
}
use ludora.System.Paid.{Stays, IsRow, stays, find_order-IsRow}
use ludora.System.Final.{
  Here, prepare_attempt-Here, record_reference-Here, record_checkout-Here, prepare_payment-Here,
  abandon_attempt-Here, apply_confirmation-Here, apply_event-Here,
}
use ludora.Placement.{User, create_order, create_direct_order}
use ludora.Carts.{
  Line, create_cart, or_create, get_or_create_cart, create_cart_item, save_quantity, put_item,
  add_cart_item, own_cart_item, set_cart_item_quantity, delete_cart_items, remove_cart_item,
  clear_cart, create_snapshot, checkout_cart,
}
use ludora.Payments.Webhooks.{
  EventType, CheckoutSession, WebhookResult, apply_session, apply_supported, process_stripe_webhook,
  referenced_rows,
}

module _ (n : ℕ) (o : Order) (paid : is_paid_order o.status ≡ true) where
  abbrev H : Db → Type 0
  H = Here n o paid

  abbrev AreRows : Option (Order × Payment) → Type 0
  AreRows none = Unit
  AreRows (some (x, p)) = IsRow n o paid x

  referenced-AreRows : (m : ℕ) (db : Db) → H db → AreRows (referenced_rows (find_payment m db) db)
  referenced-AreRows m db h = elim (Option-cases (find_payment m db)) [
    | inl e ↦ rw e tt
    | inr (p, e) ↦ rw e (found p (find_order p.order_id db) refl)
  ]
    where
      found :
          (p : Payment) (r : Option Order)
          → find_order p.order_id db ≡ r
          → AreRows (elim r [ none ↦ none | some x ↦ some (x, p) ])
      found p none e = tt
      found p (some x) e = find_order-IsRow n o paid p.order_id db x h e

  rows-then :
      {A : Type 0} (r : Option (Order × Payment)) (e : Error) (k : Order × Payment → Tx A)
      → AreRows r
      → ((x : Order) (p : Payment) → IsRow n o paid x → Keeps H (k (x, p)))
      → Keeps H (or_raise r e >>= k)
  unfolding ◌>>=◌
  rows-then none e k rows h = record { at = λ db here. tt }
  rows-then (some (x, p)) e k rows h = record { at = λ db here. (h x p rows).at db here }

  referenced-then :
      {A : Type 0} (m : ℕ) (f : Option (Order × Payment) → Tx A)
      → ((r : Option (Order × Payment)) → AreRows r → Keeps H (f r))
      → Keeps H (gets (λ db. referenced_rows (find_payment m db) db) >>= f)
  unfolding ◌>>=◌
  referenced-then m f k = record { at = λ db h. (k _ (referenced-AreRows m db h)).at db h }

  apply_session-Here :
      (now : ℕ) (t : EventType) (s : CheckoutSession) → Keeps H (apply_session now t s)
  unfolding apply_session
  apply_session-Here now t s = Keeps-bind _ _ (Keeps-or_raise _ _) λ m.
      referenced-then m _ λ r rows. rows-then r _ _ rows λ x p row.
        Keeps-bind _ _ (Keeps-raise_if _ _)
          λ _. Keeps-bind _ _ (Keeps-raise_if _ _) λ _. apply_event-Here n o paid now t s x p row

  apply_supported-Here :
      (now : ℕ) (e : Option (EventType × CheckoutSession)) → Keeps H (apply_supported now e)
  apply_supported-Here now none = Keeps-pure tt
  apply_supported-Here now (some (t, s)) = apply_session-Here now t s

  modify-Here : (f : Db → Db) → ((db : Db) → (f db).orders ≡ db.orders) → Keeps H (modify f)
  modify-Here f same = Keeps-modify _ λ db h. rw (same db) h

  record_event-Here :
      (event_id : Text)
      → Keeps H (modify λ db. record db { webhook_events = db.webhook_events ++ event_id ∷ [] })
  record_event-Here event_id = modify-Here _ (λ db. refl)

  process_stripe_webhook-Here :
      (now : ℕ) (r : WebhookResult) → Keeps H (process_stripe_webhook now r)
  unfolding process_stripe_webhook
  process_stripe_webhook-Here now r =
      search (keeps_rules, record_event-Here, apply_supported-Here) depth 8

  create_order-Here :
      (s : Source) (p : Option ℕ) (u : User) (email number : Text) (total : ℕ)
      → Keeps H (create_order s p u email number total)
  unfolding create_order
  create_order-Here s p u email number total = record {
    at = λ db h.
        (Keeps-bind _ _ (Keeps-raise_if _ _) λ _.
            Keeps-bind _ _ (Keeps-modify _ λ d i. find-append (λ x. x.id == n) d.orders _ o i)
              λ _. Keeps-pure {P = H} _).at
          db h;
  }

  create_direct_order-Here :
      (number : Text) (u : User) (p : Product) (email : Text)
      → Keeps H (create_direct_order number u p email)
  unfolding create_direct_order
  create_direct_order-Here number u p email =
      search (keeps_rules, create_order-Here, create_order_item-framed H (stays n o paid))

  create_cart-Here : (u : ℕ) → Keeps H (create_cart u)
  unfolding create_cart ◌>>=◌
  create_cart-Here u = record { at = λ db h. h }

  or_create-Here : (u : ℕ) (c : Option Cart) → Keeps H (or_create u c)
  or_create-Here u none = create_cart-Here u
  or_create-Here u (some c) = Keeps-pure c

  get_or_create_cart-Here : (u : ℕ) → Keeps H (get_or_create_cart u)
  unfolding get_or_create_cart
  get_or_create_cart-Here u = search (keeps_rules, or_create-Here)

  save_quantity-Here : (i : CartItem) (q : ℕ) → Keeps H (save_quantity i q)
  unfolding save_quantity ◌>>=◌
  save_quantity-Here i q = record { at = λ db h. ground arith }

  create_cart_item-Here : (c p q : ℕ) → Keeps H (create_cart_item c p q)
  unfolding create_cart_item ◌>>=◌
  create_cart_item-Here c p q = record { at = λ db h. ground arith }

  put_item-Here : (c p q m : ℕ) (i : Option CartItem) → Keeps H (put_item c p q m i)
  put_item-Here c p q m none = create_cart_item-Here c p q
  put_item-Here c p q m (some i) = save_quantity-Here i m

  delete_cart_items-Here : (p : CartItem → Bool) → Keeps H (delete_cart_items p)
  delete_cart_items-Here p = modify-Here _ (λ db. refl)

  own_cart_item-Here : (u i : ℕ) → Keeps H (own_cart_item u i)
  unfolding own_cart_item
  own_cart_item-Here u i = search keeps_rules

  create_snapshot-Here : (m : ℕ) (lines : List Line) → Keeps H (create_snapshot m lines)
  unfolding create_snapshot ◌>>=◌
  create_snapshot-Here m lines = record { at = λ db h. ground arith }

  ruleset cart_rules = (
    keeps_rules, get_or_create_cart-Here, put_item-Here, own_cart_item-Here, save_quantity-Here,
    delete_cart_items-Here, create_order-Here, create_snapshot-Here,
  )

  run-Here : {strict : Bool} (c : Call strict) (t u : Db) → H t → run c t ≡ some u → H u
  unfolding run add_cart_item set_cart_item_quantity remove_cart_item clear_cart checkout_cart
  run-Here (place m u p e) s t = Keeps-committed _ _ s t (create_direct_order-Here m u p e)
  run-Here (add m p q) s t = Keeps-committed H (add_cart_item m p q) s t (search cart_rules depth 9)
  run-Here (set_quantity m i q) s t =
      Keeps-committed H (set_cart_item_quantity m i q) s t (search cart_rules)
  run-Here (remove m i) s t = Keeps-committed H (remove_cart_item m i) s t (search cart_rules)
  run-Here (clear m) s t = Keeps-committed H (clear_cart m) s t (search cart_rules)
  run-Here (checkout m u) s t =
      Keeps-committed H (checkout_cart m u) s t (search cart_rules depth 11)
  run-Here (begin_attempt c l p m) s t =
      Keeps-committed _ _ s t (prepare_attempt-Here n o paid c l p m)
  run-Here (begin_payment c l p m) s t =
      Keeps-committed _ _ s t (prepare_payment-Here n o paid c l p m)
  run-Here (record_session p r) s t = Keeps-committed _ _ s t (record_checkout-Here n o paid p r)
  run-Here (record_local p r) s t = Keeps-committed _ _ s t (record_reference-Here n o paid p r)
  run-Here (confirm m p r) s t = Keeps-committed _ _ s t (apply_confirmation-Here n o paid m p r)
  run-Here (webhook m r) s t = Keeps-committed _ _ s t (process_stripe_webhook-Here m r)
  run-Here (import_keys p vs m) s t =
      λ h. guarded-committed H (is_next_key m s) (imported p vs m s) t λ _. h
  run-Here (abandon e p) s t = Keeps-committed _ _ s t (abandon_attempt-Here n o paid p)

-- A paid order is final: from a database in which the order with an id is found and is paid, every
-- history of committed transactions, late and failing confirmations and deliveries included, leads
-- to one in which its row is the same.
pub paid_order_is_final :
    (strict : Bool) (n : ℕ) (o : Order) (s t : Db)
    → is_paid_order o.status ≡ true
    → find_order n s ≡ some o
    → Reach strict s t
    → find_order n t ≡ some o
paid_order_is_final strict n o s t paid h r =
    reach_invariant (Stays n o paid) (run-Here n o paid) h r

-- ===== src/System/Stock.antt =====
-- No history of transactions oversells a license key.
use ludora.Common.{arith, Bool, ◌≡◌, some, sym, subst}
use ludora.Store.{Db}
use ludora.Inventory.{HasStock}
use ludora.Inventory.Other.{
  create_direct_order-HasStock, add_cart_item-HasStock, set_cart_item_quantity-HasStock,
  remove_cart_item-HasStock, clear_cart-HasStock, checkout_cart-HasStock,
}
use ludora.Inventory.Attempts.{
  prepare_attempt-HasStock, prepare_payment-HasStock, record_checkout-HasStock,
  record_reference-HasStock, apply_confirmation-HasStock, process_stripe_webhook-HasStock,
  abandon_attempt-HasStock,
}
use ludora.Inventory.Imported.{import_license_keys-IsStock}
use ludora.System.{
  Call, place, add, set_quantity, remove, clear, checkout, begin_attempt, begin_payment,
  record_session, record_local, confirm, webhook, import_keys, is_next_key, imported, abandon, run,
  Reach, reach_invariant, Keeps-committed, guarded-committed,
}

run-HasStock :
    {strict : Bool} (c : Call strict) (t u : Db)
    → HasStock strict t
    → run c t ≡ some u
    → HasStock strict u
unfolding run
run-HasStock (place n o p e) t u = Keeps-committed _ _ t u (create_direct_order-HasStock n o p e)
run-HasStock (add n p q) t u = Keeps-committed _ _ t u (add_cart_item-HasStock n p q)
run-HasStock (set_quantity n i q) t u =
    Keeps-committed _ _ t u (set_cart_item_quantity-HasStock n i q)
run-HasStock (remove n i) t u = Keeps-committed _ _ t u (remove_cart_item-HasStock n i)
run-HasStock (clear n) t u = Keeps-committed _ _ t u (clear_cart-HasStock n)
run-HasStock (checkout n o) t u = Keeps-committed _ _ t u (checkout_cart-HasStock n o)
run-HasStock (begin_attempt s l p n) t u =
    Keeps-committed _ _ t u (prepare_attempt-HasStock s l p n)
run-HasStock (begin_payment s l p n) t u =
    Keeps-committed _ _ t u (prepare_payment-HasStock s l p n)
run-HasStock (record_session p r) t u = Keeps-committed _ _ t u (record_checkout-HasStock p r)
run-HasStock (record_local p r) t u = Keeps-committed _ _ t u (record_reference-HasStock p r)
run-HasStock (confirm n p s) t u = Keeps-committed _ _ t u (apply_confirmation-HasStock n p s)
run-HasStock (webhook n r) t u = Keeps-committed _ _ t u (process_stripe_webhook-HasStock n r)
run-HasStock {strict} (import_keys p vs n) t u = λ h.
    guarded-committed (HasStock strict) (is_next_key n t) (imported p vs n t) u
      λ drawn. import_license_keys-IsStock _ p n vs t (ground (arith, drawn)) h
run-HasStock {strict} (abandon e p) t u =
    subst (λ b. HasStock b t → run (abandon e p) t ≡ some u → HasStock b u) (sym e)
      (Keeps-committed _ _ t u (abandon_attempt-HasStock p))

-- From a database whose stock is in order, every history of committed transactions, in any
-- interleaving, leads to one whose stock is in order: no license key has two assignments, and no
-- available key has one. In a strict system, whose histories take back no attempt that a provider
-- refused, every reserved key has one too.
pub no_overselling :
    (strict : Bool) (s t : Db) → HasStock strict s → Reach strict s t → HasStock strict t
no_overselling strict s t h r = reach_invariant (HasStock strict) run-HasStock h r

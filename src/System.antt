-- ===== src/System.antt =====
-- The running system: the transactions of all processes, one after the other in any order. A
-- transaction that raises is rolled back and is no step. What a provider returned, which keys are
-- locked, the time, the ids that the sequence of the keys draws and the user's input are the arguments
-- of a step.
pub mod Stock
pub mod Paid
pub mod Final
pub mod Lasting
use ludora.Common.{
  ℕ, Bool, false, Option, none, some, Text, ◌≡◌, refl, true, subst, List, all, ltb, ◌&&◌,
  if◌then◌else◌,
}
use ludora.Store.{Db, Tx, Result, ok, err, Product}
use ludora.Store.Hoare.{Keeps, Post}
use ludora.Placement.{User, create_direct_order}
use ludora.Carts.{
  add_cart_item, set_cart_item_quantity, remove_cart_item, clear_cart, checkout_cart,
}
use ludora.Payments.Providers.{PaymentProvider, ProviderPayment, ProviderStatus, Settings}
use ludora.Payments.Prepare.{
  Prepared, prepare_attempt, abandon_attempt, record_reference, record_checkout,
}
use ludora.Payments.PreparePay.{prepare_payment, apply_confirmation}
use ludora.Imports.{import_license_keys}
use ludora.Payments.Webhooks.{WebhookResult, process_stripe_webhook}

-- The calls of the services, the webhook and the import of license keys. The last one, with which
-- `create_payment` takes back an attempt that the provider refused, belongs to a system that is not
-- strict: it can delete the item of an order whose reservation another payment has taken over,
-- and leave a reserved key without an assignment.
pub data Call (strict : Bool) : Type 0 where
  place : Text → User → Product → Text → Call strict
  add : ℕ → ℕ → ℕ → Call strict
  set_quantity : ℕ → ℕ → ℕ → Call strict
  remove : ℕ → ℕ → Call strict
  clear : ℕ → Call strict
  checkout : Text → User → Call strict
  begin_attempt : Settings → (ℕ → Bool) → Option PaymentProvider → ℕ → Call strict
  begin_payment : Settings → (ℕ → Bool) → Option PaymentProvider → ℕ → Call strict
  record_session : Prepared → ProviderPayment → Call strict
  record_local : Prepared → ProviderPayment → Call strict
  confirm : ℕ → Prepared → ProviderStatus → Call strict
  webhook : ℕ → WebhookResult → Call strict
  import_keys : ℕ → List Text → ℕ → Call strict
  abandon : strict ≡ false → Prepared → Call strict

module _ {A : Type 0} where
  abbrev pub committed : Result (A × Db) → Option Db
  committed (ok (a, db')) = some db'
  committed (err e) = none

-- The next value of the sequence of the keys' ids: above the ids of all keys and of those that
-- assignments refer to.
abbrev pub is_next_key : ℕ → Db → Bool
is_next_key next db =
    all (λ k. ltb k.id next) db.license_keys
    && all (λ a. ltb a.license_key_id next) db.license_assignments

abbrev pub imported : ℕ → List Text → ℕ → Db → Db
imported product_id values next db = record db {
  license_keys = (import_license_keys product_id values next db.license_keys).license_keys;
}

-- The database that a call commits, or nothing if it raises.
unfoldable pub run : {strict : Bool} → Call strict → Db → Option Db
run (place number user product email) db =
    committed (create_direct_order number user product email db)
run (add user product quantity) db = committed (add_cart_item user product quantity db)
run (set_quantity user item quantity) db = committed (set_cart_item_quantity user item quantity db)
run (remove user item) db = committed (remove_cart_item user item db)
run (clear user) db = committed (clear_cart user db)
run (checkout number user) db = committed (checkout_cart number user db)
run (begin_attempt settings locked provider order) db =
    committed (prepare_attempt settings locked provider order db)
run (begin_payment settings locked provider order) db =
    committed (prepare_payment settings locked provider order db)
run (record_session prepared result) db = committed (record_checkout prepared result db)
run (record_local prepared result) db = committed (record_reference prepared result db)
run (confirm now prepared status) db = committed (apply_confirmation now prepared status db)
run (webhook now result) db = committed (process_stripe_webhook now result db)
run (import_keys product_id values next) db =
    if is_next_key next db then some (imported product_id values next db) else none
run (abandon _ prepared) db = committed (abandon_attempt prepared db)

-- Databases that a history of committed calls leads to.
pub data Reach (strict : Bool) (s : Db) : Db → Type 0 where
  start : Reach strict s s
  next : {t u : Db} → Reach strict s t → (c : Call strict) → run c t ≡ some u → Reach strict s u

-- The rule for histories: an invariant of every call.
pub reach_invariant :
    {strict : Bool} (P : Db → Type 0)
    → ((c : Call strict) (t u : Db) → P t → run c t ≡ some u → P u)
    → {s t : Db} → P s
    → Reach strict s t
    → P t
reach_invariant P keep h start = h
reach_invariant P keep h (next r c e) = keep c _ _ (reach_invariant P keep h r) e

-- A transaction that keeps `P` is a call that keeps it.
pub Keeps-committed :
    {A : Type 0} (P : Db → Type 0) (m : Tx A) (t u : Db)
    → Keeps P m
    → P t
    → committed (m t) ≡ some u
    → P u
Keeps-committed {A} P m t u k h e = go (m t) (k.at t h) e
  where
    go : (r : Result (A × Db)) → Post (λ _. P) r → committed r ≡ some u → P u
    go (ok (a, db')) p e = let q : db' ≡ u = cc in subst P q p
    go (err x) p e = cc

-- A step that is taken under a condition.
pub guarded-committed :
    (P : Db → Type 0) (test : Bool) (db u : Db)
    → (test ≡ true → P db)
    → (if test then some db else none) ≡ some u
    → P u
guarded-committed P true db u h e = let same : db ≡ u = cc in subst P same (h refl)
guarded-committed P false db u h e = absurd cc

-- ===== src/Orders/Picks.antt =====
-- The choice of keys for the items of an order.
use ludora.Common.{
  ℕ, zero, suc, Bool, true, false, not, ◌&&◌, ◌≡◌, refl, List, [], ◌∷◌, ◌++◌, arith, leb, ◌==◌,
  length, take, all, if◌then◌else◌,
}
use ludora.Store.{
  Db, Tx, Error, raise_if, pure, ◌>>◌, ok, err, OrderItem, LicenseKey, order_payment_error,
  no_keys_available, ◌>>=◌,
}
use ludora.Orders.{pick_keys, pair_with}

module _ {ℓ} {A : Type ℓ} where
  pub take-full : (n : ℕ) (xs : List A) → (length (take n xs) == n) ≡ leb n (length xs)
  take-full zero [] = refl
  take-full zero (x ∷ xs) = ground arith
  take-full (suc n) [] = ground arith
  take-full (suc n) (x ∷ xs) = ground (arith, take-full n xs)

abbrev Pairs : Type 0
Pairs = List (OrderItem × LicenseKey)

-- One turn of the loop over the items.
pick_more :
    (fits enough : Bool) (rest : Tx Pairs) (front more : Pairs) (e : Error) (db : Db)
    → rest db ≡ (if enough then ok (more, db) else err e)
    → (raise_if (not fits) e >> (rest >>= λ pairs. pure (front ++ pairs))) db
      ≡ (if fits && enough then ok (front ++ more, db) else err e)
unfolding ◌>>=◌
pick_more false enough rest front more e db h = refl
pick_more true true rest front more e db h = ground (arith, h)
pick_more true false rest front more e db h = ground (arith, h)

module _ (candidates : OrderItem → List LicenseKey) where
  -- The first keys among the candidates of each item, as many as the item's quantity.
  abbrev pub picked : List OrderItem → List (OrderItem × LicenseKey)
  picked [] = []
  picked (item ∷ items) = pair_with item (take item.quantity (candidates item)) ++ picked items

  -- Each item has as many candidates as its quantity.
  abbrev pub are_enough : List OrderItem → Bool
  are_enough = all λ i. leb i.quantity (length (candidates i))

  -- For any candidates and items: if each item has as many candidates as its quantity, then the keys
  -- that are picked are the first of them for each item; else the call raises that no keys are
  -- available. Nothing is written.
  pub pick_keys_lem :
      (items : List OrderItem) (db : Db)
      → pick_keys candidates items db ≡ (
          if are_enough items
          then ok (picked items, db)
          else err (order_payment_error no_keys_available))
  unfolding pick_keys
  pick_keys_lem [] db = unfold ◌>>=◌ in refl
  pick_keys_lem (item ∷ items) db = rw (take-full item.quantity (candidates item)) (
      pick_more (leb item.quantity (length (candidates item))) (are_enough items)
        (pick_keys candidates items) (pair_with item (take item.quantity (candidates item)))
        (picked items) (order_payment_error no_keys_available) db (pick_keys_lem items db))

-- ===== src/Carts/Guards.antt =====
-- The guards of backend/apps/carts/services.py stand before the constraints of the table.
use ludora.Common.{
  ℕ, ◌+◌, ◌≤◌, Bool, true, false, not, ◌&&◌, ◌≡◌, refl, Option, none, some, List, [], ◌∷◌, any,
  find, arith, ltb, ◌==◌, Bool-cases, Option-cases, inl, inr,
}
use ludora.Store.{
  Error, Db, Tx, Result, ok, err, integrity_error, product_unavailable, cart_conflict,
  cart_item_not_found, validation_error, ◌>>=◌, gets, raise_if, or_raise, CartItem,
}
use ludora.Carts.{
  is_quantity, max_cart_item_quantity, quantity_of, find_cart, create_cart, get_or_create_cart,
  create_cart_item, save_quantity, put_item, find_cart_item, find_active_product, add_cart_item,
  own_cart_item, set_cart_item_quantity,
}

module _ {A : Type 0} where
  -- A constraint of the database refused the call.
  abbrev pub hits_constraint : Result (A × Db) → Bool
  hits_constraint (err integrity_error) = true
  hits_constraint _ = false

find-any : (p : CartItem → Bool) (xs : List CartItem) → find p xs ≡ none → any p xs ≡ false
find-any p [] h = refl
find-any p (x ∷ xs) h = ground (arith, h, find-any p xs)

module _ {A B : Type 0} where
  -- No step of a chain is refused by a constraint.
  free-bind :
      (m : Tx B) (f : B → Tx A) (db : Db)
      → hits_constraint (m db) ≡ false
      → ((b : B) (d : Db) → hits_constraint (f b d) ≡ false)
      → hits_constraint ((m >>= f) db) ≡ false
  unfolding ◌>>=◌
  free-bind m f db h k = go (m db) h
    where
      go :
          (r : Result (B × Db))
          → hits_constraint r ≡ false
          → hits_constraint (elim r [ ok (b, d) ↦ f b d | err e ↦ err e ]) ≡ false
      go (ok (b, d)) h = k b d
      go (err integrity_error) h = absurd cc
      go (err e) h = h

get_or_create_cart-free : (n : ℕ) (db : Db) → hits_constraint (get_or_create_cart n db) ≡ false
unfolding get_or_create_cart create_cart ◌>>=◌
get_or_create_cart-free n db = elim (Option-cases (find_cart n db)) [
  | inl missing ↦ rw missing refl
  | inr (cart, found) ↦ rw found refl
]

save_quantity-free :
    (item : CartItem) (n : ℕ) (db : Db)
    → is_quantity n ≡ true
    → hits_constraint (save_quantity item n db) ≡ false
unfolding save_quantity ◌>>=◌
save_quantity-free item n db fits = rw fits refl

create_cart_item-free :
    (c p n : ℕ) (db : Db)
    → is_quantity n ≡ true
    → any (λ i. i.cart_id == c && i.product_id == p) db.cart_items ≡ false
    → hits_constraint (create_cart_item c p n db) ≡ false
unfolding create_cart_item ◌>>=◌
create_cart_item-free c p n db fits fresh = rw (fits, fresh) refl

put_item-free :
    (c p q : ℕ) (item : Option CartItem) (db : Db)
    → 1 ≤ q
    → find_cart_item (λ i. i.cart_id == c && i.product_id == p) db ≡ item
    → ltb max_cart_item_quantity (q + quantity_of item) ≡ false
    → hits_constraint (put_item c p q (q + quantity_of item) item db) ≡ false
put_item-free c p q none db some_units missing fits =
    create_cart_item-free c p q db (ground (arith, some_units, fits))
      (find-any _ db.cart_items missing)
put_item-free c p q (some item) db some_units found fits =
    save_quantity-free item (q + item.quantity) db (ground (arith, some_units, fits))

-- The item of a cart is put after the test of its quantity.
put-free :
    (c p q : ℕ) (item : Option CartItem) (db : Db)
    → 1 ≤ q
    → find_cart_item (λ i. i.cart_id == c && i.product_id == p) db ≡ item
    → hits_constraint (
        (raise_if (ltb max_cart_item_quantity (q + quantity_of item)) cart_conflict >>= λ _.
        put_item c p q (q + quantity_of item) item)
          db)
      ≡ false
unfolding ◌>>=◌
put-free c p q item db some_units found =
    elim (Bool-cases (ltb max_cart_item_quantity (q + quantity_of item))) [
      | inl many ↦ rw many refl
      | inr fits ↦ rw fits (put_item-free c p q item db some_units found fits)
    ]

looked-free :
    (c p q : ℕ) (db : Db)
    → 1 ≤ q
    → hits_constraint (
        (gets (find_cart_item (λ i. i.cart_id == c && i.product_id == p)) >>= λ item.
        raise_if (ltb max_cart_item_quantity (q + quantity_of item)) cart_conflict >>= λ _.
        put_item c p q (q + quantity_of item) item)
          db)
      ≡ false
unfolding ◌>>=◌
looked-free c p q db some_units =
    put-free c p q (find_cart_item (λ i. i.cart_id == c && i.product_id == p) db) db some_units refl

or_raise-free :
    {A : Type 0} (found : Option A) (e : Error) (db : Db)
    → hits_constraint {A = A} (err e) ≡ false
    → hits_constraint (or_raise found e db) ≡ false
unfolding ◌>>=◌
or_raise-free none e db h = h
or_raise-free (some a) e db h = refl

own_cart_item-free : (u i : ℕ) (db : Db) → hits_constraint (own_cart_item u i db) ≡ false
unfolding own_cart_item
own_cart_item-free u i db = free-bind (gets (find_cart u)) _ db (unfold ◌>>=◌ in refl) λ found d.
    free-bind (or_raise found cart_item_not_found) _ d
      (or_raise-free found cart_item_not_found d refl)
      λ cart d1.
        free-bind (gets (find_cart_item (λ j. j.id == i && j.cart_id == cart.id))) _ d1
          (unfold ◌>>=◌ in refl) λ item d2. or_raise-free item cart_item_not_found d2 refl

set_checked-free :
    (item : CartItem) (n : ℕ) (db : Db)
    → hits_constraint
        ((raise_if (not (is_quantity n)) validation_error >>= λ _. save_quantity item n) db)
      ≡ false
unfolding ◌>>=◌
set_checked-free item n db = elim (Bool-cases (is_quantity n)) [
  | inl fits ↦ rw fits (save_quantity-free item n db fits)
  | inr unfit ↦ rw unfit refl
]

-- The constraints of the table of cart items never refuse a service: neither the addition of a
-- positive quantity nor any setting of a quantity, whatever the carts hold, ends with an
-- `IntegrityError`; the services refuse before what the constraints would refuse.
pub constraints_are_guarded :
    (user_id product_id quantity item_id new_quantity : ℕ) (db : Db)
    → 1 ≤ quantity
    → (hits_constraint (add_cart_item user_id product_id quantity db) ≡ false)
      × (hits_constraint (set_cart_item_quantity user_id item_id new_quantity db) ≡ false)
unfolding add_cart_item set_cart_item_quantity
constraints_are_guarded u p q i n db some_units = (
  free-bind (get_or_create_cart u) _ db (get_or_create_cart-free u db) (λ cart d.
      free-bind (gets (find_active_product p)) _ d (unfold ◌>>=◌ in refl) λ active d1.
        free-bind (or_raise active product_unavailable) _ d1
          (or_raise-free active product_unavailable d1 refl)
          λ product d2. looked-free cart.id product.id q d2 some_units),
  free-bind (own_cart_item u i) _ db (own_cart_item-free u i db)
      λ item d. set_checked-free item n d,
)

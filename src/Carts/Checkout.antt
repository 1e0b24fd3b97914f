-- ===== src/Carts/Checkout.antt =====
-- The order that a checkout places.
use ludora.Common.{
  ℕ, suc, ◌+◌, ◌*◌, ◌≡◌, refl, ap, List, [], ◌∷◌, ◌++◌, map, none, some, Bool, not, arith, ◌==◌,
  filter, filter-append, sum_by, Below, Text,
}
use ludora.Store.{
  Db, ok, Order, OrderItem, Source, CartItem, Cart, ◌>>=◌, pure, gets, raise_if, empty_cart,
  product_unavailable,
}
use ludora.Store.Hoare.{Post, Post-bind, bind-ok, raise_if-same}
use ludora.Placement.{User, create_order}
use ludora.Carts.{
  Line, find_cart, line_total, snapshot, cart_lines, get_or_create_cart, create_snapshot,
  delete_cart_items, checkout_cart,
}

abbrev of_order : ℕ → OrderItem → Bool
of_order n i = i.order_id == n

abbrev item_total : OrderItem → ℕ
item_total i = i.unit_price * i.quantity

snapshot-of_order :
    (n id : ℕ) (lines : List Line) → filter (of_order n) (snapshot n id lines) ≡ snapshot n id lines
snapshot-of_order n id [] = refl
snapshot-of_order n id (l ∷ lines) = ground (arith, snapshot-of_order n (suc id) lines)

snapshot-total :
    (n id : ℕ) (lines : List Line)
    → sum_by item_total (snapshot n id lines) ≡ sum_by line_total lines
snapshot-total n id [] = refl
snapshot-total n id (l ∷ lines) =
    ap (λ (s : ℕ). l.1.price * l.0.quantity + s) (snapshot-total n (suc id) lines)

new_order_has_none :
    (n : ℕ) (items : List OrderItem)
    → Below n (map (λ i. i.order_id) items)
    → filter (of_order n) items ≡ []
new_order_has_none n [] h = refl
new_order_has_none n (i ∷ items) h = ground (arith, new_order_has_none n items h.1)

no_items_left :
    (p : CartItem → Bool) (items : List CartItem) → filter p (filter (λ i. not (p i)) items) ≡ []
no_items_left p [] = refl
no_items_left p (i ∷ items) = ground (arith, no_items_left p items)

-- The order's total is the sum over the lines, and over the order's items; the cart is empty.
abbrev pub Placed : ℕ → List Line → Order → Db → Type 0
Placed cart_id lines order db' =
    (order.total_price ≡ some (sum_by line_total lines))
    × (sum_by item_total (filter (of_order order.id) db'.order_items) ≡ sum_by line_total lines)
    × (filter (λ i. i.cart_id == cart_id) db'.cart_items ≡ [])

place-Placed :
    (cart_id : ℕ) (user : User) (number : Text) (lines : List Line) (db : Db)
    → Below db.next_order (map (λ i. i.order_id) db.order_items)
    → Post (Placed cart_id lines) (
        (create_order Source.cart none user user.email number (sum_by line_total lines) >>= λ order.
        create_snapshot order.id lines >>= λ _.
        delete_cart_items (λ i. i.cart_id == cart_id) >>= λ _. pure order)
          db)
unfolding create_order create_snapshot ◌>>=◌
place-Placed cart_id user number lines db below =
    let n = db.next_order in
    let total : sum_by item_total
          (filter (of_order n) (db.order_items ++ snapshot n db.next_order_item lines))
        ≡ sum_by line_total lines =
      rw
        (
          filter-append (of_order n) db.order_items,
          new_order_has_none n db.order_items below,
          snapshot-of_order n db.next_order_item lines,
        )
        (snapshot-total n db.next_order_item lines) in
    ground (arith, total, no_items_left (λ i. i.cart_id == cart_id) db.cart_items)

own_cart :
    (user : ℕ) (cart : Cart) (db : Db)
    → find_cart user db ≡ some cart
    → get_or_create_cart user db ≡ ok (cart, db)
unfolding get_or_create_cart ◌>>=◌
own_cart user cart db h = rw h refl

checkout_cart_lem :
    (number : Text) (user : User) (cart : Cart) (db : Db)
    → find_cart user.id db ≡ some cart
    → Below db.next_order (map (λ i. i.order_id) db.order_items)
    → Post (Placed cart.id (cart_lines cart.id db)) (checkout_cart number user db)
unfolding checkout_cart
checkout_cart_lem number user cart db own below =
    let Q = Placed cart.id (cart_lines cart.id db) in
    rw (bind-ok (get_or_create_cart user.id) _ db db cart (own_cart user.id cart db own)) (
      Post-bind (λ l d. (d ≡ db) × (l ≡ cart_lines cart.id db)) Q (gets (cart_lines cart.id)) _ db
        (unfold ◌>>=◌ in (refl, refl))
        λ lines d same.
          rw (same.0, same.1)
            (Post-bind (λ _ d1. d1 ≡ db) Q (raise_if _ empty_cart) _ db
              (raise_if-same _ empty_cart db)
              λ _ d1 same1. rw same1 (
                Post-bind (λ _ d2. d2 ≡ db) Q (raise_if _ product_unavailable) _ db
                  (raise_if-same _ product_unavailable db)
                  λ _ d2 same2.
                    rw same2 (place-Placed cart.id user number (cart_lines cart.id db) db below))))

-- If the user has a cart, and the order items that are there belong to orders below the sequence,
-- then a checkout that commits places an order whose total is the sum of price times quantity over
-- the lines of the cart, and also over the items of the new order; the cart is empty afterwards.
pub checkout_cart-Placed :
    (number : Text) (user : User) (cart : Cart) (order : Order) (db db' : Db)
    → find_cart user.id db ≡ some cart
    → Below db.next_order (map (λ i. i.order_id) db.order_items)
    → checkout_cart number user db ≡ ok (order, db')
    → Placed cart.id (cart_lines cart.id db) order db'
checkout_cart-Placed number user cart order db db' own below e =
    rw e at (checkout_cart_lem number user cart db own below)

-- ===== src/Carts.antt =====
-- backend/apps/carts/services.py, with the rows of backend/apps/carts/models.py. Transactions run
-- one after the other: the retry of `get_or_create_cart`, for a cart that another transaction created
-- after the look for it, is not modelled; it returns that cart, as the look does in the serial order.
pub mod Checkout
pub mod Guards
use ludora.Common.{
  ℕ, suc, ◌+◌, ◌*◌, List, [], ◌∷◌, ◌++◌, map, Option, none, some, Bool, true, false, not, ◌&&◌,
  ◌||◌, ◌==◌, ltb, leb, find, filter, null, all, any, is_none, update_where, order_by, distinct,
  sum_by, Text, if◌then◌else◌,
}
use ludora.Store.{
  Product, Order, OrderItem, Source, Cart, CartItem, Db, Tx, ◌>>=◌, ◌>>◌, pure, gets, or_raise,
  raise_if, modify, product_unavailable, cart_conflict, cart_item_not_found, empty_cart,
  validation_error, integrity_error, data_error, does_not_exist, find_product, decimal_10_limit,
}
use ludora.Placement.{User, create_order}

abbrev pub max_cart_item_quantity : ℕ
max_cart_item_quantity = 99

-- The check constraint `cart_item_quantity_between_1_and_99`, and the validators of the field.
abbrev pub is_quantity : ℕ → Bool
is_quantity q = leb 1 q && leb q max_cart_item_quantity

abbrev pub find_cart : ℕ → Db → Option Cart
find_cart user_id db = find (λ c. c.user_id == user_id) db.carts

unfoldable pub create_cart : ℕ → Tx Cart
create_cart user_id db =
    let row : Cart = record { id = db.next_cart; user_id = user_id } in
    (do
      modify (λ d. record d { carts = d.carts ++ row ∷ []; next_cart = suc d.next_cart })
      pure row)
      db

abbrev pub or_create : ℕ → Option Cart → Tx Cart
or_create user_id none = create_cart user_id
or_create user_id (some cart) = pure cart

unfoldable pub get_or_create_cart : ℕ → Tx Cart
get_or_create_cart user_id = do found ← gets (find_cart user_id); or_create user_id found

abbrev pub find_cart_item : (CartItem → Bool) → Db → Option CartItem
find_cart_item p db = find p db.cart_items

-- `item.save(update_fields=("quantity", "updated_at"))`
unfoldable pub save_quantity : CartItem → ℕ → Tx CartItem
save_quantity item quantity = do
  raise_if (not (is_quantity quantity)) integrity_error
  modify λ db. record db {
    cart_items =
        update_where (λ i. i.id == item.id) (λ i. record i { quantity = quantity }) db.cart_items;
  }
  pure (record item { quantity = quantity })

-- `CartItem.objects.create(cart=…, product=…, quantity=…)`
unfoldable pub create_cart_item : ℕ → ℕ → ℕ → Tx CartItem
create_cart_item cart_id product_id quantity db =
    let row : CartItem = record {
      id = db.next_cart_item;
      cart_id = cart_id;
      product_id = product_id;
      quantity = quantity;
    } in
    (do
      raise_if (not (is_quantity quantity)) integrity_error
      raise_if (any (λ i. i.cart_id == cart_id && i.product_id == product_id) db.cart_items)
          integrity_error
      modify λ d. record d {
        cart_items = d.cart_items ++ row ∷ [];
        next_cart_item = suc d.next_cart_item;
      }
      pure row)
      db

-- `Product.objects.get(pk=…, is_active=True)`
abbrev pub find_active_product : ℕ → Db → Option Product
find_active_product n db = find (λ p. p.id == n && p.is_active) db.products

abbrev pub quantity_of : Option CartItem → ℕ
quantity_of none = 0
quantity_of (some item) = item.quantity

abbrev pub put_item : ℕ → ℕ → ℕ → ℕ → Option CartItem → Tx CartItem
put_item cart_id product_id quantity new_quantity none =
    create_cart_item cart_id product_id quantity
put_item cart_id product_id quantity new_quantity (some item) = save_quantity item new_quantity

unfoldable pub add_cart_item : ℕ → ℕ → ℕ → Tx CartItem
add_cart_item user_id product_id quantity = do
  cart ← get_or_create_cart user_id
  active ← gets (find_active_product product_id)
  product ← or_raise active product_unavailable
  item ← gets (find_cart_item (λ i. i.cart_id == cart.id && i.product_id == product.id))
  let new_quantity = quantity + quantity_of item
  raise_if (ltb max_cart_item_quantity new_quantity) cart_conflict
  put_item cart.id product.id quantity new_quantity item

-- The item of the user's cart with this id.
unfoldable pub own_cart_item : ℕ → ℕ → Tx CartItem
own_cart_item user_id item_id = do
  found ← gets (find_cart user_id)
  cart ← or_raise found cart_item_not_found
  item ← gets (find_cart_item (λ i. i.id == item_id && i.cart_id == cart.id))
  or_raise item cart_item_not_found

-- `full_clean` runs the validators of the quantity before the save.
unfoldable pub set_cart_item_quantity : ℕ → ℕ → ℕ → Tx CartItem
set_cart_item_quantity user_id item_id quantity = do
  item ← own_cart_item user_id item_id
  raise_if (not (is_quantity quantity)) validation_error
  save_quantity item quantity

abbrev pub delete_cart_items : (CartItem → Bool) → Tx (Unit {0})
delete_cart_items p = modify λ db. record db { cart_items = filter (λ i. not (p i)) db.cart_items }

unfoldable pub remove_cart_item : ℕ → ℕ → Tx (Unit {0})
remove_cart_item user_id item_id = do
  item ← own_cart_item user_id item_id
  delete_cart_items (λ i. i.id == item_id && i.cart_id == item.cart_id)

unfoldable pub clear_cart : ℕ → Tx (Unit {0})
clear_cart user_id = do
  cart ← get_or_create_cart user_id
  delete_cart_items (λ i. i.cart_id == cart.id)

-- A cart item with its product (`select_related`).
abbrev pub Line : Type 0
Line = CartItem × Product

-- Each item of the cart with its product, by id; an item's product is there, as its key refers to it.
abbrev pub with_product : CartItem → Option Product → List Line → List Line
with_product item none rest = rest
with_product item (some product) rest = (item, product) ∷ rest

abbrev pub join_products : Db → List CartItem → List Line
join_products db [] = []
join_products db (item ∷ items) =
    with_product item (find_product item.product_id db) (join_products db items)

abbrev pub cart_lines : ℕ → Db → List Line
cart_lines cart_id db = join_products db (filter (λ i. i.cart_id == cart_id) db.cart_items)

abbrev pub line_total : Line → ℕ
line_total (item, product) = product.price * item.quantity

-- The rows `OrderItem(order=…, product=…, …)`.
abbrev pub snapshot : ℕ → ℕ → List Line → List OrderItem
snapshot order_id n [] = []
snapshot order_id n ((item, product) ∷ lines) =
    record {
      id = n;
      order_id = order_id;
      product_id = product.id;
      product_title = product.title;
      quantity = item.quantity;
      unit_price = product.price;
    }
    ∷ snapshot order_id (suc n) lines

abbrev pub advance_items : List Line → ℕ → ℕ
advance_items [] n = n
advance_items (_ ∷ lines) n = advance_items lines (suc n)

-- `OrderItem.objects.bulk_create(…)` for a new order.
unfoldable pub create_snapshot : ℕ → List Line → Tx (Unit {0})
create_snapshot order_id lines = do
  raise_if (not (all (λ l. ltb l.1.price decimal_10_limit) lines)) data_error
  raise_if (not (distinct (map (λ l. l.1.id) lines) && all (λ l. leb 1 l.0.quantity) lines))
      integrity_error
  modify λ db. record db {
    order_items = db.order_items ++ snapshot order_id db.next_order_item lines;
    next_order_item = advance_items lines db.next_order_item;
  }

unfoldable pub checkout_cart : Text → User → Tx Order
checkout_cart number user = do
  cart ← get_or_create_cart user.id
  lines ← gets (cart_lines cart.id)
  raise_if (null lines) empty_cart
  raise_if (not (all (λ l. l.1.is_active) lines)) product_unavailable
  order ← create_order Source.cart none user user.email number (sum_by line_total lines)
  create_snapshot order.id lines
  delete_cart_items (λ i. i.cart_id == cart.id)
  pure order

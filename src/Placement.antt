-- ===== src/Placement.antt =====
-- backend/apps/orders/services.py, `create_direct_order`, and the rows that it and `checkout_cart` of
-- backend/apps/carts/services.py create. The number `LUD-…` that `Order.save` draws is an argument.
use ludora.Common.{ℕ, suc, [], ◌∷◌, ◌++◌, Option, none, some, not, ltb, Text}
use ludora.Store.{
  Product, Order, OrderStatus, Source, direct, Tx, ◌>>=◌, ◌>>◌, pure, raise_if, modify, data_error,
  decimal_12_limit, create_order_item,
}

pub record User : Type 0 where
  pub id : ℕ
  pub email : Text

-- `Order.objects.create(…)` with the defaults of the other columns. The unique index on the order
-- number is left out: a call with a number that is taken commits here.
unfoldable pub create_order : Source → Option ℕ → User → Text → Text → ℕ → Tx Order
create_order source product_id user email number total db =
    let row : Order = record {
      id = db.next_order;
      product_id = product_id;
      user_id = some user.id;
      order_number = some number;
      email = email;
      price_paid = none;
      total_price = some total;
      source = source;
      license_key_id = none;
      status = OrderStatus.created;
      paid_at = none;
      reservation_payment_attempt_id = none;
    } in
    (do
      raise_if (not (ltb total decimal_12_limit)) data_error
      modify (λ d. record d { orders = d.orders ++ row ∷ []; next_order = suc d.next_order })
      pure row)
      db

-- The product is the row that the caller has authorized.
unfoldable pub create_direct_order : Text → User → Product → Text → Tx Order
create_direct_order number user product email = do
  order ← create_order direct (some product.id) user email number product.price
  create_order_item order.id product 1 product.price
  pure order

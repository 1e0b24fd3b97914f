-- ===== src/CartsApi/Decoded.antt =====
-- A cart as the carts API shows it and the bot reads it: backend/apps/carts/serializers.py with
-- bot/app/api/schemas.py.
use ludora.Common.{◌<◌, false, ◌≡◌, refl, [], map, none, some, All, All-map, sum_by}
use ludora.Json.{get}
use ludora.Store.{Db, Product, Cart}
use ludora.Bot.Outcome.{returned}
use ludora.Bot.Schemas.Fields.{Formats, is_blank_text, positive_int, optional_string, decimal}
use ludora.Bot.Schemas.Catalogue
use ludora.Bot.Schemas.Catalogue.{read_product, read_cart_item, read_cart}
use ludora.OrdersApi.{Stamps}
use ludora.OrdersApi.Decoded.{Agrees, price, elements-array_of, each-map, positive}
use ludora.Carts.{Line, cart_lines, line_total}
use ludora.CartsApi.{Columns, product_json, cart_item_json, cart_json}

abbrev pub product_of : Columns → Product → Catalogue.Product
product_of columns product = record {
  id = product.id;
  title = product.title;
  price = price product.price;
  platform = some (columns.platform product.id);
  product_type = some (columns.product_type product.id);
  slug = some (columns.slug product.id);
  description = none;
  categories = [];
  is_active = none;
}

abbrev pub item_of : Columns → Line → Catalogue.CartItem
item_of columns line = record {
  id = line.0.id;
  product = product_of columns line.1;
  quantity = line.0.quantity;
  unit_price = price line.1.price;
  line_total = price (line_total line);
}

-- The cart as the bot reads it, with its totals.
abbrev pub cart_of : Columns → Db → Cart → Catalogue.Cart
cart_of columns db cart = record {
  id = cart.id;
  items = map (item_of columns) (cart_lines cart.id db);
  total_quantity = sum_by (λ (l : Line). l.0.quantity) (cart_lines cart.id db);
  total_price = price (sum_by line_total (cart_lines cart.id db));
}

-- An item with an id and a quantity, of a product with an id and a title that is not blank.
abbrev pub IsLine : Formats → Line → Type 0
IsLine formats line =
    (0 < line.0.id)
    × (0 < line.0.quantity)
    × (0 < line.1.id)
    × (is_blank_text formats line.1.title ≡ false)

module _ (formats : Formats) (stamps : Stamps) (agrees : Agrees formats stamps)
    (columns : Columns) where
  product_lem :
      (product : Product)
      → 0 < product.id
      → is_blank_text formats product.title ≡ false
      → read_product formats (some (product_json columns product))
        ≡ returned (product_of columns product)
  unfolding read_product product_json positive_int optional_string decimal get
  product_lem product id titled =
      rw (positive product.id id, titled, agrees.prices product.price) refl

  line_lem :
      (line : Line)
      → IsLine formats line
      → read_cart_item formats (cart_item_json columns line) ≡ returned (item_of columns line)
  unfolding read_cart_item cart_item_json positive_int decimal get
  line_lem line h =
      rw
        (
          positive line.0.id h.0,
          positive line.0.quantity h.1,
          product_lem line.1 h.2 h.3,
          agrees.prices line.1.price,
          agrees.prices (line_total line),
        )
        refl

  -- The bot reads the cart that the API shows: its items with their products and prices, and totals
  -- that are the sums over the items, where the cart and its items have ids, positive quantities, and
  -- products with ids and titles that are not blank.
  pub read_cart-json :
      (db : Db) (cart : Cart)
      → 0 < cart.id
      → All (IsLine formats) (cart_lines cart.id db)
      → read_cart formats (cart_json columns db cart) ≡ returned (cart_of columns db cart)
  unfolding read_cart cart_json positive_int decimal get
  read_cart-json db cart id lines =
      let items_read =
        each-map (read_cart_item formats) (cart_item_json columns) (item_of columns)
          (cart_lines cart.id db)
          (All-map {P = IsLine formats}
            {Q = λ l.
              read_cart_item formats (cart_item_json columns l) ≡ returned (item_of columns l)}
            (cart_lines cart.id db) line_lem lines) in
      rw
        (
          elements-array_of (map (cart_item_json columns) (cart_lines cart.id db)),
          positive cart.id id,
          agrees.prices (sum_by line_total (cart_lines cart.id db)),
          items_read,
        )
        refl

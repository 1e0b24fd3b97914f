-- ===== src/Bot/Schemas/Catalogue.antt =====
-- bot/app/api/schemas.py: products, pages of products, and carts.
use ludora.Common.{ℕ, Bool, not, List, Option, none, some, Text, codes, if◌then◌else◌}
use ludora.Json.{Json, empty, boolean, get}
use ludora.Bot.Outcome.{Outcome, returned, ◌>>=◌, ◌>>◌, valid, check}
use ludora.Bot.Schemas.Fields.{
  Formats, Decimal, is_blank_text, as_object, as_list, as_string, is_null, as_count,
  optional_string, positive_int, decimal, each,
}

pub record Product : Type 0 where
  pub id : ℕ
  pub title : Text
  pub price : Decimal
  pub platform : Option Text
  pub product_type : Option Text
  pub slug : Option Text
  pub description : Option Text
  pub categories : List Text
  pub is_active : Option Bool

pub record ProductPage : Type 0 where
  pub products : List Product
  pub count : ℕ
  pub page : ℕ
  pub has_next : Bool
  pub has_previous : Bool

pub record CartItem : Type 0 where
  pub id : ℕ
  pub product : Product
  pub quantity : ℕ
  pub unit_price : Decimal
  pub line_total : Decimal

pub record Cart : Type 0 where
  pub id : ℕ
  pub items : List CartItem
  pub total_quantity : ℕ
  pub total_price : Decimal

abbrev pub read_text : Json → Outcome Text
read_text item = valid (as_string (some item))

-- `value.get("categories", [])`, where `None` counts as no categories.
abbrev pub read_categories : Option Json → Outcome (List Text)
read_categories raw =
    if is_null raw then returned List.[] else do items ← valid (as_list raw); each read_text items

abbrev pub read_flag : Option Json → Outcome (Option Bool)
read_flag none = returned none
read_flag (some empty) = returned none
read_flag (some (boolean b)) = returned (some b)
read_flag (some _) = valid none

-- `Product.from_mapping`
unfoldable pub read_product : Formats → Option Json → Outcome Product
read_product formats value = do
  value ← valid (as_object value)
  id ← positive_int (codes "id") value
  title ← valid (as_string (get (codes "title") value))
  check (not (is_blank_text formats title))
  price ← decimal formats (codes "price") value
  platform ← optional_string (codes "platform") value
  product_type ← optional_string (codes "product_type") value
  slug ← optional_string (codes "slug") value
  description ← optional_string (codes "description") value
  categories ← read_categories (get (codes "categories") value)
  is_active ← read_flag (get (codes "is_active") value)
  returned (record {
    id = id;
    title = title;
    price = price;
    platform = platform;
    product_type = product_type;
    slug = slug;
    description = description;
    categories = categories;
    is_active = is_active;
  })

-- `ProductPage.from_mapping`
unfoldable pub read_product_page : Formats → Json → ℕ → Outcome ProductPage
unfolding read_product
read_product_page formats value page = do
  value ← valid (as_object (some value))
  count ← valid (as_count (get (codes "count") value))
  results ← valid (as_list (get (codes "results") value))
  products ← each (λ item. read_product formats (some item)) results
  returned (record {
    products = products;
    count = count;
    page = page;
    has_next = not (is_null (get (codes "next") value));
    has_previous = not (is_null (get (codes "previous") value));
  })

-- `CartItem.from_mapping`
unfoldable pub read_cart_item : Formats → Json → Outcome CartItem
unfolding read_product
read_cart_item formats value = do
  value ← valid (as_object (some value))
  id ← positive_int (codes "id") value
  quantity ← positive_int (codes "quantity") value
  product ← read_product formats (get (codes "product") value)
  unit_price ← decimal formats (codes "unit_price") value
  line_total ← decimal formats (codes "line_total") value
  returned (record {
    id = id;
    product = product;
    quantity = quantity;
    unit_price = unit_price;
    line_total = line_total;
  })

-- `Cart.from_mapping`
unfoldable pub read_cart : Formats → Json → Outcome Cart
unfolding read_cart_item
read_cart formats value = do
  value ← valid (as_object (some value))
  items ← valid (as_list (get (codes "items") value))
  id ← positive_int (codes "id") value
  total_quantity ← valid (as_count (get (codes "total_quantity") value))
  cart_items ← each (read_cart_item formats) items
  total_price ← decimal formats (codes "total_price") value
  returned (record {
    id = id;
    items = cart_items;
    total_quantity = total_quantity;
    total_price = total_price;
  })

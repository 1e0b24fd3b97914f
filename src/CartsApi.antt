-- ===== src/CartsApi.antt =====
-- backend/apps/carts/serializers.py and `ProductListSerializer` of backend/apps/games/serializers.py: what the
-- carts API shows of a cart. The columns of a product that no service reads are parameters.
pub mod Decoded
use ludora.Common.{
  ℕ, ◌+◌, ◌*◌, Bool, List, [], ◌∷◌, map, Option, none, some, Text, codes, ◌==◌, filter, order_by,
  sum_by, ◌++◌,
}
use ludora.Json.{Json, boolean, integer, text, object, array, array_of}
use ludora.Store.{Db, Product, Cart, CartItem}
use ludora.Carts.{Line, cart_lines, line_total}
use ludora.OrdersApi.{members_of, price_json}

-- The slug, the name of the platform and the type of a product, by its id.
pub record Columns : Type 0 where
  pub slug : ℕ → Text
  pub platform : ℕ → Text
  pub product_type : ℕ → Text

-- `ProductListSerializer`
unfoldable pub product_json : Columns → Product → Json
product_json columns product = object (
    members_of (
      (codes "id", integer product.id)
      ∷ (codes "title", text product.title)
      ∷ (codes "slug", text (columns.slug product.id))
      ∷ (codes "price", price_json (some product.price))
      ∷ (codes "platform", text (columns.platform product.id))
      ∷ (codes "product_type", text (columns.product_type product.id))
      ∷ []))

-- `CartItemSerializer`
unfoldable pub cart_item_json : Columns → Line → Json
unfolding product_json
cart_item_json columns line = object (
    members_of (
      (codes "id", integer line.0.id)
      ∷ (codes "product", product_json columns line.1)
      ∷ (codes "quantity", integer line.0.quantity)
      ∷ (codes "is_active", boolean line.1.is_active)
      ∷ (codes "unit_price", price_json (some line.1.price))
      ∷ (codes "line_total", price_json (some (line_total line)))
      ∷ []))

-- `CartSerializer`
unfoldable pub cart_json : Columns → Db → Cart → Json
unfolding cart_item_json
cart_json columns db cart = object (
    members_of (
      (codes "id", integer cart.id)
      ∷ (codes "items", array (array_of (map (cart_item_json columns) (cart_lines cart.id db))))
      ∷ (
        codes "total_quantity",
        integer (sum_by (λ (l : Line). l.0.quantity) (cart_lines cart.id db)),
      )
      ∷ (codes "total_price", price_json (some (sum_by line_total (cart_lines cart.id db))))
      ∷ []))

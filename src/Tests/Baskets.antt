-- ===== src/Tests/Baskets.antt =====
-- The theorem on a shown cart, applied to a cart of the shop.
use ludora.Common.{◌≡◌, refl, codes, arith}
use ludora.Bot.Outcome.{returned}
use ludora.Bot.Schemas.Catalogue.{read_cart}
use ludora.CartsApi.{Columns, cart_json}
use ludora.CartsApi.Decoded.{cart_of, read_cart-json}
use ludora.Tests.Shopping.{cart, cart_shop}
use ludora.Tests.Readers.{formats, stamps, agrees}

abbrev columns : Columns
columns = record {
  slug = λ _. codes "ludo";
  platform = λ _. codes "Steam";
  product_type = λ _. codes "game";
}

read_cart-json_example :
    read_cart formats (cart_json columns cart_shop cart) ≡ returned (cart_of columns cart_shop cart)
read_cart-json_example =
    read_cart-json formats stamps agrees columns cart_shop cart (omega arith)
      ((omega arith, omega arith, omega arith, refl), tt)

-- ===== src/Tests/Presses.antt =====
-- The theorems on the bot's buttons, applied to a cart and a page of the catalogue.
use ludora.Common.{inr, ◌<◌, true, ◌≡◌, refl, [], ◌∷◌, none, some, codes, arith, parse_decimal}
use ludora.Json.{Json, integer, text, array, object, array_of, get, empty}
use ludora.Bot.Outcome.{returned}
use ludora.Bot.Schemas.Fields.{positive_int, optional_string, decimal}
use ludora.Bot.Schemas.Catalogue.{
  Product, ProductPage, CartItem, Cart, read_product_page, read_cart_item, read_cart,
}
use ludora.Bot.Session.Within.{Within}
use ludora.Bot.Handlers.{
  ItemAction, inc, clear_yes, checkout_yes, invalid_callback, set_quantity, change_of,
  change_cart_item, cart_action,
}
use ludora.Bot.Handlers.Guards.{stranger_press_is_quiet}
use ludora.Bot.Handlers.Quantities.{asked_quantity_is_positive}
use ludora.Bot.Handlers.Reach.{presses-Within}
use ludora.Bot.Keyboards.{catalogue_keyboard, cart_keyboard}
use ludora.Bot.Keyboards.Valid.{
  AreAccepted, catalogue_keyboard-AreAccepted, cart_keyboard-AreAccepted,
}
use ludora.OrdersApi.{members_of}
use ludora.OrdersApi.Decoded.{price}
use ludora.Tests.Readers.{formats}
use ludora.Tests.Calls.{user, identity, client, with_tokens}

abbrev product_json : Json
product_json = object (
    members_of (
      (codes "id", integer 1)
      ∷ (codes "title", text (codes "Ludo"))
      ∷ (codes "price", text (codes "19.99"))
      ∷ (codes "platform", text (codes "PC"))
      ∷ (codes "product_type", empty)
      ∷ []))

abbrev item_json : Json
item_json = object (
    members_of (
      (codes "id", integer 4)
      ∷ (codes "product", product_json)
      ∷ (codes "quantity", integer 2)
      ∷ (codes "unit_price", text (codes "19.99"))
      ∷ (codes "line_total", text (codes "39.98"))
      ∷ []))

abbrev cart_json : Json
cart_json = object (
    members_of (
      (codes "id", integer 3)
      ∷ (codes "items", array (array_of (item_json ∷ [])))
      ∷ (codes "total_quantity", integer 2)
      ∷ (codes "total_price", text (codes "39.98"))
      ∷ []))

abbrev page_json : Json
page_json = object (
    members_of (
      (codes "count", integer 30)
      ∷ (codes "results", array (array_of (product_json ∷ [])))
      ∷ (codes "next", text (codes "/api/products/?page=3"))
      ∷ (codes "previous", text (codes "/api/products/"))
      ∷ []))

abbrev product : Product
product = record {
  id = 1;
  title = codes "Ludo";
  price = price 1999;
  platform = some (codes "PC");
  product_type = none;
  slug = none;
  description = none;
  categories = [];
  is_active = none;
}

abbrev item : CartItem
item = record {
  id = 4;
  product = product;
  quantity = 2;
  unit_price = price 1999;
  line_total = price 3998;
}

abbrev cart : Cart
cart = record { id = 3; items = item ∷ []; total_quantity = 2; total_price = price 3998 }

abbrev page : ProductPage
page = record {
  products = product ∷ [];
  count = 30;
  page = 2;
  has_next = true;
  has_previous = true;
}

item_read : read_cart_item formats item_json ≡ returned item
unfolding read_cart_item positive_int optional_string decimal get parse_decimal
item_read = refl

cart_read : read_cart formats cart_json ≡ returned cart
unfolding read_cart positive_int optional_string decimal get parse_decimal
cart_read = refl

page_read : read_product_page formats page_json 2 ≡ returned page
unfolding read_product_page positive_int optional_string decimal get parse_decimal
page_read = refl

fewer : change_of ItemAction.dec 2 ≡ set_quantity 1
unfolding change_of
fewer = refl

asked_quantity_is_positive_example : 0 < 1
asked_quantity_is_positive_example =
    asked_quantity_is_positive formats item_json item ItemAction.dec 1 item_read fewer

stranger_press_is_quiet_example :
    (change_cart_item formats client (some user) inc 4 41 (with_tokens (codes "new"))
      ≡ (returned invalid_callback, with_tokens (codes "new")))
    × (cart_action formats client (some user) clear_yes 41 (with_tokens (codes "new"))
        ≡ (returned invalid_callback, with_tokens (codes "new")))
stranger_press_is_quiet_example =
    stranger_press_is_quiet formats client (some user) 41 (with_tokens (codes "new")) inc 4
      clear_yes (inr (user, refl, λ same. absurd ground (arith, same)))

presses-Within_example :
    Within 42 24 (change_cart_item formats client (some user) inc 4 42)
    × Within 42 24 (cart_action formats client (some user) checkout_yes 42)
presses-Within_example =
    presses-Within formats client (some user) identity refl inc 4 42 checkout_yes

catalogue_keyboard-AreAccepted_example : AreAccepted (catalogue_keyboard page (codes "ru"))
catalogue_keyboard-AreAccepted_example =
    catalogue_keyboard-AreAccepted formats page_json 2 page (codes "ru") (omega arith) page_read

cart_keyboard-AreAccepted_example : AreAccepted (cart_keyboard cart 42 (codes "en"))
cart_keyboard-AreAccepted_example =
    cart_keyboard-AreAccepted formats cart_json cart 42 (codes "en") (omega arith) cart_read

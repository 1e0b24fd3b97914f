-- ===== src/Bot/Client/Endpoints.antt =====
-- bot/app/api/client.py: the calls of `BackendClient`, one for each endpoint.
use ludora.Common.{
  ℕ, true, false, ◌||◌, List, Option, none, some, Text, codes, ◌++◌, ◌==◌, print_decimal,
}
use ludora.Json.{Json, integer, object, nil, member, get}
use ludora.Bot.Outcome.{product_not_found, authentication_failed, value_error, valid}
use ludora.Bot.Schemas.Fields.{Formats, as_list, each}
use ludora.Bot.Schemas.Catalogue.{
  Product, ProductPage, CartItem, Cart, read_product, read_product_page, read_cart_item, read_cart,
}
use ludora.Bot.Schemas.Purchases.{
  CheckoutOrder, OrderSummary, OrderDetail, read_checkout_order, read_order_summary,
  read_order_detail,
}
use ludora.Bot.Identity.{
  TelegramIdentity, as_payload, BackendUser, AuthResult, read_backend_user, read_auth_result,
}
use ludora.Bot.Session.{Method, Client, Session, ◌>>=◌, ◌>>◌, pure, lift, send}
use ludora.Bot.Client.{raise_for_status, json, refuse_if, plain, Operation, authenticated_json}

abbrev pub operation : Method → Text → Operation
operation method path = record { method = method; path = path; body = none; expect_json = true }

-- `authenticate_telegram`
unfoldable pub authenticate_telegram : Formats → Client → TelegramIdentity → Session AuthResult
unfolding ◌>>=◌ pure lift send
authenticate_telegram formats client identity = do
  response ← send client (record (plain Method.post (codes "api/auth/telegram/")) {
    body = some (as_payload identity);
    secret = some client.internal_secret;
  })
  lift
      (refuse_if (response.status_code == 401 || response.status_code == 403) authentication_failed)
  lift (raise_for_status response)
  body ← lift (json response)
  lift (read_auth_result formats body)

-- `get_profile`
unfoldable pub get_profile : Formats → Client → ℕ → Session BackendUser
unfolding authenticated_json
get_profile formats client telegram_id = do
  body ← authenticated_json client (operation Method.get (codes "api/auth/me/")) telegram_id
  lift (read_backend_user formats (some body))

-- `get_products`; a page that is not an integer cannot be given.
unfoldable pub get_products : Formats → Client → ℕ → Session ProductPage
unfolding ◌>>=◌ pure lift send
get_products formats client page = do
  lift (refuse_if (page == 0) value_error)
  response ← send client (record (plain Method.get (codes "api/products/")) { page = some page })
  lift (raise_for_status response)
  body ← lift (json response)
  lift (read_product_page formats body page)

-- `get_product`
unfoldable pub get_product : Formats → Client → ℕ → Session Product
unfolding ◌>>=◌ pure lift send
get_product formats client product_id = do
  lift (refuse_if (product_id == 0) value_error)
  response ←
      send client
        (plain Method.get (codes "api/products/" ++ print_decimal product_id ++ codes "/"))
  lift (refuse_if (response.status_code == 404) product_not_found)
  lift (raise_for_status response)
  body ← lift (json response)
  lift (read_product formats (some body))

-- `get_cart`
unfoldable pub get_cart : Formats → Client → ℕ → Session Cart
unfolding authenticated_json
get_cart formats client telegram_id = do
  body ← authenticated_json client (operation Method.get (codes "api/cart/")) telegram_id
  lift (read_cart formats body)

-- `add_cart_item`
unfoldable pub add_cart_item : Formats → Client → ℕ → ℕ → ℕ → Session CartItem
unfolding authenticated_json
add_cart_item formats client telegram_id product_id quantity = do
  body ←
      authenticated_json client
        (record (operation Method.post (codes "api/cart/items/")) {
          body = some (
              object (
                member (codes "product") (integer product_id)
                  (member (codes "quantity") (integer quantity) nil)));
        })
        telegram_id
  lift (read_cart_item formats body)

abbrev pub item_path : ℕ → Text
item_path item_id = codes "api/cart/items/" ++ print_decimal item_id ++ codes "/"

-- `update_cart_item`
unfoldable pub update_cart_item : Formats → Client → ℕ → ℕ → ℕ → Session CartItem
unfolding authenticated_json
update_cart_item formats client telegram_id item_id quantity = do
  body ←
      authenticated_json client
        (record (operation Method.patch (item_path item_id)) {
          body = some (object (member (codes "quantity") (integer quantity) nil));
        })
        telegram_id
  lift (read_cart_item formats body)

-- `remove_cart_item`
unfoldable pub remove_cart_item : Client → ℕ → ℕ → Session (Unit {0})
unfolding authenticated_json
remove_cart_item client telegram_id item_id = do
  authenticated_json client
      (record (operation Method.delete (item_path item_id)) { expect_json = false }) telegram_id
  pure tt

-- `clear_cart`
unfoldable pub clear_cart : Client → ℕ → Session (Unit {0})
unfolding authenticated_json
clear_cart client telegram_id = do
  authenticated_json client
      (record (operation Method.delete (codes "api/cart/clear/")) { expect_json = false })
      telegram_id
  pure tt

-- `checkout_cart`
unfoldable pub checkout_cart : Formats → Client → ℕ → Session CheckoutOrder
unfolding authenticated_json
checkout_cart formats client telegram_id = do
  body ← authenticated_json client (operation Method.post (codes "api/cart/checkout/")) telegram_id
  lift (read_checkout_order formats body)

-- `pay_order`
unfoldable pub pay_order : Client → ℕ → ℕ → Session (Unit {0})
unfolding authenticated_json
pay_order client telegram_id order_id = do
  lift (refuse_if (order_id == 0) value_error)
  authenticated_json client
      (operation Method.post (codes "api/orders/" ++ print_decimal order_id ++ codes "/pay/"))
      telegram_id
  pure tt

-- `data.get("results") if isinstance(data, dict) else data`
abbrev pub results_of : Json → Option Json
results_of (object members) = get (codes "results") members
results_of value = some value

-- `get_my_orders`
unfoldable pub get_my_orders : Formats → Client → ℕ → Session (List OrderSummary)
unfolding authenticated_json
get_my_orders formats client telegram_id = do
  body ← authenticated_json client (operation Method.get (codes "api/orders/my/")) telegram_id
  results ← lift (valid (as_list (results_of body)))
  lift (each (read_order_summary formats) results)

-- `get_my_order`
unfoldable pub get_my_order : Formats → Client → ℕ → ℕ → Session OrderDetail
unfolding authenticated_json
get_my_order formats client telegram_id order_id = do
  lift (refuse_if (order_id == 0) value_error)
  body ←
      authenticated_json client
        (operation Method.get (codes "api/orders/my/" ++ print_decimal order_id ++ codes "/"))
        telegram_id
  lift (read_order_detail formats body)

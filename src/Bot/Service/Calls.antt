-- ===== src/Bot/Service/Calls.antt =====
-- The calls of `TelegramAuthService`, each within its bounds.
use ludora.Common.{ℕ, ◌≡◌, false, arith, ◌==◌, ◌++◌, Option, some, Text, codes, print_decimal}
use ludora.Json.{integer, object, nil, member}
use ludora.Bot.Outcome.{valid, returned}
use ludora.Bot.Schemas.Fields.{Formats, as_list, each}
use ludora.Bot.Schemas.Catalogue.{read_cart_item, read_cart}
use ludora.Bot.Schemas.Purchases.{read_checkout_order, read_order_summary, read_order_detail}
use ludora.Bot.Identity.{TelegramUser, TelegramIdentity, read_backend_user}
use ludora.Bot.Session.{Method, Client, Session}
use ludora.Bot.Session.Within.{Within, Within-bind, Within-step, Within-lift}
use ludora.Bot.Client.Reach.{authenticated_json-Within}
use ludora.Bot.Client.Endpoints
use ludora.Bot.Client.Endpoints.{operation, item_path}
use ludora.Bot.Service
use ludora.Bot.Service.{identity_of}
use ludora.Bot.Service.Reach.{Within-read, Within-done, Within-checked, Within-protected}

abbrev order_path : ℕ → Text
order_path order_id = codes "api/orders/my/" ++ print_decimal order_id ++ codes "/"

abbrev pay_path : ℕ → Text
pay_path order_id = codes "api/orders/" ++ print_decimal order_id ++ codes "/pay/"

module _ (formats : Formats) (client : Client) (user : Option TelegramUser)
    (identity : TelegramIdentity) (known : identity_of user ≡ returned identity) where
  abbrev n : ℕ
  n = identity.telegram_id

  -- Each call of the service for a Telegram user with a valid id sends eight requests at most,
  -- whatever the backend answers, and changes the stored tokens of no other Telegram id.
  pub calls-Within :
      (product_id item_id quantity order_id : ℕ)
      → Within n 8 (Service.get_profile formats client user)
        × Within n 8 (Service.get_cart formats client user)
        × Within n 8 (Service.add_cart_item formats client user product_id quantity)
        × Within n 8 (Service.update_cart_item formats client user item_id quantity)
        × Within n 8 (Service.remove_cart_item formats client user item_id)
        × Within n 8 (Service.clear_cart formats client user)
        × Within n 8 (Service.checkout_cart formats client user)
        × Within n 8 (Service.pay_order formats client user order_id)
        × Within n 8 (Service.get_my_orders formats client user)
        × Within n 8 (Service.get_my_order formats client user order_id)
  unfolding Service.get_profile Service.get_cart Service.add_cart_item Service.update_cart_item
      Service.remove_cart_item Service.clear_cart Service.checkout_cart Service.pay_order
      Service.get_my_orders Service.get_my_order
  calls-Within product_id item_id quantity order_id = (
    protect (Endpoints.get_profile formats client) (
        Within-read n client (operation Method.get (codes "api/auth/me/"))
          λ body. read_backend_user formats (some body)),
    protect (Endpoints.get_cart formats client)
        (Within-read n client (operation Method.get (codes "api/cart/")) (read_cart formats)),
    protect (λ m. Endpoints.add_cart_item formats client m product_id quantity)
        (Within-read n client
          (record (operation Method.post (codes "api/cart/items/")) {
            body = some (
                object (
                  member (codes "product") (integer product_id)
                    (member (codes "quantity") (integer quantity) nil)));
          })
          (read_cart_item formats)),
    protect (λ m. Endpoints.update_cart_item formats client m item_id quantity)
        (Within-read n client
          (record (operation Method.patch (item_path item_id)) {
            body = some (object (member (codes "quantity") (integer quantity) nil));
          })
          (read_cart_item formats)),
    protect (λ m. Endpoints.remove_cart_item client m item_id)
        (Within-done n client
          (record (operation Method.delete (item_path item_id)) { expect_json = false })),
    protect (Endpoints.clear_cart client) (
        Within-done n client
          (record (operation Method.delete (codes "api/cart/clear/")) { expect_json = false })),
    protect (Endpoints.checkout_cart formats client) (
        Within-read n client (operation Method.post (codes "api/cart/checkout/"))
          (read_checkout_order formats)),
    protect (λ m. Endpoints.pay_order client m order_id)
        (Within-checked n (order_id == 0) _
          (Within-done n client (operation Method.post (pay_path order_id)))),
    protect (Endpoints.get_my_orders formats client) (
        Within-bind 3 0 3 _ _ (omega arith)
          (authenticated_json-Within client (operation Method.get (codes "api/orders/my/")))
          λ body.
            Within-step 0 _ _ (Within-lift (valid (as_list (Endpoints.results_of body))))
              λ results. Within-lift (each (read_order_summary formats) results)),
    protect (λ m. Endpoints.get_my_order formats client m order_id)
        (Within-checked n (order_id == 0) _ (
          Within-read n client (operation Method.get (order_path order_id))
            (read_order_detail formats))),
  )
    where
      protect :
          {A : Type 0} (call : ℕ → Session A)
          → Within n 3 (call n)
          → Within n 8 (Service.protected formats client user call)
      protect = Within-protected formats client user identity known

-- ===== src/Bot/Handlers.antt =====
-- bot/app/handlers/cart.py and bot/app/handlers/catalogue.py: what the bot does and shows when a button of
-- a cart or of the catalogue is pressed.
pub mod Guards
pub mod Quantities
pub mod Reach
use ludora.Common.{
  ℕ, ◌+◌, ◌-◌, Bool, false, not, Option, none, some, Text, codes, ◌==◌, ltb, find, holds, null,
  if◌then◌else◌,
}
use ludora.Bot.Outcome.{ApiError, Outcome, returned, raised}
use ludora.Bot.Schemas.Fields.{Formats}
use ludora.Bot.Schemas.Catalogue.{Product, ProductPage, CartItem, Cart}
use ludora.Bot.Schemas.Purchases.{OrderDetail}
use ludora.Bot.Identity.{TelegramUser}
use ludora.Bot.Session.{Client, World, Session, ◌>>=◌, ◌>>◌, pure}
use ludora.Bot.Client.Endpoints
use ludora.Bot.Service

-- What a handler shows: a text by its key, a question with its two buttons, an error's text, or a
-- formatted value.
pub data Screen : Type 0 where
  message : Text → Screen
  question : Text → Screen
  failure : ApiError → Screen
  cart_shown : Cart → Screen
  paid_order : OrderDetail → Screen
  page_shown : ProductPage → Screen
  product_shown : Product → Screen

-- CartItemCallback.action
pub data ItemAction : Type 0 where
  inc dec remove : ItemAction

-- CartActionCallback.action
pub data CartAction : Type 0 where
  clear clear_yes checkout checkout_yes : CartAction

abbrev pub shown_or_failure : Outcome Screen × World → Outcome Screen × World
shown_or_failure (returned screen, world) = (returned screen, world)
shown_or_failure (raised e, world) = (returned (failure e), world)

-- `except … as error: await show_error(…)`
unfoldable pub handled : Session Screen → Session Screen
handled m world = shown_or_failure (m world)

-- `_owned`
abbrev pub is_owned : Option TelegramUser → ℕ → Bool
is_owned none owner_id = false
is_owned (some user) owner_id = holds user.id owner_id

-- What a press on an item of a cart asks of the backend.
pub data Change : Type 0 where
  remove_item : Change
  set_quantity : ℕ → Change

unfoldable pub change_of : ItemAction → ℕ → Change
change_of inc quantity = set_quantity (quantity + 1)
change_of dec quantity = if quantity == 1 then remove_item else set_quantity (quantity - 1)
change_of remove quantity = remove_item

abbrev pub invalid_callback : Screen
invalid_callback = message (codes "error.invalid_callback")

module _ (formats : Formats) (client : Client) (user : Option TelegramUser) where
  -- `_show_cart`
  unfoldable pub show_cart : Session Screen
  unfolding handled Service.get_cart
  show_cart = handled do cart ← Service.get_cart formats client user; pure (cart_shown cart)

  unfoldable pub apply_change : ℕ → Change → Session (Unit {0})
  unfolding Service.remove_cart_item Service.update_cart_item
  apply_change item_id remove_item = Service.remove_cart_item formats client user item_id
  apply_change item_id (set_quantity quantity) = do
    Service.update_cart_item formats client user item_id quantity
    pure tt

  abbrev pub change_found : ItemAction → Option CartItem → Session Screen
  change_found action none = pure (message (codes "error.resource_not_found"))
  change_found action (some item) = do
    apply_change item.id (change_of action item.quantity)
    show_cart

  -- `change_cart_item`
  unfoldable pub change_cart_item : ItemAction → ℕ → ℕ → Session Screen
  unfolding show_cart apply_change change_of
  change_cart_item action item_id owner_id =
      if not (is_owned user owner_id)
      then pure invalid_callback
      else (handled do
        cart ← Service.get_cart formats client user
        change_found action (find (λ i. i.id == item_id) cart.items))

  -- `cart_action` behind its confirmation.
  unfoldable pub clear_confirmed : Session Screen
  unfolding handled Service.clear_cart
  clear_confirmed =
      handled do Service.clear_cart formats client user; pure (message (codes "cart.cleared"))

  unfoldable pub checkout_confirmed : Session Screen
  unfolding handled Service.checkout_cart Service.pay_order Service.get_my_order
  checkout_confirmed = handled do
    order ← Service.checkout_cart formats client user
    Service.pay_order formats client user order.id
    detail ← Service.get_my_order formats client user order.id
    pure (paid_order detail)

  abbrev pub act : CartAction → Session Screen
  act clear = pure (question (codes "cart.clear_confirm"))
  act checkout = pure (question (codes "cart.checkout_confirm"))
  act clear_yes = clear_confirmed
  act checkout_yes = checkout_confirmed

  -- `cart_action`
  unfoldable pub cart_action : CartAction → ℕ → Session Screen
  unfolding clear_confirmed checkout_confirmed
  cart_action action owner_id =
      if not (is_owned user owner_id) then pure invalid_callback else act action

  -- `add_to_cart`
  unfoldable pub add_to_cart : ℕ → Session Screen
  unfolding handled Service.add_cart_item
  add_to_cart product_id =
      handled do
        Service.add_cart_item formats client user product_id 1
        pure (message (codes "cart.added"))

abbrev pub page_or_empty : ProductPage → Screen
page_or_empty page =
    if null page.products then message (codes "catalogue.empty") else page_shown page

-- `catalogue_page`, and `catalogue_command` for the first page.
unfoldable pub catalogue_page : Formats → Client → ℕ → Session Screen
unfolding handled Endpoints.get_products
catalogue_page formats client page =
    if ltb page 1
    then pure invalid_callback
    else (handled do found ← Endpoints.get_products formats client page; pure (page_or_empty found))

-- `product_detail`
unfoldable pub product_detail : Formats → Client → ℕ → ℕ → Session Screen
unfolding handled Endpoints.get_product
product_detail formats client product_id page =
    if ltb product_id 1
    then pure invalid_callback
    else if ltb page 1
    then pure invalid_callback
    else (handled
        do product ← Endpoints.get_product formats client product_id; pure (product_shown product))

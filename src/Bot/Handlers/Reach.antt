-- ===== src/Bot/Handlers/Reach.antt =====
-- How far a press reaches: bot/app/handlers/cart.py.
use ludora.Common.{ℕ, not, ◌≡◌, Option, none, some, arith, find, ◌==◌}
use ludora.Bot.Outcome.{Outcome, returned, raised}
use ludora.Bot.Schemas.Fields.{Formats}
use ludora.Bot.Schemas.Catalogue.{CartItem}
use ludora.Bot.Identity.{TelegramUser, TelegramIdentity}
use ludora.Bot.Session.{Client, World, Session}
use ludora.Bot.Session.Within.{Within, Moved, Within-pure, Within-bind, Within-if, Within-weaken}
use ludora.Bot.Service
use ludora.Bot.Service.{identity_of}
use ludora.Bot.Service.Calls.{calls-Within}
use ludora.Bot.Handlers.{
  invalid_callback, Screen, ItemAction, CartAction, clear, checkout, clear_yes, checkout_yes,
  Change, remove_item, set_quantity, change_of, is_owned, handled, shown_or_failure, show_cart,
  apply_change, change_found, change_cart_item, clear_confirmed, checkout_confirmed, act,
  cart_action,
}

Within-handled : {n k : ℕ} (m : Session Screen) → Within n k m → Within n k (handled m)
unfolding handled
Within-handled {n} {k} m h = record { at = λ world. go world (m world) (h.at world) }
  where
    go :
        (world : World) (r : Outcome Screen × World)
        → Moved n k world r.1
        → Moved n k world (shown_or_failure r).1
    go world (returned screen, w) moved = moved
    go world (raised e, w) moved = moved

module _ (formats : Formats) (client : Client) (user : Option TelegramUser)
    (identity : TelegramIdentity) (known : identity_of user ≡ returned identity) where
  abbrev n : ℕ
  n = identity.telegram_id

  Within-show_cart : Within n 8 (show_cart formats client user)
  unfolding show_cart
  Within-show_cart = Within-handled _ (
      Within-bind 8 0 8 (Service.get_cart formats client user) _ (omega arith)
        (calls-Within formats client user identity known 0 0 0 0).1 λ cart. Within-pure _)

  Within-apply_change :
      (item_id : ℕ) (change : Change) → Within n 8 (apply_change formats client user item_id change)
  unfolding apply_change
  Within-apply_change item_id remove_item =
      (calls-Within formats client user identity known 0 item_id 0 0).4
  Within-apply_change item_id (set_quantity quantity) =
      Within-bind 8 0 8 (Service.update_cart_item formats client user item_id quantity) _
        (omega arith) (calls-Within formats client user identity known 0 item_id quantity 0).3
        λ _. Within-pure _

  Within-change_found :
      (action : ItemAction) (found : Option CartItem)
      → Within n 16 (change_found formats client user action found)
  Within-change_found action none = Within-weaken 0 16 _ (omega arith) (Within-pure _)
  Within-change_found action (some item) =
      Within-bind 8 8 16 _ _ (omega arith)
        (Within-apply_change item.id (change_of action item.quantity)) λ _. Within-show_cart

  Within-change_cart_item :
      (action : ItemAction) (item_id owner_id : ℕ)
      → Within n 24 (change_cart_item formats client user action item_id owner_id)
  unfolding change_cart_item
  Within-change_cart_item action item_id owner_id =
      Within-if 24 (not (is_owned user owner_id)) _ _
        (Within-weaken 0 24 _ (omega arith) (Within-pure invalid_callback))
        (Within-handled _ (
          Within-bind 8 16 24 (Service.get_cart formats client user) _ (omega arith)
            (calls-Within formats client user identity known 0 0 0 0).1
            λ cart. Within-change_found action (find (λ i. i.id == item_id) cart.items)))

  Within-clear_confirmed : Within n 8 (clear_confirmed formats client user)
  unfolding clear_confirmed
  Within-clear_confirmed = Within-handled _ (
      Within-bind 8 0 8 (Service.clear_cart formats client user) _ (omega arith)
        (calls-Within formats client user identity known 0 0 0 0).5 λ _. Within-pure _)

  Within-checkout_confirmed : Within n 24 (checkout_confirmed formats client user)
  unfolding checkout_confirmed
  Within-checkout_confirmed = Within-handled _ (
      Within-bind 8 16 24 (Service.checkout_cart formats client user) _ (omega arith)
        (calls-Within formats client user identity known 0 0 0 0).6
        λ order.
          Within-bind 8 8 16 (Service.pay_order formats client user order.id) _ (omega arith)
            (calls-Within formats client user identity known 0 0 0 order.id).7
            λ _.
              Within-bind 8 0 8 (Service.get_my_order formats client user order.id) _ (omega arith)
                (calls-Within formats client user identity known 0 0 0 order.id).9
                λ detail. Within-pure _)

  Within-act : (action : CartAction) → Within n 24 (act formats client user action)
  Within-act clear = Within-weaken 0 24 _ (omega arith) (Within-pure _)
  Within-act checkout = Within-weaken 0 24 _ (omega arith) (Within-pure _)
  Within-act clear_yes = Within-weaken 8 24 _ (omega arith) Within-clear_confirmed
  Within-act checkout_yes = Within-checkout_confirmed

  -- A press of a Telegram user with a valid id on a button of a cart sends 24 requests at most,
  -- whatever the backend answers, and changes the stored tokens of no other Telegram id.
  pub presses-Within :
      (item_action : ItemAction) (item_id owner_id : ℕ) (action : CartAction)
      → Within n 24 (change_cart_item formats client user item_action item_id owner_id)
        × Within n 24 (cart_action formats client user action owner_id)
  unfolding cart_action
  presses-Within item_action item_id owner_id action = (
    Within-change_cart_item item_action item_id owner_id,
    Within-if 24 (not (is_owned user owner_id)) _ _
        (Within-weaken 0 24 _ (omega arith) (Within-pure invalid_callback)) (Within-act action),
  )

-- ===== src/Bot/Service.antt =====
-- bot/app/auth/service.py, `TelegramAuthService`: a call for a Telegram user, who is synchronized with
-- the backend where no tokens are stored, and once more where the stored ones are refused. Its storage
-- is its client's, as bot/app/main.py builds them.
pub mod Reach
pub mod Recovery
pub mod Calls
use ludora.Common.{ℕ, List, Option, is_none, if◌then◌else◌}
use ludora.Bot.Outcome.{missing_telegram_user, Outcome, returned, raised}
use ludora.Bot.Schemas.Fields.{Formats}
use ludora.Bot.Schemas.Catalogue.{CartItem, Cart}
use ludora.Bot.Schemas.Purchases.{CheckoutOrder, OrderSummary, OrderDetail}
use ludora.Bot.Identity.{TelegramUser, TelegramIdentity, from_user, BackendUser, AuthResult}
use ludora.Bot.Session.{Client, Session, ◌>>=◌, ◌>>◌, pure, lift, stored, store, except_required}
use ludora.Bot.Client.Endpoints
use ludora.Bot.Client.Endpoints.{authenticate_telegram}

abbrev pub missing_user : Outcome TelegramIdentity → Outcome TelegramIdentity
missing_user (returned identity) = returned identity
missing_user (raised e) = raised missing_telegram_user

-- `_identity`
abbrev pub identity_of : Option TelegramUser → Outcome TelegramIdentity
identity_of user = missing_user (from_user user)

module _ (formats : Formats) (client : Client) (user : Option TelegramUser) where
  -- `synchronize`
  unfoldable pub synchronize : Session AuthResult
  unfolding authenticate_telegram store
  synchronize = do
    identity ← lift (identity_of user)
    result ← authenticate_telegram formats client identity
    store identity.telegram_id result.tokens
    pure result

  -- `ensure_authenticated`
  unfoldable pub ensure_authenticated : Session TelegramIdentity
  unfolding synchronize stored
  ensure_authenticated = do
    identity ← lift (identity_of user)
    tokens ← stored identity.telegram_id
    if is_none tokens then (synchronize >> pure identity) else pure identity

  -- `_protected`, and `get_profile`, which repeats its steps.
  unfoldable pub protected : {A : Type 0} → (ℕ → Session A) → Session A
  unfolding ensure_authenticated except_required
  protected call = do
    identity ← ensure_authenticated
    except_required (call identity.telegram_id) do synchronize; call identity.telegram_id

  unfoldable pub get_profile : Session BackendUser
  unfolding protected Endpoints.get_profile
  get_profile = protected (Endpoints.get_profile formats client)

  unfoldable pub get_cart : Session Cart
  unfolding protected Endpoints.get_cart
  get_cart = protected (Endpoints.get_cart formats client)

  unfoldable pub add_cart_item : ℕ → ℕ → Session CartItem
  unfolding protected Endpoints.add_cart_item
  add_cart_item product_id quantity =
      protected λ n. Endpoints.add_cart_item formats client n product_id quantity

  unfoldable pub update_cart_item : ℕ → ℕ → Session CartItem
  unfolding protected Endpoints.update_cart_item
  update_cart_item item_id quantity =
      protected λ n. Endpoints.update_cart_item formats client n item_id quantity

  unfoldable pub remove_cart_item : ℕ → Session (Unit {0})
  unfolding protected Endpoints.remove_cart_item
  remove_cart_item item_id = protected λ n. Endpoints.remove_cart_item client n item_id

  unfoldable pub clear_cart : Session (Unit {0})
  unfolding protected Endpoints.clear_cart
  clear_cart = protected (Endpoints.clear_cart client)

  unfoldable pub checkout_cart : Session CheckoutOrder
  unfolding protected Endpoints.checkout_cart
  checkout_cart = protected (Endpoints.checkout_cart formats client)

  unfoldable pub pay_order : ℕ → Session (Unit {0})
  unfolding protected Endpoints.pay_order
  pay_order order_id = protected λ n. Endpoints.pay_order client n order_id

  unfoldable pub get_my_orders : Session (List OrderSummary)
  unfolding protected Endpoints.get_my_orders
  get_my_orders = protected (Endpoints.get_my_orders formats client)

  unfoldable pub get_my_order : ℕ → Session OrderDetail
  unfolding protected Endpoints.get_my_order
  get_my_order order_id = protected λ n. Endpoints.get_my_order formats client n order_id

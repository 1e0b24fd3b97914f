-- ===== src/Store/Rows.antt =====
-- The rows of the models in backend/apps/games/models.py, backend/apps/orders/models.py,
-- backend/apps/carts/models.py and backend/apps/payments/models.py. A decimal with two places is
-- a number of cents, an instant is a number, a nullable column is an `Option`, a foreign key is the
-- id of its row, and each table is a list of rows in the order of their ids.
use ludora.Common.{ℕ, Text, List, Option, Bool, true, false}

-- games.Product, with the columns that the services read.
pub record Product : Type 0 where
  pub id : ℕ
  pub title : Text
  pub price : ℕ
  pub is_active : Bool

-- games.LicenseKey.Status
pub data KeyStatus : Type 0 where
  available reserved sold : KeyStatus

-- games.LicenseKey
pub record LicenseKey : Type 0 where
  pub id : ℕ
  pub product_id : ℕ
  pub value : Text
  pub status : KeyStatus
  pub sold_at : Option ℕ

-- orders.Order.Source
pub data Source : Type 0 where
  direct cart : Source

-- orders.Order.Status
pub data OrderStatus : Type 0 where
  created paid cancelled : OrderStatus

-- orders.Order
pub record Order : Type 0 where
  pub id : ℕ
  pub product_id : Option ℕ
  pub user_id : Option ℕ
  pub order_number : Option Text
  pub email : Text
  pub price_paid : Option ℕ
  pub total_price : Option ℕ
  pub source : Source
  pub license_key_id : Option ℕ
  pub status : OrderStatus
  pub paid_at : Option ℕ
  pub reservation_payment_attempt_id : Option ℕ

-- orders.OrderItem
pub record OrderItem : Type 0 where
  pub id : ℕ
  pub order_id : ℕ
  pub product_id : ℕ
  pub product_title : Text
  pub quantity : ℕ
  pub unit_price : ℕ

-- orders.LicenseAssignment
pub record LicenseAssignment : Type 0 where
  pub id : ℕ
  pub order_item_id : ℕ
  pub license_key_id : ℕ

-- orders.Payment.Status
pub data PaymentStatus : Type 0 where
  created pending paid failed cancelled expired : PaymentStatus

-- orders.Payment
pub record Payment : Type 0 where
  pub id : ℕ
  pub order_id : ℕ
  pub status : PaymentStatus
  pub provider : Option Text
  pub transaction_id : Option Text
  pub checkout_url : Option Text
  pub amount : ℕ
  pub paid_at : Option ℕ

-- carts.Cart
pub record Cart : Type 0 where
  pub id : ℕ
  pub user_id : ℕ

-- carts.CartItem
pub record CartItem : Type 0 where
  pub id : ℕ
  pub cart_id : ℕ
  pub product_id : ℕ
  pub quantity : ℕ

-- The tables, the sequence of each, the ids of the recorded Stripe events, and the confirmation
-- mails that committed transactions have queued.
pub record Db : Type 0 where
  pub products : List Product
  pub license_keys : List LicenseKey
  pub orders : List Order
  pub order_items : List OrderItem
  pub license_assignments : List LicenseAssignment
  pub payments : List Payment
  pub webhook_events : List Text
  pub carts : List Cart
  pub cart_items : List CartItem
  pub next_order : ℕ
  pub next_order_item : ℕ
  pub next_assignment : ℕ
  pub next_payment : ℕ
  pub next_cart : ℕ
  pub next_cart_item : ℕ
  pub queued_emails : List ℕ

-- The comparisons with a status that the services make.
abbrev pub is_available : KeyStatus → Bool
is_available available = true
is_available reserved = false
is_available sold = false

abbrev pub is_reserved : KeyStatus → Bool
is_reserved available = false
is_reserved reserved = true
is_reserved sold = false

abbrev pub is_sold : KeyStatus → Bool
is_sold available = false
is_sold reserved = false
is_sold sold = true

abbrev pub is_direct : Source → Bool
is_direct direct = true
is_direct cart = false

abbrev pub is_paid_order : OrderStatus → Bool
is_paid_order created = false
is_paid_order paid = true
is_paid_order cancelled = false

abbrev pub is_paid : PaymentStatus → Bool
is_paid paid = true
is_paid _ = false

-- `status in (CREATED, PENDING)`
abbrev pub is_active_payment : PaymentStatus → Bool
is_active_payment created = true
is_active_payment pending = true
is_active_payment _ = false

-- `status in (CREATED, PENDING, FAILED)`
abbrev pub is_completable : PaymentStatus → Bool
is_completable created = true
is_completable pending = true
is_completable failed = true
is_completable _ = false

-- `status in (FAILED, CANCELLED, EXPIRED)`
abbrev pub is_unsuccessful : PaymentStatus → Bool
is_unsuccessful failed = true
is_unsuccessful cancelled = true
is_unsuccessful expired = true
is_unsuccessful _ = false

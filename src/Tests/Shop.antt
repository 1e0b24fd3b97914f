-- ===== src/Tests/Shop.antt =====
-- A shop with one reserved order, before and after it is paid.
use ludora.Common.{[], ◌∷◌, none, some, ℕ, Option, codes, true}
use ludora.Store.{
  Db, Product, LicenseKey, KeyStatus, Order, OrderStatus, OrderItem, Payment, PaymentStatus, Source,
}

abbrev pub game : Product
game = record { id = 1; title = codes "Ludo"; price = 1999; is_active = true }

abbrev pub game_key : KeyStatus → Option ℕ → LicenseKey
game_key status sold_at = record {
  id = 5;
  product_id = 1;
  value = codes "AAAA-BBBB";
  status = status;
  sold_at = sold_at;
}

abbrev pub order : Order
order = record {
  id = 3;
  product_id = some 1;
  user_id = some 9;
  order_number = some (codes "LUD-1");
  email = codes "a@b.c";
  price_paid = none;
  total_price = some 1999;
  source = Source.direct;
  license_key_id = none;
  status = OrderStatus.created;
  paid_at = none;
  reservation_payment_attempt_id = some 7;
}

abbrev pub item : OrderItem
item = record {
  id = 4;
  order_id = 3;
  product_id = 1;
  product_title = codes "Ludo";
  quantity = 1;
  unit_price = 1999;
}

abbrev pub payment : Payment
payment = record {
  id = 7;
  order_id = 3;
  status = PaymentStatus.pending;
  provider = some (codes "stripe");
  transaction_id = some (codes "cs_1");
  checkout_url = none;
  amount = 1999;
  paid_at = none;
}

abbrev pub shop : Db
shop = record {
  products = game ∷ [];
  license_keys = game_key KeyStatus.reserved none ∷ [];
  orders = order ∷ [];
  order_items = item ∷ [];
  license_assignments = record { id = 2; order_item_id = 4; license_key_id = 5 } ∷ [];
  payments = payment ∷ [];
  webhook_events = [];
  carts = [];
  cart_items = [];
  next_order = 4;
  next_order_item = 5;
  next_assignment = 3;
  next_payment = 8;
  next_cart = 1;
  next_cart_item = 1;
  queued_emails = [];
}

abbrev pub sold_order : Order
sold_order = record order {
  license_key_id = some 5;
  status = OrderStatus.paid;
  price_paid = some 1999;
  paid_at = some 100;
  reservation_payment_attempt_id = none;
}

abbrev pub sold_payment : Payment
sold_payment = record payment { status = PaymentStatus.paid; paid_at = some 100 }

abbrev pub sold_shop : Db
sold_shop = record shop {
  license_keys = game_key KeyStatus.sold (some 100) ∷ [];
  orders = sold_order ∷ [];
  payments = sold_payment ∷ [];
  queued_emails = 3 ∷ [];
}

-- ===== src/Tests/Shopping.antt =====
-- The theorems on carts, providers and deliveries, applied to the shop.
use ludora.Common.{
  ◌↔◌, false, Text, List, ◌≡◌, refl, [], ◌∷◌, none, some, arith, codes, print_decimal,
}
use ludora.Store.{Db, ok, ◌>>=◌, Cart, Order, OrderStatus, Source}
use ludora.Placement.{User, create_order}
use ludora.Carts.{
  cart_lines, get_or_create_cart, create_snapshot, checkout_cart, add_cart_item,
  set_cart_item_quantity,
}
use ludora.Carts.Checkout.{Placed, checkout_cart-Placed}
use ludora.Payments.Providers.{
  ProviderPayment, ProviderStatus, returned, LocalConfirmation, safe_key, local_create,
  local_confirm, local_provider,
}
use ludora.Payments.Prepare.{Prepared}
use ludora.Payments.Attempt.{payment_request}
use ludora.Payments.References.{local_confirm-local_create, local_references_differ}
use ludora.Payments.Webhooks.{EventType, CheckoutSession}
use ludora.Payments.Parse.{parse_event}
use ludora.Payments.Parse.Accepted.{about, IsSessionEvent, parse_event_iff}
use ludora.Json.{boolean, text, object, Members, nil, member}
use ludora.Carts.Guards.{hits_constraint, constraints_are_guarded}
use ludora.Imports.{import_license_keys}
use ludora.Imports.Again.{import_license_keys_twice}
use ludora.Tests.Shop.{order, payment, shop, item}

abbrev user : User
user = record { id = 9; email = codes "a@b.c" }

abbrev pub cart : Cart
cart = record { id = 1; user_id = 9 }

abbrev pub cart_shop : Db
cart_shop = record shop {
  carts = cart ∷ [];
  cart_items = record { id = 1; cart_id = 1; product_id = 1; quantity = 2 } ∷ [];
  next_cart = 2;
  next_cart_item = 2;
}

abbrev cart_order : Order
cart_order = record {
  id = 4;
  product_id = none;
  user_id = some 9;
  order_number = some (codes "LUD-2");
  email = codes "a@b.c";
  price_paid = none;
  total_price = some 3998;
  source = Source.cart;
  license_key_id = none;
  status = OrderStatus.created;
  paid_at = none;
  reservation_payment_attempt_id = none;
}

abbrev checked_out : Db
checked_out = record cart_shop {
  orders = order ∷ cart_order ∷ [];
  order_items =
      item
      ∷ record {
        id = 5;
        order_id = 4;
        product_id = 1;
        product_title = codes "Ludo";
        quantity = 2;
        unit_price = 1999;
      }
      ∷ [];
  cart_items = [];
  next_order = 5;
  next_order_item = 6;
}

placed : checkout_cart (codes "LUD-2") user cart_shop ≡ ok (cart_order, checked_out)
unfolding checkout_cart get_or_create_cart create_order create_snapshot ◌>>=◌
placed = refl

checkout_cart-Placed_example : Placed 1 (cart_lines 1 cart_shop) cart_order checked_out
checkout_cart-Placed_example =
    checkout_cart-Placed (codes "LUD-2") user cart cart_order cart_shop checked_out refl
      (omega arith, tt) placed

constraints_are_guarded_example :
    (hits_constraint (add_cart_item 9 1 97 cart_shop) ≡ false)
    × (hits_constraint (set_cart_item_quantity 9 1 100 cart_shop) ≡ false)
constraints_are_guarded_example = constraints_are_guarded 9 1 97 1 100 cart_shop (omega arith)

abbrev attempt : Prepared
attempt = record {
  order = order;
  payment = payment;
  provider = local_provider LocalConfirmation.succeed;
  created_order_item_id = none;
}

abbrev reference : ProviderPayment
reference = record {
  external_id = codes "local-pay-payment-7";
  status = ProviderStatus.pending;
  checkout_url = none;
}

local_payment : local_create (payment_request attempt) ≡ returned reference
unfolding local_create safe_key print_decimal
local_payment = refl

local_confirm-local_create_example :
    local_confirm LocalConfirmation.reject (codes "local-pay-payment-7")
    ≡ returned (record {
      external_id = codes "local-pay-payment-7";
      status = ProviderStatus.failed;
      checkout_url = none;
    })
local_confirm-local_create_example =
    local_confirm-local_create (payment_request attempt) LocalConfirmation.reject reference
      local_payment

local_references_differ_example : payment.id ≡ payment.id
local_references_differ_example =
    local_references_differ attempt attempt reference reference (omega arith) (omega arith)
      local_payment local_payment refl

abbrev session : CheckoutSession
session = record {
  id = codes "cs_1";
  local_payment_id = some (codes "7");
  payment_status = codes "paid";
}

-- A payload, with members that the parser does not read.
abbrev payload : Members
payload = member (codes "id") (text (codes "evt_1")) (
    member (codes "livemode") (boolean false) (
      member (codes "data")
        (object (
          member (codes "object")
            (object (
              member (codes "id") (text session.id) (
                member (codes "object") (text (codes "checkout.session")) (
                  member (codes "metadata")
                    (object (member (codes "local_payment_id") (text (codes "7")) nil))
                    (member (codes "payment_status") (text (codes "paid")) nil)))))
            nil))
        (member (codes "type") (text (codes "checkout.session.completed")) nil)))

parse_event_iff_example :
    (parse_event payload ≡ ok (about (codes "evt_1") EventType.completed session))
    ↔ IsSessionEvent payload (codes "evt_1") EventType.completed session
parse_event_iff_example = parse_event_iff payload (codes "evt_1") EventType.completed session

-- Two rows with one value, and a value that is there already.
abbrev csv_values : List Text
csv_values = codes "CCCC" ∷ codes "CCCC" ∷ codes "AAAA-BBBB" ∷ []

import_license_keys_twice_example :
    (let first = import_license_keys 1 csv_values 6 shop.license_keys in
      let second = import_license_keys 1 csv_values 7 first.license_keys in
      (second.imported ≡ 0) × (second.license_keys ≡ first.license_keys))
import_license_keys_twice_example = import_license_keys_twice 1 csv_values 6 7 shop.license_keys

-- ===== src/Bot/Schemas/Purchases.antt =====
-- bot/app/api/schemas.py: orders, their items with the assigned license keys, and their payments.
use ludora.Common.{ℕ, List, Option, some, Text, codes}
use ludora.Json.{Json, get}
use ludora.Bot.Outcome.{Outcome, returned, ◌>>=◌, valid}
use ludora.Bot.Schemas.Fields.{
  Formats, Decimal, Datetime, as_object, as_list, as_count, optional_string, required_string,
  string, datetime, optional_datetime, positive_int, decimal, each,
}

pub record OrderItem : Type 0 where
  pub product : ℕ
  pub product_title : Text
  pub quantity : ℕ
  pub unit_price : Decimal
  pub line_total : Decimal

pub record CheckoutOrder : Type 0 where
  pub id : ℕ
  pub order_number : Text
  pub status : Text
  pub total_price : Decimal
  pub items : List OrderItem

pub record OrderSummary : Type 0 where
  pub id : ℕ
  pub status : Text
  pub created_at : Datetime
  pub number_of_items : ℕ
  pub total_price : Decimal

pub record LicenseAssignment : Type 0 where
  pub id : ℕ
  pub license_key : Option Text

pub record OrderDetailItem : Type 0 where
  pub product : ℕ
  pub product_title : Text
  pub quantity : ℕ
  pub unit_price : Decimal
  pub line_total : Decimal
  pub license_assignments : List LicenseAssignment

pub record OrderPayment : Type 0 where
  pub id : ℕ
  pub status : Text
  pub provider : Text
  pub transaction_id : Text
  pub amount : Decimal
  pub created_at : Datetime
  pub paid_at : Option Datetime

pub record OrderDetail : Type 0 where
  pub id : ℕ
  pub order_number : Text
  pub status : Text
  pub total_price : Decimal
  pub created_at : Datetime
  pub items : List OrderDetailItem
  pub payments : List OrderPayment

-- `OrderItem.from_mapping`
unfoldable pub read_order_item : Formats → Json → Outcome OrderItem
read_order_item formats value = do
  value ← valid (as_object (some value))
  title ← required_string (codes "product_title") value
  product ← positive_int (codes "product") value
  quantity ← positive_int (codes "quantity") value
  unit_price ← decimal formats (codes "unit_price") value
  line_total ← decimal formats (codes "line_total") value
  returned (record {
    product = product;
    product_title = title;
    quantity = quantity;
    unit_price = unit_price;
    line_total = line_total;
  })

-- `CheckoutOrder.from_mapping`
unfoldable pub read_checkout_order : Formats → Json → Outcome CheckoutOrder
unfolding read_order_item
read_checkout_order formats value = do
  value ← valid (as_object (some value))
  items ← valid (as_list (get (codes "items") value))
  order_number ← required_string (codes "order_number") value
  status ← required_string (codes "status") value
  id ← positive_int (codes "id") value
  total_price ← decimal formats (codes "total_price") value
  order_items ← each (read_order_item formats) items
  returned (record {
    id = id;
    order_number = order_number;
    status = status;
    total_price = total_price;
    items = order_items;
  })

-- `OrderSummary.from_mapping`
unfoldable pub read_order_summary : Formats → Json → Outcome OrderSummary
read_order_summary formats value = do
  value ← valid (as_object (some value))
  status ← required_string (codes "status") value
  number_of_items ← valid (as_count (get (codes "number_of_items") value))
  id ← positive_int (codes "id") value
  created_at ← datetime formats (codes "created_at") value
  total_price ← decimal formats (codes "total_price") value
  returned (record {
    id = id;
    status = status;
    created_at = created_at;
    number_of_items = number_of_items;
    total_price = total_price;
  })

-- `LicenseAssignment.from_mapping`
unfoldable pub read_license_assignment : Json → Outcome LicenseAssignment
read_license_assignment value = do
  value ← valid (as_object (some value))
  id ← positive_int (codes "id") value
  license_key ← optional_string (codes "license_key") value
  returned (record { id = id; license_key = license_key })

-- `OrderDetailItem.from_mapping`
unfoldable pub read_order_detail_item : Formats → Json → Outcome OrderDetailItem
unfolding read_license_assignment
read_order_detail_item formats value = do
  value ← valid (as_object (some value))
  assignments ← valid (as_list (get (codes "license_assignments") value))
  product ← positive_int (codes "product") value
  product_title ← required_string (codes "product_title") value
  quantity ← positive_int (codes "quantity") value
  unit_price ← decimal formats (codes "unit_price") value
  line_total ← decimal formats (codes "line_total") value
  license_assignments ← each read_license_assignment assignments
  returned (record {
    product = product;
    product_title = product_title;
    quantity = quantity;
    unit_price = unit_price;
    line_total = line_total;
    license_assignments = license_assignments;
  })

-- `OrderPayment.from_mapping`
unfoldable pub read_order_payment : Formats → Json → Outcome OrderPayment
read_order_payment formats value = do
  value ← valid (as_object (some value))
  id ← positive_int (codes "id") value
  status ← required_string (codes "status") value
  provider ← string (codes "provider") value
  transaction_id ← string (codes "transaction_id") value
  amount ← decimal formats (codes "amount") value
  created_at ← datetime formats (codes "created_at") value
  paid_at ← optional_datetime formats (codes "paid_at") value
  returned (record {
    id = id;
    status = status;
    provider = provider;
    transaction_id = transaction_id;
    amount = amount;
    created_at = created_at;
    paid_at = paid_at;
  })

-- `OrderDetail.from_mapping`
unfoldable pub read_order_detail : Formats → Json → Outcome OrderDetail
unfolding read_order_detail_item read_order_payment
read_order_detail formats value = do
  value ← valid (as_object (some value))
  items ← valid (as_list (get (codes "items") value))
  payments ← valid (as_list (get (codes "payments") value))
  id ← positive_int (codes "id") value
  order_number ← required_string (codes "order_number") value
  status ← required_string (codes "status") value
  total_price ← decimal formats (codes "total_price") value
  created_at ← datetime formats (codes "created_at") value
  detail_items ← each (read_order_detail_item formats) items
  order_payments ← each (read_order_payment formats) payments
  returned (record {
    id = id;
    order_number = order_number;
    status = status;
    total_price = total_price;
    created_at = created_at;
    items = detail_items;
    payments = order_payments;
  })

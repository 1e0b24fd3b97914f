-- ===== src/Emails.antt =====
-- backend/apps/orders/emails.py and backend/apps/orders/tasks.py: the confirmation mail of an order, and
-- whether it is sent. What is logged is left out; a failure to send is retried by the task queue.
pub mod Sent
use ludora.Common.{
  ℕ, ◌/◌, ◌%◌, List, [], ◌∷◌, ◌++◌, map, Option, none, some, Bool, false, not, ◌&&◌, ◌==◌, any, all,
  find, filter, null, length, sum_by, Text, codes, print_decimal, if◌then◌else◌, is_none,
}
use ludora.Store.{
  Db, Product, LicenseKey, Order, OrderItem, LicenseAssignment, is_sold, is_direct, is_paid_order,
  is_paid, find_order, find_product,
}

-- `order.items.all()`
abbrev pub all_items : Order → Db → List OrderItem
all_items order db = filter (λ i. i.order_id == order.id) db.order_items

abbrev pub concat_map {ℓ κ} : {A : Type ℓ} {B : Type κ} → (A → List B) → List A → List B
concat_map f [] = []
concat_map f (x ∷ xs) = f x ++ concat_map f xs

-- `[assignment for item in items for assignment in item.license_assignments.all()]`
abbrev pub all_assignments : List OrderItem → Db → List LicenseAssignment
all_assignments items db =
    concat_map (λ i. filter (λ a. a.order_item_id == i.id) db.license_assignments) items

abbrev pub find_key : ℕ → Db → Option LicenseKey
find_key n db = find (λ k. k.id == n) db.license_keys

-- A key that a row refers to is there.
abbrev pub is_sold_key : Option LicenseKey → Bool
is_sold_key none = false
is_sold_key (some key) = is_sold key.status

abbrev pub value_of : Option LicenseKey → List Text
value_of none = []
value_of (some key) = key.value ∷ []

-- `order.license_key`
abbrev pub delivered : Order → Db → Option LicenseKey
delivered order db = elim order.license_key_id [ none ↦ none | some n ↦ find_key n db ]

unfoldable pub assigned_license_key_values : Order → Db → List Text
assigned_license_key_values order db =
    let values =
      concat_map (λ a. value_of (find_key a.license_key_id db))
        (all_assignments (all_items order db) db) in
    if null values then value_of (delivered order db) else values

unfoldable pub has_complete_fulfilment : Order → Db → Bool
has_complete_fulfilment order db =
    let items = all_items order db in
    let assignments = all_assignments items db in
    if null assignments
    then is_direct order.source && is_sold_key (delivered order db)
    else length assignments == sum_by (λ i. i.quantity) items
      && all (λ a. is_sold_key (find_key a.license_key_id db)) assignments

pub record EmailMessage : Type 0 where
  pub subject : Text
  pub body : Text
  pub from_email : Text
  pub to : Text

abbrev pub join_lines : List Text → Text
join_lines [] = []
join_lines (l ∷ []) = l
join_lines (l ∷ m ∷ ls) = l ++ 10 ∷ join_lines (m ∷ ls)

-- `str` of a decimal with two places.
abbrev pub print_price : Option ℕ → Text
print_price none = codes "None"
print_price (some cents) =
    print_decimal (cents / 100)
    ++ codes "."
    ++ print_decimal (cents % 100 / 10)
    ++ print_decimal (cents % 10)

abbrev pub print_number : Option Text → Text
print_number none = codes "None"
print_number (some t) = t

abbrev pub product_title_line : Option Product → List Text
product_title_line none = []
product_title_line (some product) = (codes "- " ++ product.title) ∷ []

abbrev pub legacy_product : Order → Db → Option Product
legacy_product order db = elim order.product_id [ none ↦ none | some n ↦ find_product n db ]

abbrev pub product_lines : Order → Db → List Text
product_lines order db =
    let lines : List Text =
      map (λ i. codes "- " ++ i.product_title ++ codes " × " ++ print_decimal i.quantity)
        (all_items order db) in
    if null lines then product_title_line (legacy_product order db) else lines

unfoldable pub build_order_confirmation_email : Text → Order → Db → EmailMessage
build_order_confirmation_email from_email order db = record {
  subject = codes "Ludora order confirmation — " ++ print_number order.order_number;
  body = join_lines (
      codes "Thank you for your purchase."
        ∷ []
        ∷ (codes "Order: " ++ print_number order.order_number)
        ∷ []
        ∷ codes "Products:"
        ∷ product_lines order db
      ++ []
        ∷ codes "License keys:"
        ∷ map (λ v. codes "- " ++ v) (assigned_license_key_values order db)
      ++ []
        ∷ (codes "Total paid: " ++ print_price order.price_paid)
        ∷ []
        ∷ codes "If you need help with your order, please contact Ludora support."
        ∷ []);
  from_email = from_email;
  to = order.email;
}

-- The result of the task: the mail that it sends.
pub data EmailResult : Type 0 where
  missing : EmailResult
  ineligible : EmailResult
  sent : EmailMessage → EmailResult

-- `order.payments.filter(status=PAID).exists()`
abbrev pub has_paid_payment : Order → Db → Bool
has_paid_payment order db = any (λ p. p.order_id == order.id && is_paid p.status) db.payments

unfoldable pub is_eligible : Order → Db → Bool
is_eligible order db =
    is_paid_order order.status
    && not (is_none order.price_paid)
    && has_paid_payment order db
    && has_complete_fulfilment order db

abbrev pub send_to : Text → Db → Option Order → EmailResult
send_to from_email db none = missing
send_to from_email db (some order) =
    if is_eligible order db
    then sent (build_order_confirmation_email from_email order db)
    else ineligible

unfoldable pub send_order_confirmation_email : Text → ℕ → Db → EmailResult
send_order_confirmation_email from_email order_id db =
    send_to from_email db (find_order order_id db)

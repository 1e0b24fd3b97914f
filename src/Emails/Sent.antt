-- ===== src/Emails/Sent.antt =====
-- What the confirmation mail of backend/apps/orders/tasks.py holds when it is sent.
use ludora.Common.{
  subst, append_nil, is_none, ℕ, suc, Bool, true, false, ◌&&◌, ◌≡◌, refl, sym, ap, ◌∙◌, ◌⊎◌, inl,
  inr, List, [], ◌∷◌, ◌++◌, Option, none, some, Text, All, all, null, length, sum_by, arith,
  if◌then◌else◌, ◌==◌,
}
use ludora.Store.{
  Db, LicenseKey, LicenseAssignment, Order, is_sold, is_direct, is_paid_order, find_order,
}
use ludora.Emails.{
  all_items, all_assignments, find_key, is_sold_key, value_of, concat_map,
  assigned_license_key_values, has_complete_fulfilment, build_order_confirmation_email,
  has_paid_payment, is_eligible, EmailMessage, sent, ineligible, send_to,
  send_order_confirmation_email,
}

-- The value of a key that is sold.
pub record IsSoldValue (db : Db) (value : Text) : Type 0 where
  pub id : ℕ
  pub key : LicenseKey
  pub found : find_key id db ≡ some key
  pub is_sold_now : is_sold key.status ≡ true
  pub same : key.value ≡ value

add_value :
    (db : Db) (n : ℕ) (found : Option LicenseKey) (rest : List Text)
    → find_key n db ≡ found
    → is_sold_key found ≡ true
    → All (IsSoldValue db) rest
    → All (IsSoldValue db) (value_of found ++ rest)
      × (length (value_of found ++ rest) ≡ suc (length rest))
add_value db n none rest h sold hs = absurd cc
add_value db n (some key) rest h sold hs =
    ((record { id = n; key = key; found = h; is_sold_now = sold; same = refl }, hs), refl)

abbrev values_of : Db → List LicenseAssignment → List Text
values_of db = concat_map (λ a. value_of (find_key a.license_key_id db))

values_lem :
    (db : Db) (xs : List LicenseAssignment)
    → all (λ a. is_sold_key (find_key a.license_key_id db)) xs ≡ true
    → All (IsSoldValue db) (values_of db xs) × (length (values_of db xs) ≡ length xs)
values_lem db [] h = (tt, refl)
values_lem db (a ∷ xs) h =
    let (here, there) : (is_sold_key (find_key a.license_key_id db) ≡ true)
        × (all (λ b. is_sold_key (find_key b.license_key_id db)) xs ≡ true) =
      ground (arith, h) in
    let (rest, count) = values_lem db xs there in
    let (sold, one) =
      add_value db a.license_key_id (find_key a.license_key_id db) (values_of db xs) refl here
        rest in
    (sold, one ∙ ap suc count)

delivered_values :
    (db : Db) (id : Option ℕ)
    → is_sold_key (elim id [ none ↦ none | some n ↦ find_key n db ]) ≡ true
    → All (IsSoldValue db) (value_of (elim id [ none ↦ none | some n ↦ find_key n db ]))
      × (length (value_of (elim id [ none ↦ none | some n ↦ find_key n db ])) ≡ 1)
delivered_values db none h = absurd cc
delivered_values db (some n) h =
    subst (λ (values : List Text). All (IsSoldValue db) values × (length values ≡ 1))
      (append_nil (value_of (find_key n db))) (add_value db n (find_key n db) [] refl h tt)

not_null : (n : ℕ) (xs : List Text) → length xs ≡ suc n → null xs ≡ false
not_null n [] h = absurd omega (arith, h)
not_null n (x ∷ xs) h = refl

-- The values of sold keys: one for each unit where there are assignments, else the one of a direct
-- order.
abbrev pub AreSold : Db → List LicenseAssignment → ℕ → Bool → List Text → Type 0
AreSold db assignments units direct values =
    All (IsSoldValue db) values
    × (((null assignments ≡ false) × (length values ≡ units))
        ⊎ ((null assignments ≡ true) × (direct ≡ true) × (length values ≡ 1)))

listed :
    (db : Db) (xs : List LicenseAssignment) (units : ℕ) (direct : Bool) (id : Option ℕ)
    → (if null xs
        then direct && is_sold_key (elim id [ none ↦ none | some n ↦ find_key n db ])
        else (length xs == units && all (λ a. is_sold_key (find_key a.license_key_id db)) xs))
      ≡ true
    → AreSold db xs units direct (
        if null (values_of db xs)
        then value_of (elim id [ none ↦ none | some n ↦ find_key n db ])
        else values_of db xs)
listed db [] units direct id h =
    let (is_direct_order, is_sold_one) : (direct ≡ true)
        × (is_sold_key (elim id [ none ↦ none | some n ↦ find_key n db ]) ≡ true) =
      ground (arith, h) in
    let (sold, one) = delivered_values db id is_sold_one in (sold, inr (refl, is_direct_order, one))
listed db (a ∷ xs) units direct id h =
    let (every, all_sold) : (suc (length xs) ≡ units)
        × (all (λ b. is_sold_key (find_key b.license_key_id db)) (a ∷ xs) ≡ true) =
      ground (arith, h) in
    let (sold, count) = values_lem db (a ∷ xs) all_sold in
    let some_value = not_null (length xs) (values_of db (a ∷ xs)) count in
    rw some_value (sold, inl (refl, count ∙ every))

complete_lem :
    (order : Order) (db : Db)
    → has_complete_fulfilment order db ≡ true
    → AreSold db
        (all_assignments (all_items order db) db)
        (sum_by (λ i. i.quantity) (all_items order db))
        (is_direct order.source)
        (assigned_license_key_values order db)
unfolding has_complete_fulfilment assigned_license_key_values
complete_lem order db h =
    listed db (all_assignments (all_items order db) db)
      (sum_by (λ i. i.quantity) (all_items order db)) (is_direct order.source) order.license_key_id
      h

-- What a mail that is sent says: the order is paid by a payment, and the keys in it are sold.
pub record Confirms (from_email : Text) (order_id : ℕ) (db : Db) (message : EmailMessage)
    : Type 0 where
  pub order : Order
  pub found : find_order order_id db ≡ some order
  pub is_paid_now : is_paid_order order.status ≡ true
  pub priced : is_none order.price_paid ≡ false
  pub paid_by : has_paid_payment order db ≡ true
  pub keys :
      AreSold db
        (all_assignments (all_items order db) db)
        (sum_by (λ i. i.quantity) (all_items order db))
        (is_direct order.source)
        (assigned_license_key_values order db)
  pub says : message ≡ build_order_confirmation_email from_email order db

branch_taken :
    (eligible : Bool) (built message : EmailMessage)
    → (if eligible then sent built else ineligible) ≡ sent message
    → (eligible ≡ true) × (built ≡ message)
branch_taken true built message h = (refl, cc)
branch_taken false built message h = absurd cc

confirms :
    (from_email : Text) (n : ℕ) (db : Db) (message : EmailMessage) (found : Option Order)
    → find_order n db ≡ found
    → send_to from_email db found ≡ sent message
    → Confirms from_email n db message
unfolding is_eligible
confirms from_email n db message none h sends = absurd cc
confirms from_email n db message (some order) h sends =
    let (eligible, same) =
      branch_taken (is_eligible order db) (build_order_confirmation_email from_email order db)
        message sends in
    let (paid_now, has_price, by_payment, complete) : (is_paid_order order.status ≡ true)
        × (is_none order.price_paid ≡ false)
        × (has_paid_payment order db ≡ true)
        × (has_complete_fulfilment order db ≡ true) =
      ground (arith, eligible) in
    record {
      order = order;
      found = h;
      is_paid_now = paid_now;
      priced = has_price;
      paid_by = by_payment;
      keys = complete_lem order db complete;
      says = sym same;
    }

-- A confirmation mail is sent only for an order that is found, is paid and priced and has a paid
-- payment. Each key value in it is that of a sold key. Where the items of the order have assignments,
-- there is one for each unit of the items; else the order is a direct one, and there is one.
pub send_order_confirmation_email-Confirms :
    (from_email : Text) (n : ℕ) (db : Db) (message : EmailMessage)
    → send_order_confirmation_email from_email n db ≡ sent message
    → Confirms from_email n db message
unfolding send_order_confirmation_email
send_order_confirmation_email-Confirms from_email n db message sends =
    confirms from_email n db message (find_order n db) refl sends

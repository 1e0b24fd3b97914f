-- ===== src/OrdersApi/Keys.antt =====
-- The license keys that a user is shown: backend/apps/orders/serializers.py, `LicenseAssignmentSerializer`.
use ludora.Common.{
  Bool, true, false, ◌≡◌, refl, sym, ap, ◌∙◌, inl, inr, Bool-cases, Option, none, some, Text, ltb,
  arith, if◌then◌else◌,
}
use ludora.Json.{get}
use ludora.Store.{Db, LicenseKey, Order, LicenseAssignment, is_paid_order}
use ludora.Emails.{find_key}
use ludora.Bot.Outcome.{invalid_response, returned, raised}
use ludora.Bot.Schemas.Fields.{positive_int}
use ludora.Bot.Schemas.Purchases
use ludora.Bot.Schemas.Purchases.{read_license_assignment}
use ludora.OrdersApi.{license_assignment_json}
use ludora.OrdersApi.Details.{key_of, assignment_of, assignment_lem}

zero_refused :
    (order : Order) (db : Db) (a : LicenseAssignment)
    → ltb 0 a.id ≡ false
    → read_license_assignment (license_assignment_json order db a) ≡ raised invalid_response
unfolding read_license_assignment license_assignment_json positive_int get
zero_refused order db a h = rw h refl

-- What the bot reads of an assignment is the assignment's.
read_of :
    (order : Order) (db : Db) (a : LicenseAssignment) (shown : Purchases.LicenseAssignment)
    → read_license_assignment (license_assignment_json order db a) ≡ returned shown
    → assignment_of order db a ≡ shown
read_of order db a shown reads = elim (Bool-cases (ltb 0 a.id)) [
  | inl some_id ↦
      let same : returned (assignment_of order db a) ≡ returned shown =
        sym (assignment_lem order db a (ground (arith, some_id))) ∙ reads in
      cc
  | inr no_id ↦
      let clash : raised invalid_response ≡ returned shown =
        sym (zero_refused order db a no_id) ∙ reads in
      absurd cc
]

key_cases :
    (paid : Bool) (found : Option LicenseKey) (value : Text)
    → (if paid then key_of found else none) ≡ some value
    → (paid ≡ true) × ((key : LicenseKey) × (found ≡ some key) × (key.value ≡ value))
key_cases false found value h = absurd cc
key_cases true none value h = absurd cc
key_cases true (some key) value h = (refl, (key, refl, cc))

-- A license key that the bot reads of an assignment that the API shows is the key that is assigned,
-- and the order of the assignment is paid.
pub shown_key_is_paid :
    (order : Order) (db : Db) (a : LicenseAssignment) (shown : Purchases.LicenseAssignment)
    (value : Text)
    → read_license_assignment (license_assignment_json order db a) ≡ returned shown
    → shown.license_key ≡ some value
    → (is_paid_order order.status ≡ true)
      × ((key : LicenseKey) × (find_key a.license_key_id db ≡ some key) × (key.value ≡ value))
shown_key_is_paid order db a shown value reads shows =
    key_cases (is_paid_order order.status) (find_key a.license_key_id db) value (
      ap (λ (s : Purchases.LicenseAssignment). s.license_key) (read_of order db a shown reads)
      ∙ shows)

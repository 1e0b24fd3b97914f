-- ===== src/Tests/Shown.antt =====
-- The theorems on the orders API and the bot's readers, applied to the shop.
use ludora.Common.{true, ◌≡◌, refl, ◌⊎◌, ◌↔◌, [], ◌∷◌, none, some, codes, arith}
use ludora.Store.{Db, LicenseKey, LicenseAssignment, Payment, PaymentStatus, is_paid_order}
use ludora.Emails.{find_key}
use ludora.Bot.Outcome.{returned, raised, invalid_response}
use ludora.Bot.Schemas.Fields.{positive_int, optional_string}
use ludora.Bot.Schemas.Purchases
use ludora.Bot.Schemas.Purchases.{read_license_assignment, read_order_payment, read_order_detail}
use ludora.Json.{get}
use ludora.OrdersApi.{license_assignment_json, my_order_payment_json, my_order_detail_json}
use ludora.OrdersApi.Decoded.{payment_refused_iff}
use ludora.OrdersApi.Details.{detail_of, read_order_detail-json}
use ludora.OrdersApi.Keys.{shown_key_is_paid}
use ludora.OrdersApi.Unreadable.{unplaced_payment_hides_order}
use ludora.Tests.Shop.{payment, sold_order, sold_payment, sold_shop}
use ludora.Tests.Readers.{formats, stamps, agrees}

abbrev unplaced : Payment
unplaced = record payment { id = 6; status = PaymentStatus.failed; transaction_id = none }

abbrev retried_shop : Db
retried_shop = record sold_shop { payments = unplaced ∷ sold_payment ∷ [] }

read_order_detail-json_example :
    read_order_detail formats (my_order_detail_json stamps sold_shop sold_order)
    ≡ returned (detail_of stamps sold_shop sold_order (codes "LUD-1") 1999)
read_order_detail-json_example =
    read_order_detail-json formats stamps sold_order sold_shop (codes "LUD-1") 1999 agrees
      (omega arith) refl refl refl (((omega arith), refl, (omega arith), (omega arith, tt)), tt)
      (((omega arith), refl, refl), tt)

payment_refused_iff_example :
    (read_order_payment formats (my_order_payment_json stamps unplaced) ≡ raised invalid_response)
    ↔ ((unplaced.provider ≡ none) ⊎ (unplaced.transaction_id ≡ none))
payment_refused_iff_example = payment_refused_iff formats stamps agrees unplaced (omega arith)

unplaced_payment_hides_order_example :
    read_order_detail formats (my_order_detail_json stamps retried_shop sold_order)
    ≡ raised invalid_response
unplaced_payment_hides_order_example =
    unplaced_payment_hides_order formats stamps agrees sold_order retried_shop (codes "LUD-1") 1999
      (omega arith) refl refl refl (((omega arith), refl, (omega arith), (omega arith, tt)), tt)
      (omega arith, (omega arith, tt)) refl

abbrev assignment : LicenseAssignment
assignment = record { id = 2; order_item_id = 4; license_key_id = 5 }

abbrev shown : Purchases.LicenseAssignment
shown = record { id = 2; license_key = some (codes "AAAA-BBBB") }

shown_key :
    read_license_assignment (license_assignment_json sold_order sold_shop assignment)
    ≡ returned shown
unfolding read_license_assignment license_assignment_json positive_int optional_string get
shown_key = refl

shown_key_is_paid_example :
    (is_paid_order sold_order.status ≡ true)
    × ((key : LicenseKey) × (find_key 5 sold_shop ≡ some key) × (key.value ≡ codes "AAAA-BBBB"))
shown_key_is_paid_example =
    shown_key_is_paid sold_order sold_shop assignment shown (codes "AAAA-BBBB") shown_key refl

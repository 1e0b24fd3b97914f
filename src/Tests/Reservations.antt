-- ===== src/Tests/Reservations.antt =====
-- The theorems on reservations, applied to the shop.
use ludora.Common.{
  ℕ, Bool, false, ◌≡◌, refl, inr, List, [], ◌∷◌, none, some, arith, if◌then◌else◌, update_where,
  codes, ◌==◌,
}
use ludora.Store.{
  Db, items_of_order, ok, err, ◌>>=◌, KeyStatus, LicenseAssignment, Payment, PaymentStatus,
  order_payment_error, no_keys_available, update_keys, create_assignments,
}
use ludora.Completion.{paid_order, complete_payment}
use ludora.Completion.Success.{IsReady, settled, sold, complete_payment-IsReady}
use ludora.Inventory.{HasStock}
use ludora.Inventory.RoundTrip.{release-reserve}
use ludora.Orders.{
  locked_reservation_assignments, pick_keys, reserve_fresh, reserve_items, release_items,
  reservable_keys, terminate_payment,
}
use ludora.Orders.Picks.{picked, are_enough, pick_keys_lem}
use ludora.Orders.Ownership.{terminate_payment-IsStranger}
use ludora.Orders.{fail_payment, record_status}
use ludora.Payments.Providers.{LocalConfirmation, local_provider, pending}
use ludora.Payments.Prepare.{Prepared, abandon_attempt}
use ludora.Payments.PreparePay.{apply_confirmation}
use ludora.Store.{
  delete_order_item, get_order, get_payment, save_payment_status, update_payment,
  payment_still_pending,
}
use ludora.Tests.Shop.{sold_shop, sold_order, sold_payment, game_key, order, item, payment, shop}

-- The shop before the reservation.
abbrev open_shop : Db
open_shop = record shop {
  license_keys = game_key KeyStatus.available none ∷ [];
  license_assignments = [];
}

abbrev unlocked : ℕ → Bool
unlocked _ = false

abbrev first_row : LicenseAssignment
first_row = record { id = 3; order_item_id = 4; license_key_id = 5 }

abbrev reserved_shop : Db
reserved_shop = record shop { license_assignments = first_row ∷ []; next_assignment = 4 }

reserved_now : reserve_items unlocked (item ∷ []) open_shop ≡ ok (first_row ∷ [], reserved_shop)
unfolding reserve_items reserve_fresh locked_reservation_assignments pick_keys update_keys
    create_assignments ◌>>=◌
reserved_now = refl

open_shop-HasStock : HasStock false open_shop
open_shop-HasStock = record {
  numbered = tt;
  below = tt;
  exclusive = tt;
  free = (λ e. refl, tt);
  held = (λ s e. cc, tt);
}

release-reserve_example :
    (ids : List ℕ) × (release_items (item ∷ []) reserved_shop
      ≡ ok (ids, record open_shop { next_assignment = 4 }))
release-reserve_example =
    release-reserve unlocked (item ∷ []) open_shop reserved_shop (first_row ∷ []) open_shop-HasStock
      (refl, tt) (refl, tt) refl reserved_now

pick_keys_lem_example : pick_keys (reservable_keys unlocked open_shop) (item ∷ []) open_shop ≡ (
    if are_enough (reservable_keys unlocked open_shop) (item ∷ [])
    then ok (picked (reservable_keys unlocked open_shop) (item ∷ []), open_shop)
    else err (order_payment_error no_keys_available))
pick_keys_lem_example = pick_keys_lem (reservable_keys unlocked open_shop) (item ∷ []) open_shop

-- An earlier attempt, which does not own the reservation.
abbrev stale_payment : Payment
stale_payment = record payment { id = 6 }

terminate_payment-IsStranger_example :
    terminate_payment order stale_payment PaymentStatus.expired shop
    ≡ ok (
      record stale_payment { status = PaymentStatus.expired },
      record shop {
        payments =
            update_where
              (λ p. p.id == 6)
              (λ p. record p { status = PaymentStatus.expired })
              shop.payments;
      },
    )
terminate_payment-IsStranger_example =
    terminate_payment-IsStranger order stale_payment PaymentStatus.expired shop refl refl
      (inr (7, refl, λ e. omega (arith, e)))

shop-IsReady : IsReady shop order payment 1999 (some 5)
shop-IsReady = record {
  completable = record {
    unpaid = refl;
    open_payment = refl;
    priced = refl;
    matches = refl;
    authorized = inr refl;
  };
  small = refl;
  has_items = refl;
  is_reserved = refl;
  consistent = refl;
  delivers = inr (5, refl, refl, refl);
  exclusive = refl;
}

complete_payment-IsReady_example :
    complete_payment 100 7 shop
    ≡ ok (
      record { order = paid_order 1999 100 (some 5) order; already_completed = false },
      settled 100 order payment 1999 (some 5) (sold 100 (items_of_order 3 shop) shop),
    )
complete_payment-IsReady_example =
    complete_payment-IsReady 100 7 1999 (some 5) shop order payment refl refl shop-IsReady

-- An attempt that made the order's item, and whose payment another call has completed meanwhile.
abbrev overtaken : Prepared
overtaken = record {
  order = order;
  payment = payment;
  provider = local_provider LocalConfirmation.succeed;
  created_order_item_id = some 4;
}

-- The refusal then deletes the item of the paid order, and with it the assignment of the sold key.
overtaken_refusal :
    abandon_attempt overtaken sold_shop
    ≡ ok (tt, record sold_shop { order_items = []; license_assignments = [] })
unfolding abandon_attempt fail_payment terminate_payment delete_order_item get_order get_payment
    ◌>>=◌
overtaken_refusal = refl

-- The order of the attempt: its payment has failed meanwhile, and a later one has the reservation.
abbrev taken_over : Db
taken_over = record shop {
  orders = record order { reservation_payment_attempt_id = some 8 } ∷ [];
  payments =
      record payment { status = PaymentStatus.failed }
      ∷ record payment { id = 8; transaction_id = some (codes "cs_2") }
      ∷ [];
}

-- The refusal then deletes the item and the assignment, and the key stays reserved without one.
stranded_key :
    abandon_attempt overtaken taken_over
    ≡ ok (
      tt,
      record taken_over {
        order_items = [];
        license_assignments = [];
        payments =
            record payment { status = PaymentStatus.failed }
            ∷ record payment { id = 8; transaction_id = some (codes "cs_2") }
            ∷ [];
      },
    )
unfolding abandon_attempt fail_payment terminate_payment delete_order_item get_order get_payment
    save_payment_status update_payment record_status ◌>>=◌
stranded_key = refl

-- A confirmation that is still pending sets a payment back that was paid meanwhile.
overtaken_confirmation :
    apply_confirmation 200 overtaken pending sold_shop
    ≡ ok (
      (sold_order, some payment_still_pending),
      record sold_shop { payments = record sold_payment { status = PaymentStatus.pending } ∷ [] },
    )
unfolding apply_confirmation get_order get_payment save_payment_status update_payment ◌>>=◌
overtaken_confirmation = refl

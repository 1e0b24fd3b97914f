-- ===== src/Tests.antt =====
-- The theorems on payments and on histories, applied to the shop.
pub mod Shop
pub mod Reservations
pub mod Shopping
pub mod Readers
pub mod Calls
pub mod Shown
pub mod Logins
pub mod Presses
pub mod Baskets
pub mod Mails
use ludora.Common.{
  ℕ, Bool, true, false, ◌≡◌, refl, ◌⊎◌, inl, inr, List, [], ◌∷◌, ◌++◌, Option, none, some, ◌↔◌,
  Text, codes, print_decimal, parse_decimal, arith, find, update_where, ◌==◌,
}
use ludora.Store.{
  Db, ok, Product, LicenseKey, KeyStatus, Order, OrderStatus, OrderItem, LicenseAssignment, Payment,
  PaymentStatus, Source, find_order, find_payment, get_order, get_payment, get_product,
  update_order, update_payment, update_keys, create_order_item, create_assignments,
  delete_assignments, ◌>>=◌,
}
use ludora.Store.Hoare.{Post}
use ludora.Inventory.{HasStock}
use ludora.Inventory.Release.{released, release_items-released}
use ludora.Orders.{
  payable_total, legacy_order_item, get_or_create_order_items_for_fulfilment,
  locked_reservation_assignments, pick_keys, release_items, free_assignments,
}
use ludora.Completion.{
  CompletePaymentResult, sell_reserved, sell_fresh, fulfil_order, delivered_key, finish_payment,
  check_completable, complete_unpaid, complete_payment,
}
use ludora.Completion.Effect.{Repeats, Completes, complete_payment_effect}
use ludora.Completion.Twice.{complete_payment_twice}
use ludora.Payments.Webhooks.{
  EventType, CheckoutSession, WebhookResult, parse_reference, apply_event, apply_session,
  process_stripe_webhook,
}
use ludora.Payments.Webhooks.Events.{
  parse_reference_iff, process_twice, paid_is_final, IsPaidReference,
}
use ludora.System.{Call, webhook, run, Reach, start, next}
use ludora.System.Stock.{no_overselling}
use ludora.System.Lasting.{paid_order_is_final}
use ludora.Tests.Shop.{game_key, order, item, payment, shop, sold_order, sold_payment, sold_shop}

abbrev completed : CompletePaymentResult
completed = record { order = sold_order; already_completed = false }

completed-shop : complete_payment 100 7 shop ≡ ok (completed, sold_shop)
unfolding complete_payment complete_unpaid check_completable payable_total
    get_or_create_order_items_for_fulfilment fulfil_order locked_reservation_assignments
    sell_reserved delivered_key finish_payment get_payment get_order update_order update_payment
    update_keys ◌>>=◌
completed-shop = refl

complete_payment_effect_example :
    (p : Payment) × (o : Order) × (find_payment 7 shop ≡ some p)
    × (find_order p.order_id shop ≡ some o)
    × (Repeats shop o p completed sold_shop ⊎ Completes 100 shop o p completed sold_shop)
complete_payment_effect_example =
    complete_payment_effect 100 7 shop sold_shop completed completed-shop

complete_payment_twice_example :
    complete_payment 200 7 sold_shop
    ≡ ok (record { order = sold_order; already_completed = true }, sold_shop)
complete_payment_twice_example =
    complete_payment_twice 100 200 7 shop sold_shop completed completed-shop

abbrev event : WebhookResult
event = record {
  event_id = codes "evt_1";
  checkout_session = some (
    EventType.completed,
    record {
      id = codes "cs_1";
      local_payment_id = some (codes "7");
      payment_status = codes "paid";
    },
  );
}

abbrev failure : WebhookResult
failure = record {
  event_id = codes "evt_2";
  checkout_session = some (
    EventType.expired,
    record {
      id = codes "cs_1";
      local_payment_id = some (codes "7");
      payment_status = codes "unpaid";
    },
  );
}

abbrev notified_shop : Db
notified_shop = record sold_shop { webhook_events = codes "evt_1" ∷ [] }

processed_shop : process_stripe_webhook 100 event shop ≡ ok (tt, notified_shop)
unfolding process_stripe_webhook apply_session apply_event parse_reference print_decimal
    parse_decimal complete_payment complete_unpaid check_completable payable_total
    get_or_create_order_items_for_fulfilment fulfil_order locked_reservation_assignments
    sell_reserved delivered_key finish_payment get_payment get_order update_order update_payment
    update_keys ◌>>=◌
processed_shop = refl

process_twice_example : process_stripe_webhook 200 event notified_shop ≡ ok (tt, notified_shop)
process_twice_example = process_twice 100 200 event event shop notified_shop refl processed_shop

pub shop-HasStock : HasStock true shop
shop-HasStock = record {
  numbered = (refl, tt);
  below = (omega arith, tt);
  exclusive = (refl, tt);
  free = (λ e. cc, tt);
  held = (λ s e. refl, tt);
}

notified : Reach true shop notified_shop
unfolding run
notified = next start (webhook 100 event) (rw processed_shop refl)

no_overselling_example : HasStock true notified_shop
no_overselling_example = no_overselling true shop notified_shop shop-HasStock notified

abbrev final_shop : Db
final_shop = record notified_shop { webhook_events = codes "evt_1" ∷ codes "evt_2" ∷ [] }

reference_read : parse_reference (some (codes "7")) ≡ some 7
unfolding parse_reference print_decimal parse_decimal
reference_read = refl

paid_reference : IsPaidReference failure notified_shop
paid_reference = record {
  event_type = EventType.expired;
  session = record {
    id = codes "cs_1";
    local_payment_id = some (codes "7");
    payment_status = codes "unpaid";
  };
  payment_id = 7;
  payment = sold_payment;
  order = sold_order;
  supported = refl;
  reference = reference_read;
  payment_row = refl;
  order_row = refl;
  by_stripe = refl;
  session_of_payment = refl;
  payment_paid = refl;
  order_paid = refl;
}

paid_is_final_example : process_stripe_webhook 300 failure notified_shop ≡ ok (tt, final_shop)
paid_is_final_example = paid_is_final 300 failure notified_shop refl paid_reference

failed_later : Reach true notified_shop final_shop
unfolding run
failed_later =
    next start (webhook 300 failure)
      (rw (paid_is_final 300 failure notified_shop refl paid_reference) refl)

paid_order_is_final_example : find_order 3 final_shop ≡ some sold_order
paid_order_is_final_example =
    paid_order_is_final true 3 sold_order notified_shop final_shop refl refl failed_later

parse_reference_iff_example :
    (parse_reference (some (codes "7")) ≡ some 7) ↔ (codes "7" ≡ print_decimal 7)
parse_reference_iff_example = parse_reference_iff (codes "7") 7

release_items-released_example :
    Post (λ _ db'. db' ≡ released (item ∷ []) shop) (release_items (item ∷ []) shop)
release_items-released_example = release_items-released (item ∷ []) shop (refl, tt)

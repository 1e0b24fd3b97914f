-- ===== src/OrdersApi/Unreadable.antt =====
-- The detail of an order with a payment that was never made: backend/apps/orders/serializers.py with
-- bot/app/api/schemas.py, `OrderPayment`.
use ludora.Common.{
  ℕ, ◌<◌, Bool, true, false, ◌||◌, ◌≡◌, refl, inl, inr, Option-cases, List, [], ◌∷◌, map, none,
  some, Text, null, All, any, order_by, is_none, arith, ◌⊎◌,
}
use ludora.Json.{get}
use ludora.Store.{Db, Order, Payment}
use ludora.Emails.{all_items}
use ludora.Bot.Outcome.{invalid_response, raised}
use ludora.Bot.Schemas.Fields.{Formats, each, required_string, datetime, positive_int, decimal}
use ludora.Bot.Schemas.Purchases.{read_order_payment, read_order_detail}
use ludora.OrdersApi.{
  Stamps, my_order_item_json, my_order_payment_json, my_order_detail_json, payments_of,
}
use ludora.OrdersApi.Decoded.{Agrees, elements-array_of, positive, payment_lem, payment_refused}
use ludora.OrdersApi.Details.{IsItem, not_null, order_status-as_required, items_read}

-- A payment that no provider took on.
abbrev pub is_unplaced : Payment → Bool
is_unplaced p = is_none p.provider || is_none p.transaction_id

placed_or_not :
    (p : Payment)
    → ((p.provider ≡ none) ⊎ (p.transaction_id ≡ none))
      ⊎ ((provider : Text) × ((transaction_id : Text) × (p.provider ≡ some provider)
            × (p.transaction_id ≡ some transaction_id)
            × (is_unplaced p ≡ false)))
placed_or_not p = elim (Option-cases p.provider) [
  | inl missing ↦ inl (inl missing)
  | inr (provider, found) ↦ elim (Option-cases p.transaction_id) [
    | inl missing ↦ inl (inr missing)
    | inr (transaction_id, known) ↦
        inr (provider, (transaction_id, found, known, rw (found, known) refl))
  ]
]

module _ (formats : Formats) (stamps : Stamps) (agrees : Agrees formats stamps) where
  payments_refused :
      (payments : List Payment)
      → All (λ p. 0 < p.id) payments
      → any is_unplaced payments ≡ true
      → each (read_order_payment formats) (map (my_order_payment_json stamps) payments)
        ≡ raised invalid_response
  payments_refused [] h unplaced = cc
  payments_refused (p ∷ ps) h unplaced = elim (placed_or_not p) [
    | inl missing ↦ rw (payment_refused formats stamps agrees p h.0 missing) refl
    | inr (provider, (transaction_id, found, known, placed)) ↦
        rw
          (
            payment_lem formats stamps agrees p provider transaction_id h.0 found known,
            payments_refused ps h.1 (ground (arith, unplaced, placed)),
          )
          refl
  ]

  -- One payment of an order without a provider or a transaction id makes the whole detail of the
  -- order unreadable: the bot raises `InvalidResponse` for it, the license keys of a paid order
  -- included.
  pub unplaced_payment_hides_order :
      (order : Order) (db : Db) (order_number : Text) (total : ℕ)
      → 0 < order.id
      → order.order_number ≡ some order_number
      → null order_number ≡ false
      → order.total_price ≡ some total
      → All (IsItem db) (order_by (λ i. i.id) (all_items order db))
      → All (λ p. 0 < p.id) (payments_of stamps order db)
      → any is_unplaced (payments_of stamps order db) ≡ true
      → read_order_detail formats (my_order_detail_json stamps db order) ≡ raised invalid_response
  unfolding read_order_detail my_order_detail_json positive_int required_string decimal datetime get
  unplaced_payment_hides_order order db order_number total id number filled priced items payments
        unplaced =
      rw
        (
          elements-array_of
              (map (my_order_item_json order db) (order_by (λ i. i.id) (all_items order db))),
          elements-array_of (map (my_order_payment_json stamps) (payments_of stamps order db)),
          positive order.id id,
          number,
          not_null order_number filled,
          order_status-as_required order.status,
          priced,
          agrees.prices total,
          agrees.instants (stamps.order_created_at order.id),
          items_read formats stamps order db agrees items,
          payments_refused (payments_of stamps order db) payments unplaced,
        )
        refl

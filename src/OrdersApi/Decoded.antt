-- ===== src/OrdersApi/Decoded.antt =====
-- What the bot reads of an order that the orders API shows: backend/apps/orders/serializers.py with
-- bot/app/api/schemas.py.
use ludora.Common.{
  sym, Option-cases, inl, inr, ◌⊎◌, ℕ, ◌<◌, true, false, ◌≡◌, refl, ap, ◌∙◌, List, [], ◌∷◌, map,
  Option, none, some, Text, All, arith, ◌↔◌,
}
use ludora.Json.{text, integer, get, Json, array_of, elements}
use ludora.Store.{Payment, PaymentStatus}
use ludora.Emails.{print_price}
use ludora.Bot.Outcome.{invalid_response, Outcome, returned, raised}
use ludora.Bot.Schemas.Fields.{
  as_required, as_positive, Formats, Decimal, finite, Datetime, replace_z, each, required_string,
  string, datetime, optional_datetime, positive_int, decimal,
}
use ludora.Bot.Schemas.Purchases
use ludora.Bot.Schemas.Purchases.{
  read_order_item, read_license_assignment, read_order_detail_item, read_order_payment,
  read_order_detail,
}
use ludora.OrdersApi.{Stamps, payment_status, my_order_payment_json}

-- The bot's readers read what the framework writes: a price in cents with two places, and an instant
-- with its time zone.
pub record Agrees (formats : Formats) (stamps : Stamps) : Type 0 where
  pub prices :
      (cents : ℕ) → formats.decimal (print_price (some cents)) ≡ some (finite false cents 2 0)
  pub instants :
      (t : ℕ)
      → formats.fromisoformat (replace_z (stamps.print t))
        ≡ some (record { instant = t; has_tzinfo = true })

abbrev pub price : ℕ → Decimal
price cents = finite false cents 2 0

abbrev pub instant_of : ℕ → Datetime
instant_of t = record { instant = t; has_tzinfo = true }

pub elements-array_of : (values : List Json) → elements (array_of values) ≡ values
elements-array_of [] = refl
elements-array_of (v ∷ vs) = ap (λ (l : List Json). v ∷ l) (elements-array_of vs)

pub each-map :
    {A B : Type 0} (read : Json → Outcome B) (write : A → Json) (value : A → B) (xs : List A)
    → All (λ x. read (write x) ≡ returned (value x)) xs
    → each read (map write xs) ≡ returned (map value xs)
each-map read write value [] h = refl
each-map read write value (x ∷ xs) h = rw (h.0, each-map read write value xs h.1) refl

payment_status-as_required :
    (status : PaymentStatus)
    → as_required (some (text (payment_status status))) ≡ some (payment_status status)
payment_status-as_required PaymentStatus.created = refl
payment_status-as_required PaymentStatus.pending = refl
payment_status-as_required PaymentStatus.paid = refl
payment_status-as_required PaymentStatus.failed = refl
payment_status-as_required PaymentStatus.cancelled = refl
payment_status-as_required PaymentStatus.expired = refl

abbrev paid_instant : Option ℕ → Option Datetime
paid_instant none = none
paid_instant (some t) = some (instant_of t)

-- A payment as the bot reads it, with its provider and its transaction id.
abbrev pub payment_of : Stamps → Payment → Text → Text → Purchases.OrderPayment
payment_of stamps p provider transaction_id = record {
  id = p.id;
  status = payment_status p.status;
  provider = provider;
  transaction_id = transaction_id;
  amount = price p.amount;
  created_at = instant_of (stamps.payment_created_at p.id);
  paid_at = paid_instant p.paid_at;
}

pub positive : (n : ℕ) → 0 < n → as_positive (some (integer n)) ≡ some n
positive n h = ground (arith, h)

module _ (formats : Formats) (stamps : Stamps) (agrees : Agrees formats stamps) where
  pub payment_lem :
      (p : Payment) (provider transaction_id : Text)
      → 0 < p.id
      → p.provider ≡ some provider
      → p.transaction_id ≡ some transaction_id
      → read_order_payment formats (my_order_payment_json stamps p)
        ≡ returned (payment_of stamps p provider transaction_id)
  unfolding read_order_payment my_order_payment_json string datetime decimal positive_int get
      required_string optional_datetime
  payment_lem p provider transaction_id h hp ht =
      rw
        (
          positive p.id h,
          payment_status-as_required p.status,
          hp,
          ht,
          agrees.prices p.amount,
          agrees.instants (stamps.payment_created_at p.id),
        )
        (elim (Option-cases p.paid_at) [
          | inl unpaid ↦ rw unpaid refl
          | inr (t, paid) ↦ rw (paid, agrees.instants t) refl
        ])

  pub payment_refused :
      (p : Payment)
      → 0 < p.id
      → (p.provider ≡ none) ⊎ (p.transaction_id ≡ none)
      → read_order_payment formats (my_order_payment_json stamps p) ≡ raised invalid_response
  unfolding read_order_payment my_order_payment_json string positive_int get required_string
  payment_refused p h (inl missing) =
      rw (positive p.id h, payment_status-as_required p.status, missing) refl
  payment_refused p h (inr missing) = elim (Option-cases p.provider) [
    | inl unknown ↦ rw (positive p.id h, payment_status-as_required p.status, unknown) refl
    | inr (provider, found) ↦
        rw (positive p.id h, payment_status-as_required p.status, found, missing) refl
  ]

  -- The bot refuses a payment that the API shows, with `InvalidResponse`, exactly where the payment
  -- has no provider or no transaction id.
  pub payment_refused_iff :
      (p : Payment)
      → 0 < p.id
      → (read_order_payment formats (my_order_payment_json stamps p) ≡ raised invalid_response)
        ↔ ((p.provider ≡ none) ⊎ (p.transaction_id ≡ none))
  payment_refused_iff p h = (refuses, payment_refused p h)
    where
      refuses :
          read_order_payment formats (my_order_payment_json stamps p) ≡ raised invalid_response
          → (p.provider ≡ none) ⊎ (p.transaction_id ≡ none)
      refuses refused = elim (Option-cases p.provider) [
        | inl missing ↦ inl missing
        | inr (provider, found) ↦ elim (Option-cases p.transaction_id) [
          | inl missing ↦ inr missing
          | inr (transaction_id, known) ↦ absurd (
              let clash : returned (payment_of stamps p provider transaction_id)
                  ≡ raised invalid_response =
                sym (payment_lem p provider transaction_id h found known) ∙ refused in
              cc)
        ]
      ]

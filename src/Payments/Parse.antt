-- ===== src/Payments/Parse.antt =====
-- backend/apps/payments/webhooks.py, `parse_stripe_webhook`. The decoded payload of a delivery whose
-- signature holds is a parameter: `construct_event` is nothing where `stripe.Webhook.construct_event`
-- raises one of the three exceptions that are caught.
pub mod Session
pub mod Accepted
use ludora.Common.{
  ℕ, Bool, true, false, not, ◌||◌, List, [], ◌∷◌, Option, none, some, Text, codes, ◌=ᵗ◌, null,
  if◌then◌else◌,
}
use ludora.Store.{
  Error, Result, ok, err, attribute_error, invalid_stripe_webhook, invalid_signature,
  invalid_event_id, invalid_event_type, no_checkout_session, not_a_checkout_session,
  invalid_session_id, invalid_payment_status, invalid_metadata, invalid_payment_reference,
}
use ludora.Json.{Json, empty, text, object, Members, nil, get}
use ludora.Payments.Webhooks.{EventType, CheckoutSession, WebhookResult}

-- A value that is a mapping.
abbrev pub mapping : Option Json → Option Members
mapping (some (object members)) = some members
mapping _ = none

-- A value that is a text.
abbrev pub as_text : Option Json → Option Text
as_text (some (text t)) = some t
as_text _ = none

-- A value that is a text and not empty.
abbrev pub as_name : Option Json → Option Text
as_name (some (text [])) = none
as_name (some (text (c ∷ cs))) = some (c ∷ cs)
as_name _ = none

-- `mapping.get(name, {})`
abbrev pub get_or_empty : Text → Members → Json
get_or_empty name members = elim (get name members) [ none ↦ object nil | some value ↦ value ]

-- `StripeCheckoutEventType(event_type)`
unfoldable pub supported_type : Text → Option EventType
supported_type t =
    if t =ᵗ codes "checkout.session.completed"
    then some EventType.completed
    else if t =ᵗ codes "checkout.session.async_payment_succeeded"
    then some EventType.async_payment_succeeded
    else if t =ᵗ codes "checkout.session.async_payment_failed"
    then some EventType.async_payment_failed
    else if t =ᵗ codes "checkout.session.expired"
    then some EventType.expired
    else none

infixl 5 ◌>>=◌
abbrev pub ◌>>=◌ : {A B : Type 0} → Result A → (A → Result B) → Result B
ok a >>= f = f a
err e >>= f = err e

abbrev pub required : {A : Type 0} → Option A → Error → Result A
required none e = err e
required (some a) e = ok a

abbrev pub is_object_type : Option Json → Bool
is_object_type value = elim (as_text value) [
  | none ↦ false
  | some t ↦ t =ᵗ codes "checkout.session"
]

-- `local_payment_id`: absent, JSON's null, or a text that is not empty.
abbrev pub reference : Option Json → Result (Option Text)
reference none = ok none
reference (some empty) = ok none
reference (some (text [])) = err (invalid_stripe_webhook invalid_payment_reference)
reference (some (text (c ∷ cs))) = ok (some (c ∷ cs))
reference (some _) = err (invalid_stripe_webhook invalid_payment_reference)

unfoldable pub parse_session : Members → Result CheckoutSession
parse_session session =
    if not (is_object_type (get (codes "object") session))
    then err (invalid_stripe_webhook not_a_checkout_session)
    else do
      id ← required (as_name (get (codes "id") session)) (invalid_stripe_webhook invalid_session_id)
      payment_status ←
          required (as_text (get (codes "payment_status") session))
            (invalid_stripe_webhook invalid_payment_status)
      metadata ←
          required (mapping (some (get_or_empty (codes "metadata") session)))
            (invalid_stripe_webhook invalid_metadata)
      local_payment_id ← reference (get (codes "local_payment_id") metadata)
      ok (record { id = id; local_payment_id = local_payment_id; payment_status = payment_status })

-- The members under `data.object`.
unfoldable pub session_object : Members → Result Members
session_object event = do
  body ← required (mapping (some (get_or_empty (codes "data") event))) attribute_error
  required (mapping (get (codes "object") body)) (invalid_stripe_webhook no_checkout_session)

abbrev pub parse_supported : Text → Option EventType → Members → Result WebhookResult
parse_supported id none event = ok (record { event_id = id; checkout_session = none })
parse_supported id (some event_type) event = do
  session ← session_object event
  parsed ← parse_session session
  ok (record { event_id = id; checkout_session = some (event_type, parsed) })

-- The event behind its signature.
unfoldable pub parse_event : Members → Result WebhookResult
parse_event event = do
  id ← required (as_name (get (codes "id") event)) (invalid_stripe_webhook invalid_event_id)
  event_type ←
      required (as_name (get (codes "type") event)) (invalid_stripe_webhook invalid_event_type)
  parse_supported id (supported_type event_type) event

unfoldable pub parse_stripe_webhook :
    {Payload : Type 0}
    → (Payload → Text → Text → Option Json)
    → Payload
    → Text
    → Text
    → Result WebhookResult
parse_stripe_webhook construct_event payload signature secret = do
  event ←
      required (construct_event payload signature secret) (invalid_stripe_webhook invalid_signature)
  members ← required (mapping (some event)) attribute_error
  parse_event members

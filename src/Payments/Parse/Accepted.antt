-- ===== src/Payments/Parse/Accepted.antt =====
-- The payloads that `parse_stripe_webhook` of backend/apps/payments/webhooks.py takes for an event about a
-- Checkout Session.
use ludora.Common.{
  false, ◌≡◌, refl, ap, ◌∙◌, ◌↔◌, Option, none, some, Text, codes, null, =ᵗ→≡, arith,
}
use ludora.Store.{
  Result, ok, attribute_error, invalid_stripe_webhook, invalid_event_id, invalid_event_type,
  no_checkout_session,
}
use ludora.Payments.Webhooks.{
  EventType, completed, async_payment_succeeded, async_payment_failed, expired, CheckoutSession,
  WebhookResult,
}
use ludora.Json.{text, object, Members, get}
use ludora.Payments.Parse.{
  ◌>>=◌, required, mapping, as_name, get_or_empty, supported_type, parse_session, session_object,
  parse_supported, parse_event,
}
use ludora.Payments.Parse.Session.{
  IsMember, IsSession, bind-eq-ok, required-eq-ok, as_name-eq-some, mapping-eq-some,
  get_or_empty-IsMember, parse_session-IsSession, as_name-filled, mapping-get_or_empty,
  parse_session-read,
}

-- The name of an event type.
abbrev pub event_name : EventType → Text
event_name completed = codes "checkout.session.completed"
event_name async_payment_succeeded = codes "checkout.session.async_payment_succeeded"
event_name async_payment_failed = codes "checkout.session.async_payment_failed"
event_name expired = codes "checkout.session.expired"

-- An event of a supported type, with an id, about a session.
pub record IsSessionEvent (event : Members) (id : Text) (event_type : EventType)
    (session : CheckoutSession) : Type 0 where
  pub event_id : get (codes "id") event ≡ some (text id)
  pub id_filled : null id ≡ false
  pub named : get (codes "type") event ≡ some (text (event_name event_type))
  pub body : Members
  pub body_there : IsMember (codes "data") event body
  pub members : Members
  pub object_there : get (codes "object") body ≡ some (object members)
  pub is_session : IsSession members session

supported-event_name : (t : EventType) → supported_type (event_name t) ≡ some t
unfolding supported_type
supported-event_name completed = refl
supported-event_name async_payment_succeeded = refl
supported-event_name async_payment_failed = refl
supported-event_name expired = refl

supported_type-eq-some :
    (name : Text) (t : EventType) → supported_type name ≡ some t → name ≡ event_name t
unfolding supported_type
supported_type-eq-some name completed h =
    =ᵗ→≡ name (codes "checkout.session.completed") (ground (arith, h))
supported_type-eq-some name async_payment_succeeded h =
    =ᵗ→≡ name (codes "checkout.session.async_payment_succeeded") (ground (arith, h))
supported_type-eq-some name async_payment_failed h =
    =ᵗ→≡ name (codes "checkout.session.async_payment_failed") (ground (arith, h))
supported_type-eq-some name expired h =
    =ᵗ→≡ name (codes "checkout.session.expired") (ground (arith, h))

abbrev read_supported : Members → Text → Text → Result WebhookResult
read_supported event id name = parse_supported id (supported_type name) event

abbrev read_type : Members → Text → Result WebhookResult
read_type event id =
    required (as_name (get (codes "type") event)) (invalid_stripe_webhook invalid_event_type)
    >>= read_supported event id

-- The result for an event about a session.
abbrev pub about : Text → EventType → CheckoutSession → WebhookResult
about id event_type session = record {
  event_id = id;
  checkout_session = some (event_type, session);
}

abbrev with_session : Text → EventType → CheckoutSession → Result WebhookResult
with_session id event_type session = ok (about id event_type session)

abbrev with_members : Text → EventType → Members → Result WebhookResult
with_members id event_type members = parse_session members >>= with_session id event_type

same_result :
    (i id : Text) (x t : EventType) (y s : CheckoutSession)
    → with_session i x y ≡ ok (about id t s)
    → (i ≡ id) × (x ≡ t) × (y ≡ s)
same_result i id x t y s h =
    let same : about i x y ≡ about id t s = cc in
    let sessions : some (x, y) ≡ some (t, s) =
      ap (λ (r : WebhookResult). r.checkout_session) same in
    let pairs : (x, y) ≡ (t, s) = cc in
    (
      ap (λ (r : WebhookResult). r.event_id) same,
      ap (λ (q : EventType × CheckoutSession). q.0) pairs,
      ap (λ (q : EventType × CheckoutSession). q.1) pairs,
    )

supported-eq-ok :
    (i id : Text) (o : Option EventType) (event : Members) (t : EventType) (s : CheckoutSession)
    → parse_supported i o event ≡ ok (about id t s)
    → (i ≡ id)
      × (o ≡ some t)
      × ((members : Members) × (session_object event ≡ ok members) × (parse_session members ≡ ok s))
supported-eq-ok i id none event t s h = absurd (
    let read : record { event_id = i; checkout_session = none } ≡ about id t s = cc in
    let clash : none ≡ some (t, s) = ap (λ (r : WebhookResult). r.checkout_session) read in cc)
supported-eq-ok i id (some x) event t s h =
    let (members, object_read, h1) =
      bind-eq-ok (session_object event) (with_members i x) (about id t s) h in
    let (y, session_read, h2) =
      bind-eq-ok (parse_session members) (with_session i x) (about id t s) h1 in
    let (same_id, same_type, same) = same_result i id x t y s h2 in
    (
      same_id,
      ap (λ (e : EventType). some e) same_type,
      (members, object_read, session_read ∙ ap (λ (c : CheckoutSession). ok c) same),
    )

abbrev read_object : Members → Result Members
read_object body =
    required (mapping (get (codes "object") body)) (invalid_stripe_webhook no_checkout_session)

session_object-eq-ok :
    (event members : Members)
    → session_object event ≡ ok members
    → (body : Members) × IsMember (codes "data") event body
      × (get (codes "object") body ≡ some (object members))
unfolding session_object
session_object-eq-ok event members h =
    let (body, body_read, h1) =
      bind-eq-ok (required (mapping (some (get_or_empty (codes "data") event))) attribute_error)
        read_object members h in
    (
      body,
      get_or_empty-IsMember _ event body (required-eq-ok _ _ body body_read),
      mapping-eq-some _ members (required-eq-ok _ _ members h1),
    )

parse_event-IsSessionEvent :
    (event : Members) (id : Text) (t : EventType) (s : CheckoutSession)
    → parse_event event ≡ ok (about id t s)
    → IsSessionEvent event id t s
unfolding parse_event
parse_event-IsSessionEvent event id t s h =
    let (i, id_read, h1) =
      bind-eq-ok
        (required (as_name (get (codes "id") event)) (invalid_stripe_webhook invalid_event_id))
        (read_type event) (about id t s) h in
    let (name, name_read, h2) =
      bind-eq-ok
        (required (as_name (get (codes "type") event)) (invalid_stripe_webhook invalid_event_type))
        (read_supported event i) (about id t s) h1 in
    let (same_id, supported, (members, object_read, session_read)) =
      supported-eq-ok i id (supported_type name) event t s h2 in
    let (id_there, filled) = as_name-eq-some _ i (required-eq-ok _ _ i id_read) in
    let (name_there, _) = as_name-eq-some _ name (required-eq-ok _ _ name name_read) in
    let same_name : name ≡ event_name t = supported_type-eq-some name t supported in
    let (body, body_there, object_there) = session_object-eq-ok event members object_read in
    record {
      event_id = rw same_id at id_there;
      id_filled = rw same_id at filled;
      named = rw same_name at name_there;
      body = body;
      body_there = body_there;
      members = members;
      object_there = object_there;
      is_session = parse_session-IsSession members s session_read;
    }

event_name-filled : (t : EventType) → null (event_name t) ≡ false
event_name-filled completed = refl
event_name-filled async_payment_succeeded = refl
event_name-filled async_payment_failed = refl
event_name-filled expired = refl

parse_event-read :
    (event : Members) (id : Text) (t : EventType) (s : CheckoutSession)
    → IsSessionEvent event id t s
    → parse_event event ≡ ok (about id t s)
unfolding parse_event session_object
parse_event-read event id t s is =
    rw
      (
        is.event_id,
        as_name-filled id is.id_filled,
        is.named,
        as_name-filled (event_name t) (event_name-filled t),
        supported-event_name t,
        mapping-get_or_empty (codes "data") event is.body is.body_there,
        is.object_there,
        parse_session-read is.members s is.is_session,
      )
      refl

-- A payload is taken for an event of a supported type about a session exactly if it has the id, which
-- is not empty, the name of the type, and under `data` an object that is a Checkout Session with the
-- id, which is not empty, the payment status, and metadata, which may be absent, with the payment
-- reference, which is absent, null or not empty.
pub parse_event_iff :
    (event : Members) (id : Text) (event_type : EventType) (session : CheckoutSession)
    → (parse_event event ≡ ok (about id event_type session))
      ↔ IsSessionEvent event id event_type session
parse_event_iff event id event_type session = (
  parse_event-IsSessionEvent event id event_type session,
  parse_event-read event id event_type session,
)

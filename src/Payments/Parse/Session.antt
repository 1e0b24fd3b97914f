-- ===== src/Payments/Parse/Session.antt =====
-- The objects that backend/apps/payments/webhooks.py takes for a Checkout Session.
use ludora.Common.{
  Bool, true, false, not, ◌≡◌, refl, subst, sym, ap, ◌∙◌, ◌⊎◌, inl, inr, [], ◌∷◌, Option, none,
  some, Text, codes, null, =ᵗ→≡, Bool-cases,
}
use ludora.Store.{
  Error, Result, ok, err, invalid_stripe_webhook, invalid_session_id, invalid_payment_status,
  invalid_metadata,
}
use ludora.Payments.Webhooks.{CheckoutSession}
use ludora.Json.{Json, empty, text, object, Members, nil, get}
use ludora.Payments.Parse.{
  ◌>>=◌, required, mapping, as_text, as_name, get_or_empty, is_object_type, reference,
  parse_session,
}

-- A member that is an object, or is absent and then taken for an empty one.
abbrev pub IsMember : Text → Members → Members → Type 0
IsMember name members value =
    (get name members ≡ some (object value)) ⊎ ((get name members ≡ none) × (value ≡ nil))

-- A reference: absent or null, or a text that is not empty.
abbrev pub IsReference : Option Json → Option Text → Type 0
IsReference value read =
    ((read ≡ none) × ((value ≡ none) ⊎ (value ≡ some empty)))
    ⊎ ((t : Text) × (value ≡ some (text t)) × (null t ≡ false) × (read ≡ some t))

-- An object that is a Checkout Session.
pub record IsSession (members : Members) (session : CheckoutSession) : Type 0 where
  pub of_type : get (codes "object") members ≡ some (text (codes "checkout.session"))
  pub id : get (codes "id") members ≡ some (text session.id)
  pub id_filled : null session.id ≡ false
  pub status : get (codes "payment_status") members ≡ some (text session.payment_status)
  pub metadata : Members
  pub metadata_there : IsMember (codes "metadata") members metadata
  pub referred : IsReference (get (codes "local_payment_id") metadata) session.local_payment_id

module _ {A B : Type 0} where
  pub bind-eq-ok :
      (r : Result A) (f : A → Result B) (b : B)
      → (r >>= f) ≡ ok b
      → (a : A) × (r ≡ ok a) × (f a ≡ ok b)
  bind-eq-ok (ok a) f b h = (a, refl, h)
  bind-eq-ok (err e) f b h = absurd cc

pub required-eq-ok :
    {A : Type 0} (o : Option A) (e : Error) (a : A) → required o e ≡ ok a → o ≡ some a
required-eq-ok none e a h = absurd cc
required-eq-ok (some x) e a h = cc

pub as_name-eq-some :
    (o : Option Json) (t : Text) → as_name o ≡ some t → (o ≡ some (text t)) × (null t ≡ false)
as_name-eq-some (some (text (c ∷ cs))) [] h = absurd cc
as_name-eq-some (some (text (c ∷ cs))) (d ∷ ds) h = (cc, refl)
as_name-eq-some _ t h = absurd cc

as_text-eq-some : (o : Option Json) (t : Text) → as_text o ≡ some t → o ≡ some (text t)
as_text-eq-some (some (text x)) t h = cc
as_text-eq-some _ t h = absurd cc

pub mapping-eq-some : (o : Option Json) (m : Members) → mapping o ≡ some m → o ≡ some (object m)
mapping-eq-some (some (object x)) m h = cc
mapping-eq-some _ m h = absurd cc

pub get_or_empty-IsMember :
    (name : Text) (members value : Members)
    → mapping (some (get_or_empty name members)) ≡ some value
    → IsMember name members value
get_or_empty-IsMember name members value = go (get name members)
  where
    go :
        (o : Option Json)
        → mapping (some (elim o [ none ↦ object nil | some j ↦ j ])) ≡ some value
        → (o ≡ some (object value)) ⊎ ((o ≡ none) × (value ≡ nil))
    go none h = inr (refl, cc)
    go (some (object x)) h = inl cc
    go (some _) h = absurd cc

reference-IsReference : (o : Option Json) (r : Option Text) → reference o ≡ ok r → IsReference o r
reference-IsReference none r h = inl (cc, inl refl)
reference-IsReference (some empty) r h = inl (cc, inr refl)
reference-IsReference (some (text (c ∷ cs))) r h = inr (c ∷ cs, refl, refl, cc)
reference-IsReference _ r h = absurd cc

not-false : (b : Bool) → not b ≡ false → b ≡ true
not-false true h = refl
not-false false h = absurd cc

object_type-IsObject :
    (o : Option Json) → not (is_object_type o) ≡ false → o ≡ some (text (codes "checkout.session"))
object_type-IsObject (some (text x)) h =
    ap (λ (t : Text). some (text t)) (=ᵗ→≡ x (codes "checkout.session") (not-false _ h))
object_type-IsObject _ h = absurd cc

-- What `parse_session` does once it has the id, the status, the metadata and the reference.
abbrev read_reference : Text → Text → Option Text → Result CheckoutSession
read_reference id status referred =
    ok (record { id = id; local_payment_id = referred; payment_status = status })

abbrev read_metadata : Text → Text → Members → Result CheckoutSession
read_metadata id status metadata =
    reference (get (codes "local_payment_id") metadata) >>= read_reference id status

abbrev read_status : Members → Text → Text → Result CheckoutSession
read_status members id status =
    required (mapping (some (get_or_empty (codes "metadata") members)))
      (invalid_stripe_webhook invalid_metadata)
    >>= read_metadata id status

abbrev read_id : Members → Text → Result CheckoutSession
read_id members id =
    required (as_text (get (codes "payment_status") members))
      (invalid_stripe_webhook invalid_payment_status)
    >>= read_status members id

same_session :
    (id status : Text) (referred : Option Text) (session : CheckoutSession)
    → read_reference id status referred ≡ ok session
    → (id ≡ session.id) × (status ≡ session.payment_status) × (referred ≡ session.local_payment_id)
same_session id status referred session h =
    let built : CheckoutSession = record {
      id = id;
      local_payment_id = referred;
      payment_status = status;
    } in
    let same : built ≡ session = cc in
    (
      ap (λ (s : CheckoutSession). s.id) same,
      ap (λ (s : CheckoutSession). s.payment_status) same,
      ap (λ (s : CheckoutSession). s.local_payment_id) same,
    )

pub parse_session-IsSession :
    (members : Members) (session : CheckoutSession)
    → parse_session members ≡ ok session
    → IsSession members session
unfolding parse_session
parse_session-IsSession members session h =
    elim (Bool-cases (not (is_object_type (get (codes "object") members)))) [
      | inl other ↦ absurd (let refused = rw other at h in cc)
      | inr is ↦
          let (id, id_read, h1) =
            bind-eq-ok
              (required (as_name (get (codes "id") members))
                (invalid_stripe_webhook invalid_session_id))
              (read_id members) session (rw is at h) in
          let (status, status_read, h2) =
            bind-eq-ok
              (required (as_text (get (codes "payment_status") members))
                (invalid_stripe_webhook invalid_payment_status))
              (read_status members id) session h1 in
          let (metadata, metadata_read, h3) =
            bind-eq-ok
              (required (mapping (some (get_or_empty (codes "metadata") members)))
                (invalid_stripe_webhook invalid_metadata))
              (read_metadata id status) session h2 in
          let (referred, referred_read, h4) =
            bind-eq-ok (reference (get (codes "local_payment_id") metadata))
              (read_reference id status) session h3 in
          let (same_id, same_status, same_reference) = same_session id status referred session h4 in
          let (id_there, filled) = as_name-eq-some _ id (required-eq-ok _ _ id id_read) in
          record {
            of_type = object_type-IsObject _ is;
            id = rw same_id at id_there;
            id_filled = rw same_id at filled;
            status =
                rw same_status at
                  (as_text-eq-some _ status (required-eq-ok _ _ status status_read));
            metadata = metadata;
            metadata_there =
                get_or_empty-IsMember _ members metadata
                  (required-eq-ok _ _ metadata metadata_read);
            referred =
                subst (IsReference (get (codes "local_payment_id") metadata)) same_reference
                  (reference-IsReference _ referred referred_read);
          }
    ]

pub as_name-filled : (t : Text) → null t ≡ false → as_name (some (text t)) ≡ some t
as_name-filled [] h = absurd cc
as_name-filled (c ∷ cs) h = refl

pub mapping-get_or_empty :
    (name : Text) (members value : Members)
    → IsMember name members value
    → mapping (some (get_or_empty name members)) ≡ some value
mapping-get_or_empty name members value (inl there) =
    ap (λ (o : Option Json). mapping (some (elim o [ none ↦ object nil | some j ↦ j ]))) there
mapping-get_or_empty name members value (inr (absent, same)) =
    ap (λ (o : Option Json). mapping (some (elim o [ none ↦ object nil | some j ↦ j ]))) absent
    ∙ ap (λ (m : Members). some m) (sym same)

reference-read : (o : Option Json) (r : Option Text) → IsReference o r → reference o ≡ ok r
reference-read o r (inl (same, inl absent)) = rw (same, absent) refl
reference-read o r (inl (same, inr missing)) = rw (same, missing) refl
reference-read o r (inr ([], there, filled, same)) = absurd cc
reference-read o r (inr (c ∷ cs, there, filled, same)) = rw (there, same) refl

pub parse_session-read :
    (members : Members) (session : CheckoutSession)
    → IsSession members session
    → parse_session members ≡ ok session
unfolding parse_session
parse_session-read members session is =
    rw
      (
        is.of_type,
        is.id,
        as_name-filled session.id is.id_filled,
        is.status,
        mapping-get_or_empty (codes "metadata") members is.metadata is.metadata_there,
        reference-read (get (codes "local_payment_id") is.metadata) session.local_payment_id
            is.referred,
      )
      refl

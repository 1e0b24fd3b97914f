-- ===== src/Payments/Providers.antt =====
-- backend/apps/payments/providers.py. The local provider is translated whole. Of the Stripe provider
-- the HTTP client is a parameter, a function from a request to the session that it creates, or
-- nothing for a `StripeError`. A price is a whole number of cents, so it is not negative and its
-- minor units are integral.
use ludora.Common.{
  ℕ, ◌+◌, [], ◌∷◌, ◌++◌, Option, none, some, Bool, true, false, not, ◌&&◌, ◌||◌, ◌==◌, leb, filter,
  map, null, take, Text, codes, ◌=ᵗ◌, is_blank, if◌then◌else◌,
}

-- PaymentProviderStatus
pub data ProviderStatus : Type 0 where
  pending succeeded failed : ProviderStatus

pub record CreatePaymentRequest : Type 0 where
  pub amount : ℕ
  pub order_number : Option Text
  pub idempotency_key : Text
  pub local_payment_id : Option ℕ

pub record ProviderPayment : Type 0 where
  pub external_id : Text
  pub status : ProviderStatus
  pub checkout_url : Option Text

-- How a provider's call ends: it returns, or raises `PaymentProviderError`, `ImproperlyConfigured`
-- or any other exception, as after a lost connection.
pub data Outcome : Type 0 where
  returned : ProviderPayment → Outcome
  rejected : Outcome
  misconfigured : Outcome
  interrupted : Outcome

pub record PaymentProvider : Type 0 where
  pub name : Text
  pub create_payment : CreatePaymentRequest → Outcome
  pub confirm_payment : Text → Outcome

pub data LocalConfirmation : Type 0 where
  succeed reject : LocalConfirmation

abbrev pub local_name : Text
local_name = codes "local"

abbrev pub stripe_name : Text
stripe_name = codes "stripe"

abbrev pub reference_prefix : Text
reference_prefix = codes "local-pay-"

abbrev pub lower_ascii : ℕ → ℕ
lower_ascii c = if leb b'A' c && leb c b'Z' then c + 32 else c

-- `character.isascii() and (character.isalnum() or character == "-")`, after `lower()`.
abbrev pub is_safe : ℕ → Bool
is_safe c =
    leb b'a' c && leb c b'z' || leb b'0' c && leb c b'9' || leb b'A' c && leb c b'Z' || c == b'-'

abbrev pub is_blank_text : Text → Bool
is_blank_text = null

-- The characters outside ASCII whose lower case has an ASCII character are not lowered here.
unfoldable pub safe_key : Text → Text
safe_key key = filter is_safe (map lower_ascii key)

unfoldable pub local_create : CreatePaymentRequest → Outcome
local_create request =
    if is_blank request.order_number || null request.idempotency_key
    then rejected
    else if null (safe_key request.idempotency_key)
    then rejected
    else returned (record {
      external_id = take 255 (reference_prefix ++ safe_key request.idempotency_key);
      status = ProviderStatus.pending;
      checkout_url = none;
    })

abbrev pub starts_with : Text → Text → Bool
starts_with [] t = true
starts_with (p ∷ ps) [] = false
starts_with (p ∷ ps) (c ∷ cs) = c == p && starts_with ps cs

abbrev pub simulated : LocalConfirmation → ProviderStatus
simulated succeed = ProviderStatus.succeeded
simulated reject = ProviderStatus.failed

unfoldable pub local_confirm : LocalConfirmation → Text → Outcome
local_confirm confirmation external_id =
    if not (starts_with reference_prefix external_id)
    then rejected
    else returned
        (record { external_id = external_id; status = simulated confirmation; checkout_url = none })

-- LocalPaymentProvider
abbrev pub local_provider : LocalConfirmation → PaymentProvider
local_provider confirmation = record {
  name = local_name;
  create_payment = local_create;
  confirm_payment = local_confirm confirmation;
}

-- A Checkout Session, as the client returns it.
pub record Session : Type 0 where
  pub id : Text
  pub url : Option Text

unfoldable pub stripe_create :
    (CreatePaymentRequest → Option Session) → CreatePaymentRequest → Outcome
stripe_create create_session request =
    if is_blank request.order_number || null request.idempotency_key
    then rejected
    else elim (create_session request) [
      | none ↦ rejected
      | some session ↦ returned (record {
        external_id = session.id;
        status = ProviderStatus.pending;
        checkout_url = session.url;
      })
    ]

-- StripeProvider, whose `confirm_payment` raises `NotImplementedError`.
abbrev pub stripe_provider : (CreatePaymentRequest → Option Session) → PaymentProvider
stripe_provider create_session = record {
  name = stripe_name;
  create_payment = stripe_create create_session;
  confirm_payment = λ _. interrupted;
}

-- The settings that `get_payment_provider` reads: `PAYMENT_PROVIDER`, and the Stripe client, which is
-- missing if a setting of `StripeProvider.__init__` is blank or no currency code.
pub record Settings : Type 0 where
  pub payment_provider : Text
  pub stripe_client : Option (CreatePaymentRequest → Option Session)

-- `none` is `ImproperlyConfigured`.
unfoldable pub get_payment_provider : Settings → Option Text → Option PaymentProvider
get_payment_provider settings provider_name =
    let selected : Text = elim provider_name [ none ↦ settings.payment_provider | some n ↦ n ] in
    if selected =ᵗ local_name
    then some (local_provider LocalConfirmation.succeed)
    else if selected =ᵗ stripe_name
    then elim settings.stripe_client [ none ↦ none | some c ↦ some (stripe_provider c) ]
    else none

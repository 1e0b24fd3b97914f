-- ===== src/Bot/Outcome.antt =====
-- bot/app/api/exceptions.py: what a call of the bot returns or raises.
use ludora.Common.{ℕ, Bool, true, false, Option, none, some}

-- The subclasses of `APIError`, and the built-in exceptions that the bot's code raises itself.
pub data ApiError : Type 0 where
  backend_unavailable : ApiError
  backend_timeout : ApiError
  invalid_response : ApiError
  product_not_found : ApiError
  resource_not_found : ApiError
  validation_failed : ApiError
  conflict : ApiError
  permission_denied : ApiError
  unexpected_api_status : ℕ → ApiError
  authentication_failed : ApiError
  authentication_required : ApiError
  missing_telegram_user : ApiError
  value_error : ApiError

pub data Outcome {ℓ} (A : Type ℓ) : Type ℓ where
  returned : A → Outcome A
  raised : ApiError → Outcome A

infixl 5 ◌>>=◌ ◌>>◌
abbrev pub ◌>>=◌ : {A B : Type 0} → Outcome A → (A → Outcome B) → Outcome B
returned a >>= f = f a
raised e >>= f = raised e

abbrev pub ◌>>◌ : {A B : Type 0} → Outcome A → Outcome B → Outcome B
m >> k = m >>= λ _. k

-- A value that must be valid: `raise InvalidResponse` where there is none.
abbrev pub valid : {A : Type 0} → Option A → Outcome A
valid none = raised invalid_response
valid (some a) = returned a

-- `if not test: raise InvalidResponse`
abbrev pub check : Bool → Outcome (Unit {0})
check true = returned tt
check false = raised invalid_response

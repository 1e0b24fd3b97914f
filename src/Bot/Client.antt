-- ===== src/Bot/Client.antt =====
-- bot/app/api/client.py, `BackendClient`: authenticated requests with a bearer token that is refreshed once.
pub mod Endpoints
pub mod Reach
pub mod Steps
pub mod Endings
use ludora.Common.{
  ℕ, Bool, true, false, not, ◌&&◌, ◌||◌, List, Option, none, some, Text, codes, ltb, leb, ◌==◌,
  ◌++◌, print_decimal, if◌then◌else◌,
}
use ludora.Json.{Json, empty, integer, text, array, object, Members, nil, member, get, elements}
use ludora.Bot.Outcome.{
  ApiError, product_not_found, resource_not_found, validation_failed, conflict, permission_denied,
  unexpected_api_status, authentication_failed, authentication_required, value_error, Outcome,
  returned, raised, valid,
}
use ludora.Bot.Schemas.Fields.{Formats, as_object, as_list, as_required, each}
use ludora.Bot.Schemas.Catalogue.{
  Product, ProductPage, CartItem, Cart, read_product, read_product_page, read_cart_item, read_cart,
}
use ludora.Bot.Schemas.Purchases.{
  CheckoutOrder, OrderSummary, OrderDetail, read_checkout_order, read_order_summary,
  read_order_detail,
}
use ludora.Bot.Identity.{
  TelegramIdentity, as_payload, AuthTokens, BackendUser, AuthResult, read_backend_user,
  read_auth_result,
}
use ludora.Bot.Session.{
  Method, Request, Response, Client, Session, ◌>>=◌, ◌>>◌, pure, lift, send, stored, store, forget,
}

-- `_raise_for_status`
abbrev pub raise_for_status : Response → Outcome (Unit {0})
raise_for_status response =
    if response.status_code == 400
    then raised validation_failed
    else if response.status_code == 404
    then raised resource_not_found
    else if response.status_code == 409
    then raised conflict
    else if response.status_code == 403
    then raised permission_denied
    else if leb 200 response.status_code && ltb response.status_code 300
    then returned tt
    else raised (unexpected_api_status response.status_code)

-- `_json`
abbrev pub json : Response → Outcome Json
json response = valid response.body

-- `if test: raise e`
abbrev pub refuse_if : Bool → ApiError → Outcome (Unit {0})
refuse_if true e = raised e
refuse_if false e = returned tt

abbrev pub require_tokens : Option AuthTokens → Outcome AuthTokens
require_tokens none = raised authentication_required
require_tokens (some tokens) = returned tokens

-- A request without a body, page, token or secret.
abbrev pub plain : Method → Text → Request
plain method path = record {
  method = method;
  path = path;
  body = none;
  page = none;
  bearer = none;
  secret = none;
}

-- `data.get("access")`, if it is a text and not empty.
abbrev pub access_of : Json → Option Text
access_of (object members) = as_required (get (codes "access") members)
access_of _ = none

-- `if self._token_storage is not None:`
abbrev pub with_storage : Client → Session (Unit {0}) → Session (Unit {0})
with_storage client step = if client.uses_storage then step else pure tt

-- The tokens are dropped, and the caller has to authenticate.
unfoldable pub sign_out : {A : Type 0} → Session (Unit {0}) → Session A
unfolding ◌>>=◌ lift
sign_out drop = do drop; lift (raised authentication_required)

-- The tokens with the new access token of a response to `_refresh`.
unfoldable pub renew : Client → Text → ℕ → Response → Session AuthTokens
unfolding ◌>>=◌ pure lift store
renew client refresh_token telegram_id response = do
  lift (raise_for_status response)
  body ← lift (json response)
  access ← lift (valid (access_of body))
  let tokens : AuthTokens = record { access = access; refresh = refresh_token } in
      do with_storage client (store telegram_id tokens); pure tokens

-- `_refresh`
unfoldable pub refresh : Client → Text → ℕ → Session AuthTokens
unfolding sign_out renew send forget
refresh client refresh_token telegram_id = do
  response ← send client (record (plain Method.post (codes "api/auth/refresh/")) {
    body = some (object (member (codes "refresh") (text refresh_token) nil));
  })
  if response.status_code == 400 || response.status_code == 401
      then sign_out (with_storage client (forget telegram_id))
      else renew client refresh_token telegram_id response

-- The parts of an authenticated request that its caller chooses.
pub record Operation : Type 0 where
  pub method : Method
  pub path : Text
  pub body : Option Json
  pub expect_json : Bool

abbrev pub authorised : Operation → Text → Request
authorised operation access = record (plain operation.method operation.path) {
  body = operation.body;
  bearer = some access;
}

-- The value of a response; `None` where no JSON is expected.
unfoldable pub finish : Operation → Response → Session Json
unfolding ◌>>=◌ pure lift
finish operation response = do
  lift (raise_for_status response)
  if operation.expect_json then lift (json response) else pure empty

-- The request again, with the tokens that a refresh brings.
unfoldable pub retry : Client → Operation → ℕ → AuthTokens → Session Json
unfolding refresh finish
retry client operation telegram_id tokens = do
  refreshed ← refresh client tokens.refresh telegram_id
  response ← send client (authorised operation refreshed.access)
  if response.status_code == 401 then sign_out (forget telegram_id) else finish operation response

-- `_authenticated_json`
unfoldable pub authenticated_json : Client → Operation → ℕ → Session Json
unfolding retry stored finish
authenticated_json client operation telegram_id = do
  lift (refuse_if (not client.uses_storage) authentication_required)
  found ← stored telegram_id
  tokens ← lift (require_tokens found)
  response ← send client (authorised operation tokens.access)
  if response.status_code == 401
      then retry client operation telegram_id tokens
      else finish operation response

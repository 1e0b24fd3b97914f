-- ===== src/Bot/Session.antt =====
-- A run of the bot's client: bot/app/api/client.py, `_send`, with the token storage. The backend, and the
-- network up to it, is a function from the requests sent so far, the newest last, to what comes of the
-- newest: it may answer anything, and may remember everything it was sent.
pub mod Runs
pub mod Within
use ludora.Common.{ℕ, Bool, true, false, List, [], ◌∷◌, ◌++◌, Option, Text, if◌then◌else◌}
use ludora.Json.{Json}
use ludora.Bot.Outcome.{
  ApiError, backend_unavailable, backend_timeout, authentication_required, Outcome, returned,
  raised,
}
use ludora.Bot.Identity.{AuthTokens}
use ludora.Bot.Storage.{Entry, get_tokens, set_tokens, delete_tokens}

pub data Method : Type 0 where
  get post patch delete : Method

-- A request with the parts that the client sets: the body, the page of `params`, the token of the
-- `Authorization` header and the `X-Bot-Internal-Secret` header.
pub record Request : Type 0 where
  pub method : Method
  pub path : Text
  pub body : Option Json
  pub page : Option ℕ
  pub bearer : Option Text
  pub secret : Option Text

-- `httpx.Response`; its body is nothing where `response.json()` raises `ValueError`.
pub record Response : Type 0 where
  pub status_code : ℕ
  pub body : Option Json

-- What comes of a request: a response, `httpx.TimeoutException` or `httpx.RequestError`.
pub data Reply : Type 0 where
  answered : Response → Reply
  timed_out : Reply
  request_failed : Reply

-- What `BackendClient.__init__` is given.
pub record Client : Type 0 where
  pub backend : List Request → Reply
  pub internal_secret : Text
  pub uses_storage : Bool

pub record World : Type 0 where
  pub token_storage : List Entry
  pub sent : List Request

abbrev pub Session : Type 0 → Type 0
Session A = World → Outcome A × World

abbrev pub continue : {A B : Type 0} → Outcome A × World → (A → Session B) → Outcome B × World
continue (returned a, world) f = f a world
continue (raised e, world) f = (raised e, world)

infixl 5 ◌>>=◌ ◌>>◌
unfoldable pub ◌>>=◌ : {A B : Type 0} → Session A → (A → Session B) → Session B
(m >>= f) world = continue (m world) f

abbrev pub ◌>>◌ : {A B : Type 0} → Session A → Session B → Session B
m >> k = m >>= λ _. k

unfoldable pub pure : {A : Type 0} → A → Session A
pure a world = (returned a, world)

-- A step that neither sends nor stores.
unfoldable pub lift : {A : Type 0} → Outcome A → Session A
lift o world = (o, world)

abbrev pub is_authentication_required : ApiError → Bool
is_authentication_required authentication_required = true
is_authentication_required _ = false

abbrev pub recover : {A : Type 0} → Outcome A × World → Session A → Outcome A × World
recover (returned a, world) handler = (returned a, world)
recover (raised e, world) handler =
    let handled = handler world in
    if is_authentication_required e then handled else (raised e, world)

-- `try: m except AuthenticationRequired: handler`
unfoldable pub except_required : {A : Type 0} → Session A → Session A → Session A
except_required m handler world = recover (m world) handler

abbrev pub response_of : Reply → Outcome Response
response_of (answered response) = returned response
response_of timed_out = raised backend_timeout
response_of request_failed = raised backend_unavailable

-- `_send`
unfoldable pub send : Client → Request → Session Response
send client request world =
    let sent : List Request = world.sent ++ request ∷ [] in
    (response_of (client.backend sent), record world { sent = sent })

-- `_token_storage.get`, `.set` and `.delete`
unfoldable pub stored : ℕ → Session (Option AuthTokens)
stored telegram_id world = (returned (get_tokens telegram_id world.token_storage), world)

unfoldable pub store : ℕ → AuthTokens → Session (Unit {0})
store telegram_id tokens world = (
  returned tt,
  record world { token_storage = set_tokens telegram_id tokens world.token_storage },
)

unfoldable pub forget : ℕ → Session (Unit {0})
forget telegram_id world =
    (returned tt, record world { token_storage = delete_tokens telegram_id world.token_storage })

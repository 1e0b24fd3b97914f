-- ===== src/Tests/Calls.antt =====
-- The theorems on the bot's calls, applied to a backend that knows one access token.
use ludora.Common.{
  true, ◌≡◌, refl, ◌⊎◌, inl, inr, List, [], ◌∷◌, ◌++◌, Option, none, some, Text, codes, ◌=ᵗ◌,
  if◌then◌else◌, Bool-cases,
}
use ludora.Json.{Json, text, object, nil, member, get}
use ludora.Bot.Outcome.{returned, raised, authentication_required}
use ludora.Bot.Identity.{TelegramUser, TelegramIdentity, AuthResult, read_auth_result}
use ludora.Bot.Storage.View.{view}
use ludora.Bot.Session.{Method, Request, Reply, Client, World}
use ludora.Bot.Session.Within.{Within}
use ludora.Bot.Client.{Operation, authorised, authenticated_json}
use ludora.Bot.Client.Endpoints.{operation}
use ludora.Bot.Client.Endings.{
  IsServed, authenticated_json-IsServed, authenticated_json-IsSignedOut,
}
use ludora.Bot.Service
use ludora.Bot.Service.{identity_of, protected}
use ludora.Bot.Service.Recovery.{
  IsUp, success, unauthorized, refresh_request, telegram_request, protected_recovers,
}
use ludora.Bot.Service.Calls.{calls-Within}
use ludora.Tests.Readers.{formats}

abbrev pub user : TelegramUser
user = record {
  id = some 42;
  username = some (codes "ann");
  first_name = some (codes "Ann");
  last_name = none;
  language_code = some (codes "en");
}

abbrev pub identity : TelegramIdentity
identity = record {
  telegram_id = 42;
  username = some (codes "ann");
  first_name = some (codes "Ann");
  last_name = none;
  language_code = some (codes "en");
}

abbrev profile : Json
profile = object (
    member (codes "email") (text (codes "a@b.c")) (
      member (codes "first_name") (text (codes "Ann")) (
        member (codes "last_name") (text (codes "")) (
          member (codes "telegram_username") (text (codes "ann")) (
            member (codes "telegram_language_code") (text (codes "en"))
              (member (codes "date_joined") (text (codes "0")) nil))))))

abbrev issued : Json
issued = object (
    member (codes "access") (text (codes "new"))
      (member (codes "refresh") (text (codes "next")) (member (codes "user") profile nil)))

abbrev auth_result : AuthResult
auth_result = record {
  tokens = record { access = codes "new"; refresh = codes "next" };
  user = record {
    email = codes "a@b.c";
    first_name = codes "Ann";
    last_name = codes "";
    telegram_username = codes "ann";
    telegram_language_code = codes "en";
    date_joined = record { instant = 1; has_tzinfo = true };
  };
}

-- What is answered to a refresh; else the access token is valid, the path is that of a login, or the
-- request is refused.
abbrev answer_to : Reply → Text → Option Text → Reply
answer_to refreshed path none =
    if path =ᵗ codes "api/auth/telegram/"
    then success issued
    else if path =ᵗ codes "api/auth/refresh/"
    then refreshed
    else unauthorized
answer_to refreshed path (some access) =
    if access =ᵗ codes "new" then success profile else unauthorized

abbrev answer : Reply → List Request → Reply
answer refreshed [] = unauthorized
answer refreshed (r ∷ []) = answer_to refreshed r.path r.bearer
answer refreshed (r ∷ s ∷ rest) = answer refreshed (s ∷ rest)

answer-newest :
    (refreshed : Reply) (sent : List Request) (r : Request)
    → answer refreshed (sent ++ r ∷ []) ≡ answer_to refreshed r.path r.bearer
answer-newest refreshed [] r = refl
answer-newest refreshed (s ∷ []) r = refl
answer-newest refreshed (s ∷ t ∷ rest) r = answer-newest refreshed (t ∷ rest) r

abbrev pub client : Client
client = record {
  backend = answer unauthorized;
  internal_secret = codes "secret";
  uses_storage = true;
}

abbrev renewed : Json
renewed = object (member (codes "access") (text (codes "new")) nil)

-- A backend that answers a refresh with a valid token.
abbrev renewing_client : Client
renewing_client = record client { backend = answer (success renewed) }

abbrev get_me : Operation
get_me = operation Method.get (codes "api/auth/me/")

abbrev pub with_tokens : Text → World
with_tokens access = record {
  token_storage =
      record { telegram_id = 42; tokens = record { access = access; refresh = codes "next" } } ∷ [];
  sent = [];
}

decides :
    (access : Text)
    → (answer_to (success renewed) (codes "api/auth/me/") (some access) ≡ success profile)
      ⊎ (answer_to (success renewed) (codes "api/auth/me/") (some access) ≡ unauthorized)
decides access = elim (Bool-cases (access =ᵗ codes "new")) [
  | inl valid ↦ inl (rw valid refl)
  | inr expired ↦ inr (rw expired refl)
]

up : IsUp formats renewing_client identity get_me issued auth_result profile
unfolding read_auth_result get
up = record {
  issues = λ sent. answer-newest (success renewed) sent (telegram_request renewing_client identity);
  reads = refl;
  serves = λ sent. answer-newest (success renewed) sent (authorised get_me (codes "new"));
  decides = λ sent access.
      rw (answer-newest (success renewed) sent (authorised get_me access)) (decides access);
  refreshes = λ sent refresh_token. inr (
    renewed,
    codes "new",
    answer-newest (success renewed) sent (refresh_request refresh_token),
    refl,
  );
}

protected_recovers_example :
    (w : World) × (protected formats renewing_client
        (some user)
        (authenticated_json renewing_client get_me)
        (with_tokens (codes "old"))
      ≡ (returned profile, w))
protected_recovers_example =
    protected_recovers formats renewing_client (some user) identity get_me issued auth_result
      profile refl refl refl up (with_tokens (codes "old"))

calls-Within_example :
    Within 42 8 (Service.get_profile formats client (some user))
    × Within 42 8 (Service.get_cart formats client (some user))
    × Within 42 8 (Service.add_cart_item formats client (some user) 1 2)
    × Within 42 8 (Service.update_cart_item formats client (some user) 5 2)
    × Within 42 8 (Service.remove_cart_item formats client (some user) 5)
    × Within 42 8 (Service.clear_cart formats client (some user))
    × Within 42 8 (Service.checkout_cart formats client (some user))
    × Within 42 8 (Service.pay_order formats client (some user) 3)
    × Within 42 8 (Service.get_my_orders formats client (some user))
    × Within 42 8 (Service.get_my_order formats client (some user) 3)
calls-Within_example = calls-Within formats client (some user) identity refl 1 5 2 3

served : authenticated_json client get_me 42 (with_tokens (codes "new")) ≡ (
  returned profile,
  record (with_tokens (codes "new")) { sent = authorised get_me (codes "new") ∷ [] },
)
unfolding authenticated_json
served = refl

authenticated_json-IsServed_example :
    IsServed client get_me 42
      (codes "next")
      profile
      (record (with_tokens (codes "new")) { sent = authorised get_me (codes "new") ∷ [] })
authenticated_json-IsServed_example =
    authenticated_json-IsServed 42 client get_me
      (record { access = codes "new"; refresh = codes "next" }) (with_tokens (codes "new"))
      (record (with_tokens (codes "new")) { sent = authorised get_me (codes "new") ∷ [] }) profile
      refl refl served

abbrev signed_out : World
signed_out = record {
  token_storage = [];
  sent = authorised get_me (codes "old") ∷ refresh_request (codes "next") ∷ [];
}

refused :
    authenticated_json client get_me 42 (with_tokens (codes "old"))
    ≡ (raised authentication_required, signed_out)
unfolding authenticated_json
refused = refl

authenticated_json-IsSignedOut_example : view signed_out.token_storage 42 ≡ none
authenticated_json-IsSignedOut_example =
    authenticated_json-IsSignedOut 42 client get_me (with_tokens (codes "old")) signed_out refl
      refused

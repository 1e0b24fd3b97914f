-- ===== src/Bot/Client/Steps.antt =====
-- How the steps of an authenticated request end: with a response of the backend, or signed out.
use ludora.Common.{
  ℕ, Bool, true, false, ◌&&◌, ◌≡◌, refl, sym, ◌∙◌, ap, Option, none, some, Text, leb, ltb, arith,
  ==-refl, ◌++◌, [], ◌∷◌,
}
use ludora.Json.{Json}
use ludora.Bot.Outcome.{ApiError, Outcome, returned, raised, valid}
use ludora.Bot.Identity.{AuthTokens}
use ludora.Bot.Storage.View.{view, get_tokens-delete}
use ludora.Bot.Session.{
  Request, Response, Reply, answered, timed_out, request_failed, Client, World, lift, send, forget,
  is_authentication_required, response_of,
}
use ludora.Bot.Session.Runs.{Ensures, Ensures-lift}
use ludora.Bot.Client.{raise_for_status, with_storage, sign_out, Operation}

abbrev pub is_success : Response → Bool
is_success response = leb 200 response.status_code && ltb response.status_code 300

-- The newest request was answered with a success, and with the value where one is expected.
pub record IsAnswer (client : Client) (operation : Operation) (value : Json) (world : World)
    : Type 0 where
  pub response : Response
  pub newest : client.backend world.sent ≡ answered response
  pub success : is_success response ≡ true
  pub body : operation.expect_json ≡ true → response.body ≡ some value

-- The id has tokens with the refresh token.
pub record IsKept (n : ℕ) (refresh_token : Text) (world : World) : Type 0 where
  pub tokens : AuthTokens
  pub found : view world.token_storage n ≡ some tokens
  pub same : tokens.refresh ≡ refresh_token

-- An error that asks for authentication leaves no tokens.
abbrev pub IsSignedOut : ℕ → ApiError → World → Type 0
IsSignedOut n e world = is_authentication_required e ≡ true → view world.token_storage n ≡ none

pub success_of :
    (response : Response) → raise_for_status response ≡ returned tt → is_success response ≡ true
success_of response h = ground (arith, h)

-- Whether an outcome is the error that asks for authentication.
abbrev pub asks : {A : Type 0} → Outcome A → Bool
asks (returned a) = false
asks (raised e) = is_authentication_required e

pub raise_for_status-asks : (response : Response) → asks (raise_for_status response) ≡ false
raise_for_status-asks response = ground arith

pub valid-asks : {A : Type 0} (o : Option A) → asks (valid o) ≡ false
valid-asks none = refl
valid-asks (some a) = refl

response_of-asks : (reply : Reply) → asks (response_of reply) ≡ false
response_of-asks (answered response) = refl
response_of-asks timed_out = refl
response_of-asks request_failed = refl

module _ (n : ℕ) {A : Type 0} {Q : A → World → Type 0} where
  pub Ensures-quiet :
      (o : Outcome A) (world : World)
      → asks o ≡ false
      → ((a : A) → o ≡ returned a → Q a world)
      → Ensures Q (IsSignedOut n) (lift o) world
  Ensures-quiet o world quiet h = Ensures-lift o world h λ e raises asked.
      absurd (let clash : true ≡ false = sym asked ∙ sym (ap asks raises) ∙ quiet in cc)

  pub Ensures-sign_out :
      (client : Client) (world : World)
      → client.uses_storage ≡ true
      → Ensures Q (IsSignedOut n) (sign_out (with_storage client (forget n))) world
  unfolding sign_out forget
  Ensures-sign_out client world uses = record {
    at = rw uses (λ asked. get_tokens-delete n n world.token_storage ∙ rw (==-refl n) refl);
  }

  pub Ensures-forgotten : (world : World) → Ensures Q (IsSignedOut n) (sign_out (forget n)) world
  unfolding sign_out forget
  Ensures-forgotten world = record {
    at = λ asked. get_tokens-delete n n world.token_storage ∙ rw (==-refl n) refl;
  }

-- The newest request has this response, and the storage is as it was.
pub record IsSent (client : Client) (world : World) (response : Response) (w : World) : Type 0 where
  pub newest : client.backend w.sent ≡ answered response
  pub same : w.token_storage ≡ world.token_storage

response_of-answered :
    (reply : Reply) (response : Response)
    → response_of reply ≡ returned response
    → reply ≡ answered response
response_of-answered (answered r) response h = cc
response_of-answered timed_out response h = absurd (cc)
response_of-answered request_failed response h = absurd (cc)

pub Ensures-send :
    (n : ℕ) (client : Client) (request : Request) (world : World)
    → Ensures (IsSent client world) (IsSignedOut n) (send client request) world
unfolding send lift
Ensures-send n client request world =
    let sent : World = record world { sent = world.sent ++ request ∷ [] } in
    let reply : Reply = client.backend sent.sent in
    let ending =
      Ensures-quiet n {Q = IsSent client world} (response_of reply) sent (response_of-asks reply)
        λ response h. record { newest = response_of-answered reply response h; same = refl } in
    record { at = ending.at }

-- ===== src/Bot/Client/Reach.antt =====
-- How far a call of the bot's client reaches.
use ludora.Common.{Text, ℕ, ◌==◌, arith}
use ludora.Bot.Outcome.{authentication_required, raised}
use ludora.Bot.Identity.{AuthTokens}
use ludora.Bot.Session.{Client, Session, pure, store, forget}
use ludora.Bot.Session.Within.{
  Within, Within-pure, Within-lift, Within-stored, Within-send, Within-store, Within-forget,
  Within-if, Within-bind, Within-step, Within-weaken,
}
use ludora.Bot.Client.{
  Response, raise_for_status, json, with_storage, sign_out, renew, refresh, Operation, authorised,
  finish, retry, authenticated_json, require_tokens,
}

module _ {n : ℕ} (client : Client) where
  Within-with_storage :
      (step : Session (Unit {0})) → Within n 0 step → Within n 0 (with_storage client step)
  Within-with_storage step h = Within-if 0 client.uses_storage step (pure tt) h (Within-pure tt)

  Within-sign_out :
      {A : Type 0} (drop : Session (Unit {0}))
      → Within n 0 drop
      → Within n 0 (sign_out {A = A} drop)
  unfolding sign_out
  Within-sign_out drop h = Within-step 0 drop _ h λ _. Within-lift (raised authentication_required)

  Within-renew :
      (refresh_token : Text) (response : Response)
      → Within n 0 (renew client refresh_token n response)
  unfolding renew
  Within-renew refresh_token response =
      Within-step 0 _ _ (Within-lift (raise_for_status response)) λ _.
        Within-step 0 _ _ (Within-lift (json response)) λ body.
          Within-step 0 _ _ (Within-lift _) λ access.
            Within-step 0 _ _ (Within-with_storage (store n _) (Within-store _)) λ _. Within-pure _

  Within-refresh : (refresh_token : Text) → Within n 1 (refresh client refresh_token n)
  unfolding refresh
  Within-refresh refresh_token =
      Within-bind 1 0 1 _ _ (omega arith) (Within-send client _) λ response.
        Within-if 0 _ _ _
          (Within-sign_out (with_storage client (forget n))
            (Within-with_storage (forget n) Within-forget))
          (Within-renew refresh_token response)

  Within-finish :
      (operation : Operation) (response : Response) → Within n 0 (finish operation response)
  unfolding finish
  Within-finish operation response =
      Within-step 0 _ _ (Within-lift (raise_for_status response))
        λ _. Within-if 0 operation.expect_json _ _ (Within-lift (json response)) (Within-pure _)

  Within-retry :
      (operation : Operation) (tokens : AuthTokens) → Within n 2 (retry client operation n tokens)
  unfolding retry
  Within-retry operation tokens =
      Within-bind 1 1 2 _ _ (omega arith) (Within-refresh tokens.refresh) λ refreshed.
        Within-bind 1 0 1 _ _ (omega arith) (Within-send client _) λ response.
          Within-if 0 _ _ _ (Within-sign_out (forget n) Within-forget)
            (Within-finish operation response)

  -- A call with a bearer token sends three requests at most, whatever the backend answers, and
  -- changes the stored tokens of no other Telegram id.
  pub authenticated_json-Within :
      (operation : Operation) → Within n 3 (authenticated_json client operation n)
  unfolding authenticated_json
  authenticated_json-Within operation = Within-step 3 _ _ (Within-lift _) λ _.
      Within-step 3 _ _ Within-stored λ found.
        Within-step 3 _ _ (Within-lift (require_tokens found)) λ tokens.
          Within-bind 1 2 3 _ _ (omega arith)
            (Within-send client (authorised operation tokens.access))
            λ response.
              Within-if 2 (response.status_code == 401) _ _ (Within-retry operation tokens)
                (Within-weaken 0 2 _ (omega arith) (Within-finish operation response))

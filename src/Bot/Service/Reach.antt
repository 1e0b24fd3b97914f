-- ===== src/Bot/Service/Reach.antt =====
-- How far a call for a Telegram user reaches.
use ludora.Common.{◌∙◌, subst, sym, Bool, ℕ, ◌≡◌, Option, is_none, arith}
use ludora.Json.{Json}
use ludora.Bot.Outcome.{authentication_failed, value_error, Outcome, returned}
use ludora.Bot.Schemas.Fields.{Formats}
use ludora.Bot.Identity.{TelegramUser, TelegramIdentity, read_auth_result}
use ludora.Bot.Session.{Client, Session, World, ◌>>=◌, ◌>>◌, pure, lift, stored, except_required}
use ludora.Bot.Session.Runs.{
  Any, Ensures, Ensures-Any, Ensures-bind, Ensures-if, Ensures-lift, Ensures-pure,
}
use ludora.Bot.Session.Within.{
  Within, Within-pure, Within-lift, Within-stored, Within-send, Within-store, Within-if,
  Within-bind, Within-bind-Ensures, Within-step, Within-known, Within-weaken,
  Within-except_required,
}
use ludora.Bot.Client.{refuse_if, raise_for_status, json, Operation, authenticated_json}
use ludora.Bot.Client.Reach.{authenticated_json-Within}
use ludora.Bot.Client.Endpoints
use ludora.Bot.Service.{identity_of, synchronize, ensure_authenticated, protected}

Within-authenticate :
    (formats : Formats) (n : ℕ) (client : Client) (identity : TelegramIdentity)
    → Within n 1 (Endpoints.authenticate_telegram formats client identity)
unfolding Endpoints.authenticate_telegram
Within-authenticate formats n client identity =
    Within-bind 1 0 1 _ _ (omega arith) (Within-send client _) λ response.
      Within-step 0 _ _ (Within-lift (refuse_if _ authentication_failed)) λ _.
        Within-step 0 _ _ (Within-lift (raise_for_status response)) λ _.
          Within-step 0 _ _ (Within-lift (json response))
            λ body. Within-lift (read_auth_result formats body)

-- The value of an authenticated request, read.
pub Within-read :
    {A : Type 0} (n : ℕ) (client : Client) (operation : Operation) (read : Json → Outcome A)
    → Within n 3 (authenticated_json client operation n >>= λ body. lift (read body))
Within-read n client operation read =
    Within-bind 3 0 3 _ _ (omega arith) (authenticated_json-Within client operation)
      λ body. Within-lift (read body)

-- The same, where its value is dropped.
pub Within-done :
    (n : ℕ) (client : Client) (operation : Operation)
    → Within n 3 (authenticated_json client operation n >>= λ _. pure tt)
Within-done n client operation =
    Within-bind 3 0 3 _ _ (omega arith) (authenticated_json-Within client operation)
      λ _. Within-pure tt

-- The same, behind the test of an argument.
pub Within-checked :
    {A : Type 0} (n : ℕ) (test : Bool) (m : Session A)
    → Within n 3 m
    → Within n 3 (lift (refuse_if test value_error) >>= λ _. m)
Within-checked n test m h = Within-step 3 _ _ (Within-lift (refuse_if test value_error)) λ _. h

module _ (formats : Formats) (client : Client) (user : Option TelegramUser)
    (identity : TelegramIdentity) (known : identity_of user ≡ returned identity) where
  abbrev n : ℕ
  n = identity.telegram_id

  Within-synchronize : Within n 1 (synchronize formats client user)
  unfolding synchronize
  Within-synchronize = Within-known 1 (identity_of user) identity _ known (
      Within-bind 1 0 1 _ _ (omega arith) (Within-authenticate formats n client identity)
        λ result. Within-step 0 _ _ (Within-store result.tokens) λ _. Within-pure result)

  Within-ensure : Within n 1 (ensure_authenticated formats client user)
  unfolding ensure_authenticated
  Within-ensure = Within-known 1 (identity_of user) identity _ known (
      Within-step 1 _ _ Within-stored λ tokens.
        Within-if 1 (is_none tokens) _ _
          (Within-bind 1 0 1 _ _ (omega arith) Within-synchronize λ _. Within-pure identity)
          (Within-weaken 0 1 _ (omega arith) (Within-pure identity)))

  -- The identity that a call goes on with is the user's.
  ensured :
      (world : World)
      → Ensures (λ found _. found ≡ identity) Any (ensure_authenticated formats client user) world
  unfolding ensure_authenticated
  ensured world =
      Ensures-bind (λ i _. i ≡ identity) (lift (identity_of user)) _ world
        (Ensures-lift (identity_of user) world
          (λ i h. let same : returned i ≡ returned identity = sym h ∙ known in cc) λ _ _. tt)
        λ i w same.
          Ensures-bind Any (stored i.telegram_id) _ w (Ensures-Any (stored i.telegram_id) w)
            λ tokens u _.
              Ensures-if (is_none tokens) _ _ u
                (λ _.
                  Ensures-bind Any (synchronize formats client user) _ u
                    (Ensures-Any (synchronize formats client user) u)
                    λ _ v _. Ensures-pure i v same)
                λ _. Ensures-pure i u same

  pub Within-protected :
      {A : Type 0} (call : ℕ → Session A)
      → Within n 3 (call n)
      → Within n 8 (protected formats client user call)
  unfolding protected
  Within-protected call h =
      Within-bind-Ensures (λ found. found ≡ identity) 1 7 8 _ _ (omega arith) ensured Within-ensure
        λ found same.
          subst
            (λ (i : TelegramIdentity). Within n 7 (
              except_required (call i.telegram_id)
                (synchronize formats client user >> call i.telegram_id)))
            (sym same)
            (Within-except_required 3 4 7 _ _ (omega arith) h
              (Within-bind 1 3 4 _ _ (omega arith) Within-synchronize λ _. h))

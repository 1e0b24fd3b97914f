-- ===== src/Bot/Service/Recovery.antt =====
-- A call whose stored tokens have expired.
use ludora.Common.{
  ℕ, true, false, ◌≡◌, refl, sym, ◌∙◌, ap, subst, ◌⊎◌, inl, inr, Option, none, some, Text, codes,
  ==-refl, List, [], ◌∷◌, ◌++◌, is_none, Option-cases,
}
use ludora.Json.{Json, object, text, nil, member}
use ludora.Bot.Outcome.{ApiError, Outcome, returned, raised}
use ludora.Bot.Schemas.Fields.{Formats}
use ludora.Bot.Identity.{
  TelegramUser, TelegramIdentity, AuthTokens, AuthResult, as_payload, read_auth_result,
}
use ludora.Bot.Storage.View.{view, get_tokens-set}
use ludora.Bot.Session.{
  Method, Request, Reply, answered, Client, World, ◌>>◌, lift, pure, stored, store, except_required,
  is_authentication_required,
}
use ludora.Bot.Session.Runs.{
  Post, Ensures, Ensures-bind, Ensures-if, Ensures-pure, Ensures-except_required,
}
use ludora.Bot.Client.{access_of, Operation, authorised, authenticated_json, plain}
use ludora.Bot.Client.Endpoints.{authenticate_telegram}
use ludora.Bot.Service.{identity_of, synchronize, ensure_authenticated, protected}

abbrev pub success : Json → Reply
success value = answered (record { status_code = 200; body = some value })

abbrev pub unauthorized : Reply
unauthorized = answered (record { status_code = 401; body = none })

abbrev pub refresh_request : Text → Request
refresh_request refresh_token = record (plain Method.post (codes "api/auth/refresh/")) {
  body = some (object (member (codes "refresh") (text refresh_token) nil));
}

abbrev pub telegram_request : Client → TelegramIdentity → Request
telegram_request client identity = record (plain Method.post (codes "api/auth/telegram/")) {
  body = some (as_payload identity);
  secret = some client.internal_secret;
}

-- A backend that is up, at any time: it issues tokens to the identity, answers the operation with the
-- value where the access token is valid and with 401 where it is not, and either refuses a refresh with
-- 401 or answers it with an access token, be it valid for the operation or not.
pub record IsUp (formats : Formats) (client : Client) (identity : TelegramIdentity)
    (operation : Operation) (issued : Json) (result : AuthResult) (value : Json) : Type 0 where
  pub issues :
      (sent : List Request)
      → client.backend (sent ++ telegram_request client identity ∷ []) ≡ success issued
  pub reads : read_auth_result formats issued ≡ returned result
  pub serves :
      (sent : List Request)
      → client.backend (sent ++ authorised operation result.tokens.access ∷ []) ≡ success value
  pub decides :
      (sent : List Request) (access : Text)
      → (client.backend (sent ++ authorised operation access ∷ []) ≡ success value)
        ⊎ (client.backend (sent ++ authorised operation access ∷ []) ≡ unauthorized)
  pub refreshes :
      (sent : List Request) (refresh_token : Text)
      → (client.backend (sent ++ refresh_request refresh_token ∷ []) ≡ unauthorized)
        ⊎ ((body : Json) × (access : Text) × (client.backend
                (sent ++ refresh_request refresh_token ∷ [])
              ≡ success body)
            × (access_of body ≡ some access))

abbrev Never : ApiError → World → Type 0
Never e w = true ≡ false

abbrev IsRequired : ApiError → World → Type 0
IsRequired e w = is_authentication_required e ≡ true

module _ (formats : Formats) (client : Client) (user : Option TelegramUser)
    (identity : TelegramIdentity) (operation : Operation) (issued : Json) (result : AuthResult)
    (value : Json) (known : identity_of user ≡ returned identity)
    (uses : client.uses_storage ≡ true) (reads_json : operation.expect_json ≡ true)
    (up : IsUp formats client identity operation issued result value) where
  abbrev n : ℕ
  n = identity.telegram_id

  issued_tokens :
      (world : World)
      → Ensures (λ r _. r ≡ result) Never (authenticate_telegram formats client identity) world
  unfolding authenticate_telegram
  issued_tokens world = record { at = rw (up.issues world.sent, up.reads) refl }

  synchronized :
      (world : World)
      → Ensures
          (λ _ w. view w.token_storage n ≡ some result.tokens)
          Never
          (synchronize formats client user)
          world
  unfolding synchronize store
  synchronized world =
      Ensures-bind (λ i _. i ≡ identity) (lift (identity_of user)) _ world
        (record { at = rw known refl })
        λ i w same.
          Ensures-bind (λ r _. r ≡ result) (authenticate_telegram formats client i) _ w
            (subst
              (λ (j : TelegramIdentity).
                Ensures (λ r _. r ≡ result) Never (authenticate_telegram formats client j) w)
              (sym same) (issued_tokens w))
            λ r u is_issued. record {
              at =
                  rw (same, is_issued)
                    (get_tokens-set n n result.tokens u.token_storage ∙ rw (==-refl n) refl);
            }

  served :
      (tokens : AuthTokens) (world : World)
      → view world.token_storage n ≡ some tokens
      → client.backend (world.sent ++ authorised operation tokens.access ∷ []) ≡ success value
      → Ensures (λ v _. v ≡ value) Never (authenticated_json client operation n) world
  unfolding authenticated_json stored lift
  served tokens world found answers = record { at = rw (uses, found, answers, reads_json) refl }

  tried :
      (tokens : AuthTokens) (world : World)
      → view world.token_storage n ≡ some tokens
      → Ensures (λ v _. v ≡ value) IsRequired (authenticated_json client operation n) world
  unfolding authenticated_json stored lift
  tried tokens world found = elim (up.decides world.sent tokens.access) [
    | inl answers ↦ record { at = rw (uses, found, answers, reads_json) refl }
    | inr denies ↦
        let sent : List Request = world.sent ++ authorised operation tokens.access ∷ [] in
        elim (up.refreshes sent tokens.refresh) [
          | inl refused ↦ record { at = rw (uses, found, denies, refused) refl }
          | inr (body, access, renewed, has_access) ↦
              elim (up.decides (sent ++ refresh_request tokens.refresh ∷ []) access) [
                | inl answers ↦ record {
                  at = rw (uses, found, denies, renewed, has_access, answers, reads_json) refl;
                }
                | inr denies_again ↦ record {
                  at = rw (uses, found, denies, renewed, has_access, denies_again) refl;
                }
              ]
        ]
  ]

  -- The identity, with tokens that are stored.
  abbrev IsKnown : TelegramIdentity → World → Type 0
  IsKnown i w = (i ≡ identity) × ((tokens : AuthTokens) × (view w.token_storage n ≡ some tokens))

  user_found :
      (world : World) → Ensures IsKnown Never (ensure_authenticated formats client user) world
  unfolding ensure_authenticated stored
  user_found world =
      Ensures-bind (λ i _. i ≡ identity) (lift (identity_of user)) _ world
        (record { at = rw known refl })
        λ i w same.
          Ensures-bind (λ found u. (found ≡ view u.token_storage n)) (stored i.telegram_id) _ w
            (record { at = rw same refl })
            λ found u read.
              Ensures-if (is_none found) (synchronize formats client user >> pure i) (pure i) u
                (λ _.
                  Ensures-bind (λ _ v. view v.token_storage n ≡ some result.tokens)
                    (synchronize formats client user) _ u (synchronized u)
                    λ _ v at. Ensures-pure i v (same, (result.tokens, at)))
                λ is. elim (Option-cases found) [
                  | inl missing ↦ absurd (
                      let clash : true ≡ false =
                        sym (ap (λ (o : Option AuthTokens). is_none o) missing) ∙ is in
                      cc)
                  | inr (tokens, there) ↦ Ensures-pure i u (same, (tokens, sym read ∙ there))
                ]

  recovered :
      (world : World)
      → Ensures
          (λ v _. v ≡ value)
          Never
          (protected formats client user (authenticated_json client operation))
          world
  unfolding protected
  recovered world =
      Ensures-bind IsKnown (ensure_authenticated formats client user) _ world (user_found world)
        λ i w at.
          subst
            (λ (j : TelegramIdentity).
              Ensures (λ v _. v ≡ value) Never
                (except_required (authenticated_json client operation j.telegram_id) (
                  synchronize formats client user
                  >> authenticated_json client operation j.telegram_id))
                w)
            (sym at.0)
            (Ensures-except_required IsRequired (authenticated_json client operation n) _ w
              (tried at.1.0 w at.1.1) (λ e u yes no. sym yes ∙ no)
              λ e u _ _.
                Ensures-bind (λ _ v. view v.token_storage n ≡ some result.tokens)
                  (synchronize formats client user) _ u (synchronized u)
                  λ _ v found. served result.tokens v found (up.serves v.sent))

  ending :
      (r : Outcome Json × World)
      → Post (λ v _. v ≡ value) Never r
      → (w : World) × (r ≡ (returned value, w))
  ending (returned v, w) same = (w, ap (λ (u : Json). (returned u, w)) same)
  ending (raised e, w) never = absurd (cc)

  -- While the backend is up, a call for a Telegram user with a valid id returns its value, whatever
  -- tokens are stored: valid ones, expired ones, whether their refresh is refused, brings a valid
  -- access token or one that is refused again, or none.
  pub protected_recovers :
      (world : World)
      → (w : World) × (protected formats client user (authenticated_json client operation) world
          ≡ (returned value, w))
  protected_recovers world =
      ending (protected formats client user (authenticated_json client operation) world)
        (recovered world).at

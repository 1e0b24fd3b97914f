-- ===== src/Bot/Client/Endings.antt =====
-- How an authenticated request ends: with a response of the backend, or signed out.
use ludora.Common.{
  Option-cases, inl, inr, ℕ, true, false, not, ◌≡◌, refl, sym, ◌∙◌, ap, subst, Option, none, some,
  Text, ◌==◌, ◌||◌, ==-refl,
}
use ludora.Json.{Json, empty}
use ludora.Bot.Outcome.{authentication_required, returned, raised, valid}
use ludora.Bot.Identity.{AuthTokens}
use ludora.Bot.Storage.View.{view, get_tokens-set}
use ludora.Bot.Session.{Response, answered, Client, World, lift, send, stored, store}
use ludora.Bot.Session.Runs.{
  Post, Any, Ensures-weaken, Ensures, Ensures-bind, Ensures-if, Ensures-pure,
}
use ludora.Bot.Client.{
  raise_for_status, json, access_of, refuse_if, require_tokens, renew, refresh, Operation,
  authorised, finish, retry, authenticated_json,
}
use ludora.Bot.Client.Steps.{
  is_success, IsAnswer, IsKept, IsSignedOut, IsSent, success_of, raise_for_status-asks, valid-asks,
  Ensures-quiet, Ensures-sign_out, Ensures-forgotten, Ensures-send,
}

-- An answered request of an id that keeps its refresh token.
abbrev pub IsServed : Client → Operation → ℕ → Text → Json → World → Type 0
IsServed client operation n refresh_token value world =
    IsAnswer client operation value world × IsKept n refresh_token world

-- The tokens are the stored ones of the id, with the refresh token.
abbrev IsRenewed : ℕ → Text → AuthTokens → World → Type 0
IsRenewed n refresh_token tokens world =
    (view world.token_storage n ≡ some tokens) × (tokens.refresh ≡ refresh_token)

-- The response to the newest request, of an id that keeps its refresh token.
abbrev IsAnswered : Client → ℕ → Text → Response → World → Type 0
IsAnswered client n refresh_token response world =
    (client.backend world.sent ≡ answered response) × IsKept n refresh_token world

valid-returned : {A : Type 0} (o : Option A) (a : A) → valid o ≡ returned a → o ≡ some a
valid-returned none a h = absurd cc
valid-returned (some b) a h = cc

IsKept-same :
    (n : ℕ) (refresh_token : Text) (world w : World)
    → w.token_storage ≡ world.token_storage
    → IsKept n refresh_token world
    → IsKept n refresh_token w
IsKept-same n refresh_token world w same kept = record {
  tokens = kept.tokens;
  found = rw same kept.found;
  same = kept.same;
}

module _ (n : ℕ) (client : Client) (operation : Operation) (refresh_token : Text) where
  Ensures-finish :
      (response : Response) (world : World)
      → IsAnswered client n refresh_token response world
      → Ensures
          (IsServed client operation n refresh_token)
          (IsSignedOut n)
          (finish operation response)
          world
  unfolding finish
  Ensures-finish response world answer =
      Ensures-bind
        (λ _ w. IsAnswered client n refresh_token response w × (is_success response ≡ true))
        (lift (raise_for_status response)) _ world
        (Ensures-quiet n (raise_for_status response) world (raise_for_status-asks response)
          λ u h. (answer, success_of response h))
        λ u w at.
          Ensures-if operation.expect_json _ _ w
            (λ _. Ensures-quiet n (json response) w (valid-asks response.body) λ value h. (
              record {
                response = response;
                newest = at.0.0;
                success = at.1;
                body = λ _. valid-returned response.body value h;
              },
              at.0.1,
            ))
            λ no. Ensures-pure empty w (
              record {
                response = response;
                newest = at.0.0;
                success = at.1;
                body = λ yes. absurd (let clash : true ≡ false = sym yes ∙ no in cc);
              },
              at.0.1,
            )

  Ensures-renew :
      (response : Response) (world : World)
      → client.uses_storage ≡ true
      → Ensures
          (IsRenewed n refresh_token)
          (IsSignedOut n)
          (renew client refresh_token n response)
          world
  unfolding renew store
  Ensures-renew response world uses =
      Ensures-bind (λ _ _. Unit) (lift (raise_for_status response)) _ world
        (Ensures-quiet n (raise_for_status response) world (raise_for_status-asks response)
          λ _ _. tt)
        λ _ u _.
          Ensures-bind (λ _ _. Unit) (lift (json response)) _ u
            (Ensures-quiet n (json response) u (valid-asks response.body) λ _ _. tt)
            λ body v _.
              Ensures-bind (λ _ _. Unit) (lift (valid (access_of body))) _ v
                (Ensures-quiet n (valid (access_of body)) v (valid-asks (access_of body)) λ _ _. tt)
                λ access w _. record {
                  at = rw uses (
                      let tokens : AuthTokens = record {
                        access = access;
                        refresh = refresh_token;
                      } in
                      (get_tokens-set n n tokens w.token_storage ∙ rw (==-refl n) refl, refl));
                }

  Ensures-refresh :
      (world : World)
      → client.uses_storage ≡ true
      → Ensures (IsRenewed n refresh_token) (IsSignedOut n) (refresh client refresh_token n) world
  unfolding refresh
  Ensures-refresh world uses =
      Ensures-bind (IsSent client world) (send client _) _ world (Ensures-send n client _ world)
        λ response w at.
          Ensures-if (response.status_code == 400 || response.status_code == 401) _ _ w
            (λ _. Ensures-sign_out n client w uses) λ _. Ensures-renew response w uses

  Ensures-retry :
      (tokens : AuthTokens) (world : World)
      → client.uses_storage ≡ true
      → tokens.refresh ≡ refresh_token
      → Ensures
          (IsServed client operation n refresh_token)
          (IsSignedOut n)
          (retry client operation n tokens)
          world
  unfolding retry
  Ensures-retry tokens world uses same =
      Ensures-bind (IsRenewed n refresh_token) (refresh client tokens.refresh n) _ world
        (rw same (Ensures-refresh world uses))
        λ refreshed u renewed.
          Ensures-bind (IsSent client u) (send client (authorised operation refreshed.access)) _ u
            (Ensures-send n client (authorised operation refreshed.access) u)
            λ response w at.
              Ensures-if (response.status_code == 401) _ _ w (λ _. Ensures-forgotten n w)
                λ _. Ensures-finish response w (
                  at.newest,
                  IsKept-same n refresh_token u w at.same
                      (record { tokens = refreshed; found = renewed.0; same = renewed.1 }),
                )

  Ensures-authenticated :
      (tokens : AuthTokens) (world : World)
      → client.uses_storage ≡ true
      → view world.token_storage n ≡ some tokens
      → tokens.refresh ≡ refresh_token
      → Ensures
          (IsServed client operation n refresh_token)
          (IsSignedOut n)
          (authenticated_json client operation n)
          world
  unfolding authenticated_json stored lift
  Ensures-authenticated tokens world uses found same =
      Ensures-bind (λ _ w. view w.token_storage n ≡ some tokens)
        (lift (refuse_if (not client.uses_storage) authentication_required)) _ world
        (record { at = rw uses found })
        λ _ t stays.
          Ensures-bind (λ f w. (f ≡ some tokens) × (view w.token_storage n ≡ some tokens))
            (stored n) _ t (record { at = (stays, stays) })
            λ f u at.
              Ensures-bind (λ a w. (a ≡ tokens) × (view w.token_storage n ≡ some tokens))
                (lift (require_tokens f)) _ u (record { at = rw at.0 (refl, at.1) })
                λ a v at.
                  Ensures-bind (IsSent client v) (send client (authorised operation a.access)) _ v
                    (Ensures-send n client (authorised operation a.access) v)
                    λ response w sent.
                      let refreshes : a.refresh ≡ refresh_token =
                        ap (λ (t : AuthTokens). t.refresh) at.0 ∙ same in
                      Ensures-if (response.status_code == 401) _ _ w
                        (λ _. Ensures-retry a w uses refreshes)
                        λ _. Ensures-finish response w (
                          sent.newest,
                          IsKept-same n refresh_token v w sent.same (record {
                            tokens = a;
                            found = at.1 ∙ sym (ap (λ (t : AuthTokens). some t) at.0);
                            same = refreshes;
                          }),
                        )

-- An authenticated request that returns a value was answered with a success to the newest request
-- sent, with that value where one is expected, and the id keeps its refresh token.
pub authenticated_json-IsServed :
    (n : ℕ) (client : Client) (operation : Operation) (tokens : AuthTokens) (world w : World)
    (value : Json)
    → client.uses_storage ≡ true
    → view world.token_storage n ≡ some tokens
    → authenticated_json client operation n world ≡ (returned value, w)
    → IsServed client operation n tokens.refresh value w
authenticated_json-IsServed n client operation tokens world w value uses found returns =
    subst (Post (IsServed client operation n tokens.refresh) (IsSignedOut n)) returns
      (Ensures-authenticated n client operation tokens.refresh tokens world uses found refl).at

pub Ensures-IsSignedOut :
    (n : ℕ) (client : Client) (operation : Operation) (world : World)
    → client.uses_storage ≡ true
    → Ensures Any (IsSignedOut n) (authenticated_json client operation n) world
unfolding authenticated_json stored lift
Ensures-IsSignedOut n client operation world uses =
    elim (Option-cases (view world.token_storage n)) [
      | inl missing ↦ record { at = rw (uses, missing) (λ _. missing) }
      | inr (tokens, found) ↦
          Ensures-weaken (authenticated_json client operation n) world (λ _ _ _. tt)
            (Ensures-authenticated n client operation tokens.refresh tokens world uses found refl)
    ]

-- An authenticated request that asks for authentication leaves no tokens of the id: there were none,
-- the refresh was refused, or the new access token was.
pub authenticated_json-IsSignedOut :
    (n : ℕ) (client : Client) (operation : Operation) (world w : World)
    → client.uses_storage ≡ true
    → authenticated_json client operation n world ≡ (raised authentication_required, w)
    → view w.token_storage n ≡ none
authenticated_json-IsSignedOut n client operation world w uses raises =
    subst (Post Any (IsSignedOut n)) raises (Ensures-IsSignedOut n client operation world uses).at
      refl

-- ===== src/Bot/Session/Within.antt =====
-- How far a run of the client reaches: the tokens of one id, and a number of requests.
use ludora.Common.{
  inl, inr, Bool-cases, append_nil, append_assoc, length-append, sym, ap, ◌∙◌, ℕ, Bool, true, false,
  ◌≡◌, refl, ◌≤◌, ◌+◌, List, [], ◌∷◌, ◌++◌, length, ◌==◌, arith, if◌then◌else◌,
}
use ludora.Bot.Outcome.{Outcome, returned, raised}
use ludora.Bot.Identity.{AuthTokens}
use ludora.Bot.Storage.View.{view, get_tokens-set, get_tokens-delete}
use ludora.Bot.Session.Runs.{Post, Any, Ensures, Ensures-Any}
use ludora.Bot.Session.{
  Request, Client, World, Session, ◌>>=◌, pure, lift, send, stored, store, forget, except_required,
  continue, recover, is_authentication_required,
}

-- At most `k` requests are sent behind those sent before, and the tokens of every id but `n` stay.
pub record Moved (n k : ℕ) (world world' : World) : Type 0 where
  pub added : List Request
  pub sent : world'.sent ≡ world.sent ++ added
  pub bound : length added ≤ k
  pub others : (m : ℕ) → (n == m) ≡ false → view world'.token_storage m ≡ view world.token_storage m

pub record Within {A : Type 0} (n k : ℕ) (m : Session A) : Type 0 where
  pub at : (world : World) → Moved n k world (m world).1

Moved-same : (n : ℕ) (world : World) → Moved n 0 world world
Moved-same n world = record {
  added = [];
  sent = sym (append_nil world.sent);
  bound = omega arith;
  others = λ m h. refl;
}

Moved-then :
    (n j k l : ℕ) (u v w : World) → j + k ≤ l → Moved n j u v → Moved n k v w → Moved n l u w
Moved-then n j k l u v w h first second = record {
  added = first.added ++ second.added;
  sent =
      second.sent
      ∙ ap (λ (s : List Request). s ++ second.added) first.sent
      ∙ append_assoc u.sent first.added second.added;
  bound = omega (arith, length-append first.added second.added, first.bound, second.bound, h);
  others = λ m different. second.others m different ∙ first.others m different;
}

module _ {n : ℕ} where
  pub Within-pure : {A : Type 0} (a : A) → Within n 0 (pure a)
  unfolding pure
  Within-pure a = record { at = λ world. Moved-same n world }

  pub Within-lift : {A : Type 0} (o : Outcome A) → Within n 0 (lift o)
  unfolding lift
  Within-lift o = record { at = λ world. Moved-same n world }

  pub Within-stored : Within n 0 (stored n)
  unfolding stored
  Within-stored = record { at = λ world. Moved-same n world }

  pub Within-send : (client : Client) (request : Request) → Within n 1 (send client request)
  unfolding send
  Within-send client request = record {
    at = λ world. record {
      added = request ∷ [];
      sent = refl;
      bound = omega arith;
      others = λ m h. refl;
    };
  }

  pub Within-store : (tokens : AuthTokens) → Within n 0 (store n tokens)
  unfolding store
  Within-store tokens = record {
    at = λ world. record {
      added = [];
      sent = sym (append_nil world.sent);
      bound = omega arith;
      others = λ m h. get_tokens-set n m tokens world.token_storage ∙ rw h refl;
    };
  }

  pub Within-forget : Within n 0 (forget n)
  unfolding forget
  Within-forget = record {
    at = λ world. record {
      added = [];
      sent = sym (append_nil world.sent);
      bound = omega arith;
      others = λ m h. get_tokens-delete n m world.token_storage ∙ rw h refl;
    };
  }

  pub Within-if :
      {A : Type 0} (k : ℕ) (test : Bool) (first second : Session A)
      → Within n k first
      → Within n k second
      → Within n k (if test then first else second)
  Within-if k true first second h l = h
  Within-if k false first second h l = l

  -- A step and the rest, which may use what the first step ensures of its value.
  pub Within-bind-Ensures :
      {A B : Type 0} (R : A → Type 0) (j k l : ℕ) (m : Session A) (f : A → Session B)
      → j + k ≤ l
      → ((world : World) → Ensures (λ a _. R a) Any m world)
      → Within n j m
      → ((a : A) → R a → Within n k (f a))
      → Within n l (m >>= f)
  unfolding ◌>>=◌
  Within-bind-Ensures {A} {B} R j k l m f h ensured first second = record {
    at = λ world. go world (m world) (ensured world).at (first.at world);
  }
    where
      go :
          (world : World) (r : Outcome A × World)
          → Post (λ a _. R a) Any r
          → Moved n j world r.1
          → Moved n l world (continue r f).1
      go world (returned a, w) e moved =
          Moved-then n j k l world w (f a w).1 h moved ((second a e).at w)
      go world (raised e, w) _ moved =
          Moved-then n j 0 l world w w (omega (arith, h)) moved (Moved-same n w)

  pub Within-bind :
      {A B : Type 0} (j k l : ℕ) (m : Session A) (f : A → Session B)
      → j + k ≤ l
      → Within n j m
      → ((a : A) → Within n k (f a))
      → Within n l (m >>= f)
  Within-bind j k l m f h first second =
      Within-bind-Ensures (λ _. Unit) j k l m f h (Ensures-Any m) first λ a _. second a

  -- A step that sends nothing comes first.
  pub Within-step :
      {A B : Type 0} (k : ℕ) (m : Session A) (f : A → Session B)
      → Within n 0 m
      → ((a : A) → Within n k (f a))
      → Within n k (m >>= f)
  Within-step k m f = Within-bind 0 k k m f (omega arith)

  -- A value that is known goes on.
  pub Within-known :
      {A B : Type 0} (k : ℕ) (o : Outcome A) (a : A) (f : A → Session B)
      → o ≡ returned a
      → Within n k (f a)
      → Within n k (lift o >>= f)
  unfolding ◌>>=◌ lift
  Within-known k o a f known h = rw known h

  pub Within-weaken : {A : Type 0} (j k : ℕ) (m : Session A) → j ≤ k → Within n j m → Within n k m
  Within-weaken j k m h first = record {
    at = λ world.
        Moved-then n j 0 k world (m world).1 (m world).1 (omega (arith, h)) (first.at world)
          (Moved-same n (m world).1);
  }

  pub Within-except_required :
      {A : Type 0} (j k l : ℕ) (m handler : Session A)
      → j + k ≤ l
      → Within n j m
      → Within n k handler
      → Within n l (except_required m handler)
  unfolding except_required
  Within-except_required {A} j k l m handler h first second = record {
    at = λ world. go world (m world) (first.at world);
  }
    where
      stay : (world w : World) → Moved n j world w → Moved n l world w
      stay world w moved = Moved-then n j 0 l world w w (omega (arith, h)) moved (Moved-same n w)

      go :
          (world : World) (r : Outcome A × World)
          → Moved n j world r.1
          → Moved n l world (recover r handler).1
      go world (returned a, w) moved = stay world w moved
      go world (raised e, w) moved = elim (Bool-cases (is_authentication_required e)) [
        | inl p ↦ rw p (Moved-then n j k l world w (handler w).1 h moved (second.at w))
        | inr p ↦ rw p (stay world w moved)
      ]

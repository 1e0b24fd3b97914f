-- ===== src/Bot/Schemas/Yields.antt =====
-- What holds of every value that a reader of bot/app/api/schemas.py returns.
use ludora.Common.{
  ℕ, ◌<◌, ◌≡◌, refl, subst, List, [], ◌∷◌, Option, none, some, ltb, All, Bool-cases, inl, inr,
  arith,
}
use ludora.Json.{Json, empty, boolean, integer, number, text, array, object}
use ludora.Bot.Outcome.{invalid_response, Outcome, returned, raised, ◌>>=◌, valid}
use ludora.Bot.Schemas.Fields.{as_positive, each}

-- What holds of a value that is returned.
abbrev pub Yields : {A : Type 0} → (A → Type 0) → Outcome A → Type 0
Yields P (returned a) = P a
Yields P (raised e) = Unit

pub bind-Yields :
    {A B : Type 0} (P : B → Type 0) (o : Outcome A) (f : A → Outcome B)
    → ((a : A) → o ≡ returned a → Yields P (f a))
    → Yields P (o >>= f)
bind-Yields P (returned a) f h = h a refl
bind-Yields P (raised e) f h = tt

positive_of : (m n : ℕ) → valid (as_positive (some (integer m))) ≡ returned n → 0 < n
positive_of m n h = elim (Bool-cases (ltb 0 m)) [
  | inl some_of ↦
      let same : returned m ≡ returned n = rw some_of at h in
      let is : m ≡ n = cc in subst (λ (k : ℕ). 0 < k) is (ground (arith, some_of))
  | inr zero_of ↦ absurd (let clash : raised invalid_response ≡ returned n = rw zero_of at h in cc)
]

pub as_positive-positive : (o : Option Json) (n : ℕ) → valid (as_positive o) ≡ returned n → 0 < n
as_positive-positive (some (integer m)) n h = positive_of m n h
as_positive-positive none n h = absurd cc
as_positive-positive (some empty) n h = absurd cc
as_positive-positive (some (boolean b)) n h = absurd cc
as_positive-positive (some (number t)) n h = absurd cc
as_positive-positive (some (text t)) n h = absurd cc
as_positive-positive (some (array v)) n h = absurd cc
as_positive-positive (some (object v)) n h = absurd cc

pub each-Yields :
    {A : Type 0} (P : A → Type 0) (read : Json → Outcome A) (items : List Json)
    → ((item : Json) → Yields P (read item))
    → Yields (All P) (each read items)
each-Yields P read [] h = tt
each-Yields P read (item ∷ items) h = bind-Yields (All P) (read item) _ λ value first.
    bind-Yields (All P) (each read items) _ λ rest others.
      (subst (Yields P) first (h item), subst (Yields (All P)) others (each-Yields P read items h))

-- ===== src/Bot/Session/Runs.antt =====
-- What holds after a run of the client: one predicate for its value and one for its error.
use ludora.Common.{inl, inr, Bool-cases, Bool, true, false, ◌≡◌, refl, if◌then◌else◌}
use ludora.Bot.Outcome.{ApiError, Outcome, returned, raised}
use ludora.Bot.Session.{
  World, Session, ◌>>=◌, pure, lift, continue, recover, except_required, is_authentication_required,
}

abbrev pub Post :
    {A : Type 0} → (A → World → Type 0) → (ApiError → World → Type 0) → Outcome A × World → Type 0
Post Q E (returned a, world) = Q a world
Post Q E (raised e, world) = E e world

-- From `world`, the run `m` ends with `Q` of its value or with `E` of its error.
pub record Ensures {A : Type 0} (Q : A → World → Type 0) (E : ApiError → World → Type 0)
    (m : Session A) (world : World) : Type 0 where
  pub at : Post Q E (m world)

-- Nothing is asked of a run.
abbrev pub Any : {A : Type 0} → A → World → Type 0
Any a world = Unit

pub Ensures-Any : {A : Type 0} (m : Session A) (world : World) → Ensures Any Any m world
Ensures-Any {A} m world = record { at = go (m world) }
  where
    go : (r : Outcome A × World) → Post Any Any r
    go (returned a, w) = tt
    go (raised e, w) = tt

module _ {A : Type 0} {Q : A → World → Type 0} {E : ApiError → World → Type 0} where
  pub Ensures-bind :
      {B : Type 0} (R : B → World → Type 0) (m : Session B) (f : B → Session A) (world : World)
      → Ensures R E m world
      → ((b : B) (w : World) → R b w → Ensures Q E (f b) w)
      → Ensures Q E (m >>= f) world
  unfolding ◌>>=◌
  Ensures-bind {B} R m f world h k = record { at = go (m world) h.at }
    where
      go : (r : Outcome B × World) → Post R E r → Post Q E (continue r f)
      go (returned b, w) h = (k b w h).at
      go (raised e, w) h = h

  pub Ensures-pure : (a : A) (world : World) → Q a world → Ensures Q E (pure a) world
  unfolding pure
  Ensures-pure a world h = record { at = h }

  pub Ensures-raise :
      (e : ApiError) (world : World) → E e world → Ensures Q E (lift (raised e)) world
  unfolding lift
  Ensures-raise e world h = record { at = h }

  -- A step without effects, for each of its ends.
  pub Ensures-lift :
      (o : Outcome A) (world : World)
      → ((a : A) → o ≡ returned a → Q a world)
      → ((e : ApiError) → o ≡ raised e → E e world)
      → Ensures Q E (lift o) world
  unfolding lift
  Ensures-lift (returned a) world h k = record { at = h a refl }
  Ensures-lift (raised e) world h k = record { at = k e refl }

  pub Ensures-if :
      (test : Bool) (first second : Session A) (world : World)
      → (test ≡ true → Ensures Q E first world)
      → (test ≡ false → Ensures Q E second world)
      → Ensures Q E (if test then first else second) world
  Ensures-if true first second world h k = h refl
  Ensures-if false first second world h k = k refl

  pub Ensures-except_required :
      (D : ApiError → World → Type 0) (m handler : Session A) (world : World)
      → Ensures Q D m world
      → ((e : ApiError) (w : World) → D e w → is_authentication_required e ≡ false → E e w)
      → ((e : ApiError) (w : World)
          → D e w
          → is_authentication_required e ≡ true
          → Ensures Q E handler w)
      → Ensures Q E (except_required m handler) world
  unfolding except_required
  Ensures-except_required D m handler world h k l = record { at = go (m world) h.at }
    where
      go : (r : Outcome A × World) → Post Q D r → Post Q E (recover r handler)
      go (returned a, w) h = h
      go (raised e, w) h = elim (Bool-cases (is_authentication_required e)) [
        | inl p ↦ rw p (l e w h p).at
        | inr p ↦ rw p (k e w h p)
      ]

pub Ensures-weaken :
    {A : Type 0} {Q R : A → World → Type 0} {E : ApiError → World → Type 0} (m : Session A)
    (world : World)
    → ((a : A) (w : World) → Q a w → R a w)
    → Ensures Q E m world
    → Ensures R E m world
Ensures-weaken {A} {Q} {R} {E} m world k h = record { at = go (m world) h.at }
  where
    go : (r : Outcome A × World) → Post Q E r → Post R E r
    go (returned a, w) h = k a w h
    go (raised e, w) h = h

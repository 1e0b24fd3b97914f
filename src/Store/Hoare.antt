-- ===== src/Store/Hoare.antt =====
-- What a transaction keeps when it commits: one rule for each way to build it. A transaction that
-- raises leaves the database as it was.
use ludora.Common.{◌≡◌, refl, Bool, true, false, Option, none, some, if◌then◌else◌, arith}
use ludora.Store.Rows.{Db}
use ludora.Store.Errors.{Error, Result, ok, err}
use ludora.Store.Transaction.{Tx, ◌>>=◌, pure, raise, gets, or_raise, raise_if, modify}

abbrev pub Post : {A : Type 0} → (A → Db → Type 0) → Result (A × Db) → Type 0
Post Q (ok (a, db)) = Q a db
Post Q (err e) = Unit

-- From a database with `P`, a commit reaches one with `P`.
pub record Keeps {A : Type 0} (P : Db → Type 0) (m : Tx A) : Type 0 where
  pub at : (db : Db) → P db → Post (λ _. P) (m db)

pub Post-bind :
    {A B : Type 0} (R : A → Db → Type 0) (Q : B → Db → Type 0) (m : Tx A) (f : A → Tx B) (db : Db)
    → Post R (m db)
    → ((a : A) (db' : Db) → R a db' → Post Q (f a db'))
    → Post Q ((m >>= f) db)
unfolding ◌>>=◌
Post-bind {A} {B} R Q m f db h k = go (m db) h
  where
    go :
        (r : Result (A × Db))
        → Post R r
        → Post Q (let s : Result (B × Db) = elim r [ ok (a, db') ↦ f a db' | err e ↦ err e ] in s)
    go (ok (a, db')) h = k a db' h
    go (err e) h = tt

-- A step that returns is followed by the rest.
pub bind-ok :
    {A B : Type 0} (m : Tx A) (f : A → Tx B) (db db' : Db) (a : A)
    → m db ≡ ok (a, db')
    → (m >>= f) db ≡ f a db'
unfolding ◌>>=◌
bind-ok m f db db' a h = ground (arith, h)

module _ {A : Type 0} {P : Db → Type 0} where
  pub Keeps-pure : (a : A) → Keeps P (pure a)
  unfolding ◌>>=◌
  Keeps-pure a = record { at = λ db h. h }

  pub Keeps-raise : (e : Error) → Keeps P (raise {A = A} e)
  unfolding ◌>>=◌
  Keeps-raise e = record { at = λ db h. tt }

  pub Keeps-gets : (f : Db → A) → Keeps P (gets f)
  unfolding ◌>>=◌
  Keeps-gets f = record { at = λ db h. h }

  pub Keeps-or_raise : (o : Option A) (e : Error) → Keeps P (or_raise o e)
  unfolding ◌>>=◌
  Keeps-or_raise none e = record { at = λ db h. tt }
  Keeps-or_raise (some a) e = record { at = λ db h. h }

  -- Each branch may use the outcome of the test.
  pub Keeps-if :
      (test : Bool) (first second : Tx A)
      → ((passed : test ≡ true) → Keeps P first)
      → ((refused : test ≡ false) → Keeps P second)
      → Keeps P (if test then first else second)
  Keeps-if true first second left right = left refl
  Keeps-if false first second left right = right refl

module _ {P : Db → Type 0} where
  pub Keeps-raise_if : (b : Bool) (e : Error) → Keeps P (raise_if b e)
  unfolding ◌>>=◌
  Keeps-raise_if true e = record { at = λ db h. tt }
  Keeps-raise_if false e = record { at = λ db h. h }

  -- A write to columns of which `P` does not speak.
  pub Keeps-modify : (f : Db → Db) → ((db : Db) → P db → P (f db)) → Keeps P (modify f)
  unfolding ◌>>=◌
  Keeps-modify f k = record { at = k }

module _ {A B : Type 0} {P : Db → Type 0} where
  pub Keeps-bind :
      (m : Tx A) (f : A → Tx B) → Keeps P m → ((a : A) → Keeps P (f a)) → Keeps P (m >>= f)
  Keeps-bind m f km kf = record {
    at = λ db h. Post-bind (λ _. P) (λ _. P) m f db (km.at db h) (λ a. (kf a).at);
  }

pub ruleset keeps_rules =
    (Keeps-pure, Keeps-raise, Keeps-gets, Keeps-or_raise, Keeps-if, Keeps-raise_if, Keeps-bind)

pub Post-mono :
    {A : Type 0} (R Q : A → Db → Type 0) (r : Result (A × Db))
    → ((a : A) (db' : Db) → R a db' → Q a db')
    → Post R r
    → Post Q r
Post-mono R Q (ok (a, db')) f h = f a db' h
Post-mono R Q (err e) f h = tt

-- What follows a test may use that the test did not raise.
pub Keeps-raise_if-then :
    {B : Type 0} {P : Db → Type 0} (b : Bool) (e : Error) (k : Unit {0} → Tx B)
    → (b ≡ false → Keeps P (k tt))
    → Keeps P (raise_if b e >>= k)
unfolding ◌>>=◌
Keeps-raise_if-then true e k h = record { at = λ db p. tt }
Keeps-raise_if-then false e k h = record { at = λ db p. (h refl).at db p }

-- A test writes nothing.
pub raise_if-same : (b : Bool) (e : Error) (db : Db) → Post (λ _ db'. db' ≡ db) (raise_if b e db)
unfolding ◌>>=◌
raise_if-same true e db = tt
raise_if-same false e db = refl

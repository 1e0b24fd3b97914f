-- ===== src/Store/Transaction.antt =====
-- A database transaction (`transaction.atomic`): the new database and a value, or an exception, with
-- which everything that the transaction wrote is rolled back. `unfolding ◌>>=◌` opens the steps too.
use ludora.Common.{Bool, true, false, Option, none, some}
use ludora.Store.Rows.{Db}
use ludora.Store.Errors.{Error, Result, ok, err}

abbrev pub Tx : Type 0 → Type 0
Tx A = Db → Result (A × Db)

module _ {A : Type 0} where
  pub pure : A → Tx A
  pure a db = ok (a, db)

  pub raise : Error → Tx A
  raise e db = err e

  -- A query.
  pub gets : (Db → A) → Tx A
  gets f db = ok (f db, db)

  -- A value that must be there, as by `.get()`.
  pub or_raise : Option A → Error → Tx A
  or_raise none e db = err e
  or_raise (some a) e db = ok (a, db)

-- `if test: raise e`
pub raise_if : Bool → Error → Tx (Unit {0})
raise_if true e db = err e
raise_if false e db = ok (tt, db)

-- A write.
pub modify : (Db → Db) → Tx (Unit {0})
modify f db = ok (tt, f db)

infixl 5 ◌>>=◌ ◌>>◌
unfoldable pub ◌>>=◌ : {A B : Type 0} → Tx A → (A → Tx B) → Tx B
unfolding pure raise gets or_raise raise_if modify
◌>>=◌ m f db = elim (m db) [ ok (a, db') ↦ f a db' | err e ↦ err e ]

abbrev pub ◌>>◌ : {A B : Type 0} → Tx A → Tx B → Tx B
m >> k = m >>= λ _. k

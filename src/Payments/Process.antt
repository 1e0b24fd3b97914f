-- ===== src/Payments/Process.antt =====
-- A call outside a transaction: a sequence of committed transactions, with calls of a provider and
-- steps of other transactions between them. Its database comes back after an exception too, since
-- what is committed stays. `unfolding ◌>>=◌` opens the steps too.
use ludora.Common.{ℕ}
use ludora.Store.{Db, Tx, Error, Result, ok, err}

abbrev pub Proc : Type 0 → Type 0
Proc A = Db → Result A × Db

abbrev committed : {A : Type 0} → Db → Result (A × Db) → Result A × Db
committed db (ok (a, db')) = (ok a, db')
committed db (err e) = (err e, db)

-- `with transaction.atomic(): …`
pub transact : {A : Type 0} → Tx A → Proc A
transact m db = committed db (m db)

module _ {A : Type 0} where
  pub done : A → Proc A
  done a db = (ok a, db)

  pub throw : Error → Proc A
  throw e db = (err e, db)

-- What the transactions of other processes do to the database in the n-th gap of a call.
abbrev pub Others : Type 0
Others = ℕ → Db → Db

pub interleave : Others → ℕ → Proc (Unit {0})
interleave others n db = (ok tt, others n db)

abbrev continue : {A B : Type 0} → Result A → (A → Proc B) → Proc B
continue (ok a) f db = f a db
continue (err e) f db = (err e, db)

infixl 5 ◌>>=◌ ◌>>◌
unfoldable pub ◌>>=◌ : {A B : Type 0} → Proc A → (A → Proc B) → Proc B
unfolding transact done throw interleave
◌>>=◌ m f db = let (r, db') = m db in continue r f db'

abbrev pub ◌>>◌ : {A B : Type 0} → Proc A → Proc B → Proc B
m >> k = m >>= λ _. k

-- ===== src/Database/Session.antt =====
-- A session with the database server, and internal/platform/postgres/tx.go. Every call to the
-- server can fail, whether or not the server did its work: the failures are an input, one for each
-- call, and no call fails behind their end. No other session works on the tables meanwhile; see System/Concurrent.
use taifa_exchange.Outcome.{external, Error, Result, ok, err, plain, wrap}
use taifa_exchange.Database.Tables.{Tables}
use taifa_exchange.Base.{Bool, List, Option, String, [], if◌then◌else◌, none, some, ◌∷◌}

-- A call that returns an error of the driver or the server, given by its text, and neither
-- `pgx.ErrNoRows` nor an error of the program; `performed` if the server had done its work before that.
pub record Fault : Type 0 where
  pub error : String
  pub performed : Bool

pub record Session : Type 0 where
  pub tables : Tables
  pub faults : List (Option Fault)

abbrev pub Db {ℓ} : Type ℓ → Type ℓ
Db A = Session → Result A × Session

module _ {ℓ} {A : Type ℓ} where
  abbrev pub pure : A → Db A
  pure a s = (ok a, s)

  abbrev pub raise : Error → Db A
  raise e s = (err e, s)

  -- What the server does, in the session that it leaves.
  abbrev pub perform : (Tables → Result A × Tables) → Session → Result A × Session
  perform work s = let (r, t) = work s.tables in (r, record s { tables = t })

  -- One call to the server.
  unfoldable pub call : (Tables → Result A × Tables) → Db A
  call work s = elim s.faults [
    | [] ↦ perform work s
    | none ∷ rest ↦ perform work (record s { faults = rest })
    | some f ∷ rest ↦ (
      err (external f.error),
      record { tables = if f.performed then (work s.tables).1 else s.tables; faults = rest },
    )
  ]

  -- The error of a step, wrapped.
  abbrev pub wrapping : String → Db A → Db A
  wrapping message m s = let (r, s') = m s in (wrap message r, s')

module _ {ℓ κ} {A : Type ℓ} {B : Type κ} where
  abbrev pub continue : Result A → (A → Db B) → Db B
  continue (ok a) f s = f a s
  continue (err e) f s = (err e, s)

  infixl 5 ◌>>=◌ ◌>>◌
  abbrev pub ◌>>=◌ : Db A → (A → Db B) → Db B
  ◌>>=◌ m f s = let (r, s') = m s in continue r f s'

  abbrev pub ◌>>◌ : Db A → Db B → Db B
  m >> k = m >>= λ _. k

-- A pool of connections, with the order of texts that the database sorts by.
pub record Pool : Type 0 where
  pub collate : String → String → Bool

-- A call that changes nothing.
abbrev pub nothing : Tables → Result (Unit {0}) × Tables
nothing t = (ok tt, t)

-- The end of the transaction that began at the tables `before`: an error rolls back, and so does a
-- commit that the server did not perform.
abbrev pub finish {ℓ} : {A : Type ℓ} → Tables → Result A → Db A
finish before (err e) s = (err e, record s { tables = before })
finish before (ok a) s =
    wrapping "commit transaction" (call (λ t. (ok a, s.tables))) (record s { tables = before })

-- The function in the transaction, if that has begun.
abbrev pub run_body {ℓ} : {A : Type ℓ} → Tables → Db A → Result (Unit {0}) → Db A
run_body before f (err e) s = (err e, s)
run_body before f (ok _) s = let (r, s') = f s in finish before r s'

-- `postgres.InTx`, for a function that is not nil. What that function assigns to variables outside
-- it, such as the seeder's summary, is its result here.
unfoldable pub in_tx {ℓ} : {A : Type ℓ} → Option Pool → Db A → Db A
in_tx none f s = (err (plain "postgres pool is nil"), s)
in_tx (some pool) f s =
    let (began, s₁) = wrapping "begin transaction" (call nothing) s in run_body s.tables f began s₁

-- ===== src/Database/Quiet.antt =====
-- About internal/platform/postgres/tx.go: calls and transactions where no call fails.
use taifa_exchange.Base.{[], some, ◌≡◌, refl}
use taifa_exchange.Database.Session.{Db, Pool, Session, call, finish, in_tx, nothing, perform}
use taifa_exchange.Database.Tables.{Tables}
use taifa_exchange.Outcome.{Result, err, ok}

module _ {ℓ} {A : Type ℓ} where
  pub call_quiet :
      (work : Tables → Result A × Tables) (s : Session)
      → s.faults ≡ []
      → call work s ≡ perform work s
  unfolding call
  call_quiet work s h = rw h refl

module _ {ℓ} {A : Type ℓ} where
  finish_quiet :
      (before : Tables) (r : Result A) (s : Session) (a : A)
      → r ≡ ok a
      → s.faults ≡ []
      → ((finish before r s).0 ≡ ok a)
        × ((finish before r s).1.tables ≡ s.tables)
        × ((finish before r s).1.faults ≡ [])
  unfolding call
  finish_quiet before (err e) s a k h = cc
  finish_quiet before (ok b) s a k h = (rw h k, rw h refl, rw h refl)

  -- A transaction returns what its function returns, and keeps what it did.
  pub in_tx_quiet :
      (pool : Pool) (f : Db A) (s : Session) (a : A)
      → s.faults ≡ []
      → (f s).0 ≡ ok a
      → (f s).1.faults ≡ []
      → ((in_tx (some pool) f s).0 ≡ ok a)
        × ((in_tx (some pool) f s).1.tables ≡ (f s).1.tables)
        × ((in_tx (some pool) f s).1.faults ≡ [])
  unfolding in_tx
  in_tx_quiet pool f s a h k q =
      rw (call_quiet nothing s h) (finish_quiet s.tables (f s).0 (f s).1 a k q)

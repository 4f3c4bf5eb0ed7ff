-- ===== src/Database/Keeps.antt =====
-- About internal/platform/postgres/tx.go: predicates on the tables that a chain of calls keeps,
-- whatever it returns and whichever calls fail.
use taifa_exchange.Base.{Option, inl, inr, subst, sym}
use taifa_exchange.Database.Atomic.{call_tables, in_tx_atomic}
use taifa_exchange.Database.Session.{◌>>=◌, Db, Pool, Session, call, continue, in_tx}
use taifa_exchange.Database.Tables.{Tables}
use taifa_exchange.Outcome.{Result, err, ok}

module _ {ℓ} (P : Tables → Type ℓ) where
  abbrev pub Keeps {κ} : {A : Type κ} → Db A → Type ℓ
  Keeps m = (s : Session) → P s.tables → P (m s).1.tables

  module _ {κ} {A : Type κ} where
    pub Keeps-call :
        (work : Tables → Result A × Tables)
        → ((t : Tables) → P t → P (work t).1)
        → Keeps (call work)
    Keeps-call work f s h = elim (call_tables work s) [
      | inl same ↦ subst P (sym same) h
      | inr done ↦ subst P (sym done) (f s.tables h)
    ]

    pub Keeps-in_tx : (pool : Option Pool) (m : Db A) → Keeps m → Keeps (in_tx pool m)
    Keeps-in_tx pool m f s h = elim (in_tx_atomic m s pool) [
      | inl same ↦ subst P (sym same) h
      | inr (a, ran, kept) ↦ subst P (sym kept) (f ran.start (subst P (sym ran.same_start) h))
    ]

  module _ {κ μ} {A : Type κ} {B : Type μ} where
    continue-keeps :
        (r : Result A) (k : A → Db B) (s : Session)
        → ((a : A) → Keeps (k a))
        → P s.tables
        → P (continue r k s).1.tables
    continue-keeps (ok a) k s f h = f a s h
    continue-keeps (err e) k s f h = h

    pub Keeps-bind : (m : Db A) (k : A → Db B) → Keeps m → ((a : A) → Keeps (k a)) → Keeps (m >>= k)
    Keeps-bind m k f g s h = continue-keeps (m s).0 k (m s).1 g (f s h)

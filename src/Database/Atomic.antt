-- ===== src/Database/Atomic.antt =====
-- About internal/platform/postgres/tx.go: what a call, a chain of calls and a transaction leave in
-- the tables, whichever calls fail.
use taifa_exchange.Base.{Option, String, arith, ◌≡◌, ◌⊎◌, inl, inr, refl, none, some}
use taifa_exchange.Database.Session.{
  Db, Pool, Session, call, in_tx, nothing, wrapping, finish, run_body, continue,
}
use taifa_exchange.Database.Tables.{Tables}
use taifa_exchange.Outcome.{Result, err, ok}

module _ {ℓ} {A : Type ℓ} where
  -- A call that returns a value has done its work.
  pub call-ok :
      (work : Tables → Result A × Tables) (s : Session) (a : A)
      → (call work s).0 ≡ ok a
      → ((work s.tables).0 ≡ ok a) × ((call work s).1.tables ≡ (work s.tables).1)
  unfolding call
  call-ok work s a h = ground arith

  -- A call leaves the tables alone or does its work.
  pub call_tables :
      (work : Tables → Result A × Tables) (s : Session)
      → ((call work s).1.tables ≡ s.tables) ⊎ ((call work s).1.tables ≡ (work s.tables).1)
  unfolding call
  call_tables work s = ground arith

  pub wrapping-ok :
      (message : String) (m : Db A) (s : Session) (a : A)
      → (wrapping message m s).0 ≡ ok a
      → (m s).0 ≡ ok a
  wrapping-ok message m s a h = ground arith

call-nothing_tables : (s : Session) → (call nothing s).1.tables ≡ s.tables
unfolding call
call-nothing_tables s = ground arith

module _ {ℓ} {A : Type ℓ} (before : Tables) where
  finish-ok :
      (r : Result A) (s : Session) (a : A)
      → (finish before r s).0 ≡ ok a
      → (r ≡ ok a) × ((finish before r s).1.tables ≡ s.tables)
  finish-ok (err e) s a h = cc
  finish-ok (ok b) s a h =
      let done =
        call-ok (λ t. (ok b, s.tables)) (record s { tables = before }) a
          (wrapping-ok "commit transaction" (call (λ t. (ok b, s.tables)))
            (record s { tables = before }) a h) in
      (done.0, done.1)

  finish_tables :
      (r : Result A) (s : Session)
      → ((finish before r s).1.tables ≡ before)
        ⊎ ((a : A) × (r ≡ ok a) × ((finish before r s).1.tables ≡ s.tables))
  finish_tables (err e) s = inl refl
  finish_tables (ok b) s =
      elim (call_tables (λ t. (ok b, s.tables)) (record s { tables = before })) [
        | inl h ↦ inl h
        | inr h ↦ inr (b, refl, h)
      ]

module _ {ℓ} {A : Type ℓ} (f : Db A) (s : Session) where
  -- The function ran, from the tables at the start of the transaction, and returned `a`.
  pub record Ran (a : A) : Type ℓ where
    pub start : Session
    pub same_start : start.tables ≡ s.tables
    pub value : (f start).0 ≡ ok a

  run_body-ok :
      (began : Result (Unit {0})) (s₁ : Session) (a : A)
      → s₁.tables ≡ s.tables
      → (run_body s.tables f began s₁).0 ≡ ok a
      → (r : Ran a) × ((run_body s.tables f began s₁).1.tables ≡ (f r.start).1.tables)
  run_body-ok (err e) s₁ a same h = cc
  run_body-ok (ok _) s₁ a same h =
      let done = finish-ok s.tables (f s₁).0 (f s₁).1 a h in
      (record { start = s₁; same_start = same; value = done.0 }, done.1)

  -- A transaction that returns a value has kept what its function did.
  pub in_tx-ok :
      (pool : Option Pool) (a : A)
      → (in_tx pool f s).0 ≡ ok a
      → (r : Ran a) × ((in_tx pool f s).1.tables ≡ (f r.start).1.tables)
  unfolding in_tx
  in_tx-ok none a h = cc
  in_tx-ok (some pool) a h =
      run_body-ok (wrapping "begin transaction" (call nothing) s).0 (call nothing s).1 a
        (call-nothing_tables s) h

  run_body_tables :
      (began : Result (Unit {0})) (s₁ : Session)
      → s₁.tables ≡ s.tables
      → ((run_body s.tables f began s₁).1.tables ≡ s.tables)
        ⊎ ((a : A) × (r : Ran a) × ((run_body s.tables f began s₁).1.tables ≡ (f r.start).1.tables))
  run_body_tables (err e) s₁ same = inl same
  run_body_tables (ok _) s₁ same = elim (finish_tables s.tables (f s₁).0 (f s₁).1) [
    | inl h ↦ inl h
    | inr (a, v, h) ↦ inr (a, record { start = s₁; same_start = same; value = v }, h)
  ]

  -- Whatever InTx returns and whichever calls fail, the tables are unchanged, or the function
  -- returned a value from the tables at the start and the tables are those that it left.
  pub in_tx_atomic :
      (pool : Option Pool)
      → ((in_tx pool f s).1.tables ≡ s.tables)
        ⊎ ((a : A) × (r : Ran a) × ((in_tx pool f s).1.tables ≡ (f r.start).1.tables))
  unfolding in_tx
  in_tx_atomic none = inl refl
  in_tx_atomic (some pool) =
      run_body_tables (wrapping "begin transaction" (call nothing) s).0 (call nothing s).1
        (call-nothing_tables s)

-- A chain that returns a value: its first step returned one, and the rest ran behind it.
pub continue-ok {ℓ κ} :
    {A : Type ℓ} {B : Type κ} (r : Result A) (f : A → Db B) (s : Session) (b : B)
    → (continue r f s).0 ≡ ok b
    → (a : A) × (r ≡ ok a) × (continue r f s ≡ f a s)
continue-ok (ok a) f s b h = (a, refl, refl)
continue-ok (err e) f s b h = cc

-- ===== src/System/Stable.antt =====
-- About the program over time: what every operation keeps holds of all the tables that are reached.
use taifa_exchange.Audit.Event.{Event, with_defaults}
use taifa_exchange.Audit.Outbox.{create, insert, outbox_row}
use taifa_exchange.Base.{Option, inl, inr, none, some, subst, sym}
use taifa_exchange.Database.Keeps.{Keeps, Keeps-call}
use taifa_exchange.Database.Session.{Pool}
use taifa_exchange.Database.Statements.{insert_outbox_row}
use taifa_exchange.Database.Tables.{Tables, OutboxRow}
use taifa_exchange.Exchange.Model.{AuthorizeResult}
use taifa_exchange.Exchange.Service.{Surroundings}
use taifa_exchange.Exchange.Service.Laws.{Recordable, recorded}
use taifa_exchange.Exchange.Service.Outcomes.{authorize_atomic}
use taifa_exchange.Ids.{Draw}
use taifa_exchange.Policy.Seed.Keeps.{KeptBySeeds, seed_with-Keeps}
use taifa_exchange.System.{Step, Steps, authorizes, creates, here, next, seeds}
use taifa_exchange.Text.{Unicode}

module _ {ℓ} ⦃u : Unicode⦄ (P : Tables → Type ℓ) where
  -- Kept by every statement, and by the rows of a decision and of its event.
  pub record Stable : Type ℓ where
    pub statements : KeptBySeeds P
    pub record_both :
        (env : Surroundings) (result : AuthorizeResult) (t : Tables)
        → Recordable env result t
        → P t
        → P (recorded env result t)

module _ {ℓ} ⦃u : Unicode⦄ (P : Tables → Type ℓ) where
  -- Creating an event keeps what its statement keeps.
  pub create-Keeps :
      ((r : OutboxRow) (t : Tables) → P t → P (insert_outbox_row r t).1)
      → (d : Draw) (repository : Option (Option Pool)) (event : Event)
      → Keeps P (create d repository event)
  unfolding create insert
  create-Keeps kept d none event = λ s h. h
  create-Keeps kept d (some none) event = λ s h. h
  create-Keeps kept d (some (some pool)) event =
      Keeps-call P (insert_outbox_row (outbox_row (with_defaults d event)))
        (kept (outbox_row (with_defaults d event)))

module _ {ℓ} ⦃u : Unicode⦄ (P : Tables → Type ℓ) (stable : Stable P) where
  pub Step-keeps : (t t' : Tables) → Step t t' → P t → P t'
  Step-keeps t t' (seeds draws policies seeder s same e) h =
      subst P (sym e)
        (seed_with-Keeps P stable.statements draws policies seeder s (subst P (sym same) h))
  Step-keeps t t' (creates d repository event s same e) h =
      subst P (sym e)
        (create-Keeps P stable.statements.outbox d repository event s (subst P (sym same) h))
  Step-keeps t t' (authorizes env service input s same e) h =
      let before = subst P (sym same) h in
      subst P (sym e) (elim (authorize_atomic env service input s) [
        | inl unchanged ↦ subst P (sym unchanged) before
        | inr (result, kept) ↦
            subst P (sym kept.rows) (stable.record_both env result s.tables kept.fits before)
      ])

  -- What is stable and holds of the tables now, holds of them after any number of operations.
  pub Steps-keeps : {t t' : Tables} → Steps t t' → P t → P t'
  Steps-keeps here h = h
  Steps-keeps (next {a} {b} steps step) h = Step-keeps a b step (Steps-keeps steps h)

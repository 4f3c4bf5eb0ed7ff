-- ===== src/System/Concurrent/Interleaved.antt =====
-- About requests that are served at the same time: what holds of the tables in every order.
use taifa_exchange.Base.{Bool, inl, inr, subst, sym, ◌≡◌}
use taifa_exchange.Database.Tables.{Tables, empty_tables}
use taifa_exchange.Database.Session.{Session}
use taifa_exchange.Exchange.Service.Laws.{conclude_atomic}
use taifa_exchange.Policy.Seed.Keeps.{seed_with-Keeps}
use taifa_exchange.System.Concurrent.{
  Move, Moves, Pending, State, creates_event, idle, looks_up, moving, persisted, persists,
  seeds_policies, still,
}
use taifa_exchange.System.Growth.{Grown, Grown-Stable, Grown-refl}
use taifa_exchange.System.Integrity.{Sound, Sound-Stable}
use taifa_exchange.System.Stable.{Stable, create-Keeps}
use taifa_exchange.System.Trail.{Audited, Audited-Stable}
use taifa_exchange.Exchange.Service.{lookups}
use taifa_exchange.Exchange.Service.Lookups.{lookups-Explained}
use taifa_exchange.Outcome.{ok}
use taifa_exchange.System.Concurrent.{ExplainedBy}
use taifa_exchange.Text.{Unicode}

module _ ⦃u : Unicode⦄ where
  -- A result that the lookups give is explained by the tables that they saw.
  pub looks_up-ExplainedBy :
      (t : Tables) (p : Pending) (s : Session)
      → s.tables ≡ t
      → (lookups p.env p.service p.input s).0 ≡ ok p.result
      → ExplainedBy t p
  looks_up-ExplainedBy t p s same came =
      subst (λ (x : Tables). ExplainedBy x p) same
        (lookups-Explained p.env p.service p.input s p.result came)

module _ {ℓ} ⦃u : Unicode⦄ (P : Tables → Type ℓ) (stable : Stable P) where
  persisted-keeps :
      (p : Pending) (s : Session) (t : Tables) → s.tables ≡ t → P t → P (persisted p s)
  persisted-keeps p s t same h =
      let before = subst P (sym same) h in
      elim (conclude_atomic p.env p.service p.result s) [
        | inl unchanged ↦ subst P (sym unchanged) before
        | inr (rows, fits) ↦
            subst P (sym rows) (stable.record_both p.env p.result s.tables fits before)
      ]

  pub Move-keeps : (b : Bool) (x y : State) → Move b x y → P x.tables → P y.tables
  Move-keeps b x y (looks_up p s same came) h = h
  Move-keeps b x y (persists before p after s place same) h = persisted-keeps p s x.tables same h
  Move-keeps b x y (creates_event d repository event s same) h =
      create-Keeps P stable.statements.outbox d repository event s (subst P (sym same) h)
  Move-keeps b x y (seeds_policies draws policies seeder s on same) h =
      seed_with-Keeps P stable.statements draws policies seeder s (subst P (sym same) h)

  -- What is stable and holds of the tables now, holds of them after any moves.
  pub Moves-keeps : {b : Bool} {x y : State} → Moves b x y → P x.tables → P y.tables
  Moves-keeps still h = h
  Moves-keeps (moving {y} {z} moves move) h = Move-keeps _ y z move (Moves-keeps moves h)

module _ ⦃u : Unicode⦄ where
  pub Move-Grown : (b : Bool) (x y : State) → Move b x y → Grown x.tables y.tables
  Move-Grown b x y move =
      Move-keeps (Grown x.tables) (Grown-Stable x.tables) b x y move (Grown-refl x.tables)

  -- However the lookups and the transactions of any number of requests, seedings and events are
  -- interleaved and whichever calls fail: the tables that are reached from the empty ones meet the
  -- constraints, that is, keys are distinct, references are to rows that are there and CHECK
  -- constraints hold, and every decision has an audit event in the outbox that names it and says
  -- whether it was allowed.
  pub Moves-SoundAndAudited :
      (x : State) (b : Bool) → Moves b (idle empty_tables) x → Sound x.tables × Audited x.tables
  Moves-SoundAndAudited x b moves = (
    Moves-keeps Sound Sound-Stable moves
        (record { policies = tt; roles = tt; capabilities = tt; decisions = tt; outbox = tt }),
    Moves-keeps Audited Audited-Stable moves tt,
  )

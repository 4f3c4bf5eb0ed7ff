-- ===== src/Command/Seed/Laws.antt =====
-- About cmd/taifa-exchange-seed/main.go: what its exit status says, and a second run.
use taifa_exchange.App.{postgres_config}
use taifa_exchange.Base.{
  All, [], ◌≡◌, ◌⊎◌, inl, inr, none, refl, subst, sym, Bool-cases, ◌==◌, ℤ, ap, false, arith, ◌∙◌,
  some,
}
use taifa_exchange.Command.Seed.{SeedRun, seed_main, seed_opened, seed_report}
use taifa_exchange.Config.{Getenv, load}
use taifa_exchange.Database.Driver.{Driver, open_pool}
use taifa_exchange.Database.Session.{Pool, Session}
use taifa_exchange.Ids.{Draw}
use taifa_exchange.Outcome.{Error, Result, Result-cases, err, ok}
use taifa_exchange.Policy.Seed.{SeedPolicy, SeedSummary, no_changes, new_seeder}
use taifa_exchange.Policy.Seed.Canonical.{canonical_policies, seed_canonical}
use taifa_exchange.Policy.Seed.Laws.{seed_again, seed_atomic, seed_with-Seeded}
use taifa_exchange.Policy.Seed.Seeded.{Seeded}
use taifa_exchange.Policy.Seed.{seed_with}
use taifa_exchange.Policy.Seed.Present.{IsPresent, All-IsPresent, canonical-AreApart}
use taifa_exchange.Policy.Seed.Stored.{seed_with-HasOrigin}
use taifa_exchange.Text.{Unicode}

module _ ⦃u : Unicode⦄ (driver : Driver) (getenv : Getenv) where
  abbrev pub timeout : ℤ
  timeout = (load getenv).seed.timeout

  abbrev opening : Result Pool
  opening = open_pool driver (postgres_config (load getenv).database)

  -- The command got as far as the seeding, with this pool.
  record Seeds (draws : SeedPolicy → Draw) (s : Session) (x : SeedRun × Session) : Type 0 where
    pool : Pool
    configured : ((load getenv).database.dsn == "") ≡ false
    opened : opening ≡ ok pool
    run : x ≡ seed_opened draws timeout (ok pool) s

  -- It failed before that.
  abbrev Refused : Session → SeedRun × Session → Type 0
  Refused s x = (x.0.status ≡ 1) × (x.0.printed ≡ none) × (x.1 ≡ s)

  seed_main_cases :
      (draws : SeedPolicy → Draw) (s : Session)
      → Refused s (seed_main draws driver getenv s)
        ⊎ Seeds draws s (seed_main draws driver getenv s)
  unfolding seed_main
  seed_main_cases draws s = elim (Bool-cases ((load getenv).database.dsn == "")) [
    | inl e ↦ rw e (inl (refl, refl, refl))
    | inr e ↦ elim (Result-cases opening) [
      | inl (x, h) ↦ rw (e, h) (inl (refl, refl, refl))
      | inr (pool, h) ↦ rw e (
          inr (record {
            pool = pool;
            configured = e;
            opened = h;
            run = ap (λ (o : Result Pool). seed_opened draws timeout o s) h;
          }))
    ]
  ]

  -- A run that succeeded, and one that did not.
  abbrev pub Succeeded : SeedSummary → Session → SeedRun × Session → Type 0
  Succeeded summary s x =
      (x.0 ≡ seed_report timeout (ok summary))
      × All (IsPresent s.tables x.1.tables) canonical_policies

  abbrev pub Failed : Session → SeedRun × Session → Type 0
  Failed s x =
      (x.0.status ≡ 1)
      × (x.0.printed ≡ none)
      × ((x.1.tables ≡ s.tables) ⊎ All (IsPresent s.tables x.1.tables) canonical_policies)

  canonical-IsPresent :
      (draws : SeedPolicy → Draw) (s : Session) (pool : Pool)
      → let t = (seed_with draws canonical_policies (new_seeder (some pool)) s).1.tables in
        All (Seeded t) canonical_policies → All (IsPresent s.tables t) canonical_policies
  canonical-IsPresent draws s pool seeded =
      All-IsPresent s.tables _ canonical_policies
        (seed_with-HasOrigin s.tables canonical_policies draws (new_seeder (some pool)) s refl)
        canonical-AreApart seeded

  report-Failed :
      (draws : SeedPolicy → Draw) (s : Session) (pool : Pool) (e : Error)
      → (seed_canonical draws (new_seeder (some pool)) s).0 ≡ err e
      → Failed s (seed_opened draws timeout (ok pool) s)
  unfolding seed_canonical
  report-Failed draws s pool e h = rw h (
    refl,
    refl,
    elim (seed_atomic draws canonical_policies (new_seeder (some pool)) s) [
      | inl same ↦ inl same
      | inr seeded ↦ inr (canonical-IsPresent draws s pool seeded)
    ],
  )

  report-Succeeded :
      (draws : SeedPolicy → Draw) (s : Session) (pool : Pool) (x : SeedSummary)
      → (seed_canonical draws (new_seeder (some pool)) s).0 ≡ ok x
      → Succeeded x s (seed_opened draws timeout (ok pool) s)
  unfolding seed_canonical
  report-Succeeded draws s pool x h = (
    rw h refl,
    canonical-IsPresent draws s pool
        (seed_with-Seeded draws canonical_policies (new_seeder (some pool)) s x h),
  )

  -- Whatever the environment holds and whichever calls of the database fail, the command exits with
  -- 0, its pool closed, and prints a summary, and every canonical policy is present; or it exits
  -- with 1 and prints none, and the tables are unchanged or every canonical policy is present.
  -- Present: the row with all its fields is in the table, unless a row that was there before the
  -- run has its identifier or its route, and so is a row for each of its roles and capabilities,
  -- unless a row that was there before has the identifier of that one.
  pub seed_main_ends :
      (draws : SeedPolicy → Draw) (s : Session)
      → ((summary : SeedSummary) × Succeeded summary s (seed_main draws driver getenv s))
        ⊎ Failed s (seed_main draws driver getenv s)
  seed_main_ends draws s = elim (seed_main_cases draws s) [
    | inl (status, printed, same) ↦ inr (status, printed, inl (ap (λ (z : Session). z.tables) same))
    | inr run ↦
        subst
          (λ (x : SeedRun × Session).
            ((summary : SeedSummary) × Succeeded summary s x) ⊎ Failed s x)
          (sym run.run)
          (elim (Result-cases (seed_canonical draws (new_seeder (some run.pool)) s).0) [
            | inl (e, h) ↦ inr (report-Failed draws s run.pool e h)
            | inr (summary, h) ↦ inl (summary, report-Succeeded draws s run.pool summary h)
          ])
  ]

  -- The command that gets as far as the seeding.
  seed_main-opened :
      (draws : SeedPolicy → Draw) (s : Session) (pool : Pool)
      → ((load getenv).database.dsn == "") ≡ false
      → opening ≡ ok pool
      → seed_main draws driver getenv s ≡ seed_opened draws timeout (ok pool) s
  unfolding seed_main
  seed_main-opened draws s pool has h =
      rw has (ap (λ (o : Result Pool). seed_opened draws timeout o s) h)

  -- After a run that exited with 0, a second one from the same tables, with the same environment
  -- and driver and no failing call, exits with 0 too, prints that nothing was inserted and changes
  -- no table.
  pub seed_main_again :
      (draws later : SeedPolicy → Draw) (s s' : Session)
      → (seed_main draws driver getenv s).0.status ≡ 0
      → s'.tables ≡ (seed_main draws driver getenv s).1.tables
      → s'.faults ≡ []
      → ((seed_main later driver getenv s').0 ≡ seed_report timeout (ok no_changes))
        × ((seed_main later driver getenv s').1.tables ≡ s'.tables)
  unfolding seed_canonical
  seed_main_again draws later s s' zero_status same quiet = elim (seed_main_cases draws s) [
    | inl (status, printed, kept) ↦ absurd (omega (arith, status, zero_status))
    | inr run ↦ elim (Result-cases (seed_canonical draws (new_seeder (some run.pool)) s).0) [
      | inl (e, h) ↦ absurd (
          omega (
            arith,
            zero_status,
            ap (λ (x : SeedRun × Session). x.0.status) run.run,
            (report-Failed draws s run.pool e h).0,
          ))
      | inr (summary, h) ↦
          let again =
            seed_again draws later canonical_policies (new_seeder (some run.pool)) s summary h
              run.pool s' (same ∙ ap (λ (x : SeedRun × Session). x.1.tables) run.run) quiet in
          subst
            (λ (x : SeedRun × Session).
              (x.0 ≡ seed_report timeout (ok no_changes)) × (x.1.tables ≡ s'.tables))
            (sym (seed_main-opened later s' run.pool run.configured run.opened))
            (ap (seed_report timeout) again.0, again.1)
    ]
  ]

-- ===== src/App/Laws.antt =====
-- About internal/app/app.go, New and /readyz, and internal/platform/postgres/db.go, Open.
use taifa_exchange.Base.{
  Bool-cases, Option, ℕ, ◌≡◌, ◌≢◌, ◌⊎◌, ◌↔◌, ◌==◌, ◌∙◌, arith, false, inl, inr, none, some, refl,
  test_of_ne, sym, ap,
}
use taifa_exchange.Config.{Config}
use taifa_exchange.Database.Driver.{Driver, open_pool, ping}
use taifa_exchange.Database.Driver.Laws.{open_pool-ok}
use taifa_exchange.App.{
  App, postgres_config, Readiness, assemble, check_database, check_identity, new_app, open_client,
  open_database, readiness, ready_so_far, readyz,
}
use taifa_exchange.Database.Session.{Pool}
use taifa_exchange.Exchange.Handler.Laws.{status_of}
use taifa_exchange.Httpserver.Writer.{Context, Writer, correlation_id_from_context}
use taifa_exchange.Outcome.{Result-cases, ok}
use taifa_exchange.Taifaid.Client.{Network, is_configured, ready}
use taifa_exchange.Taifaid.Dto.{ReadyResponse}
use taifa_exchange.Httpserver.Writer.Laws.{write_json-sent}

apart : (let n : ℕ = 200 in n) ≢ 503
apart h = ground arith

module _ (driver : Driver) (network : Network) (app : App) (context : Context) where
  -- There is no database, or it answers a ping.
  abbrev pub DatabaseUp : Type 0
  DatabaseUp =
      (app.db_pool ≡ none)
      ⊎ ((pool : Pool) × (app.db_pool ≡ some pool) × (driver.ping_pool pool ≡ ok tt))

  abbrev pub IdentityUp : Type 0
  IdentityUp =
      (is_configured app.taifa_id_client ≡ false)
      ⊎ ((x : ReadyResponse) × (ready network app.taifa_id_client
              (correlation_id_from_context context)
            ≡ ok x))

  -- What is known of the two checks.
  database_cases :
      (o : Option Pool)
      → app.db_pool ≡ o
      → (((check_database driver o ready_so_far).status_code ≡ 200) × DatabaseUp)
        ⊎ (((check_database driver o ready_so_far).status_code ≡ 503) × ¬ DatabaseUp)
  unfolding check_database ping
  database_cases none h = inl (refl, inl h)
  database_cases (some pool) h = elim (Result-cases (driver.ping_pool pool)) [
    | inl (e, k) ↦
        rw k (inr (refl, λ up. elim up [ inl no_pool ↦ cc | inr (p, same, up_now) ↦ cc ]))
    | inr (v, k) ↦ rw k (inl (refl, inr (pool, h, k)))
  ]

  identity_cases :
      (r : Readiness)
      → (((check_identity network app.taifa_id_client
              (correlation_id_from_context context)
              r).status_code
            ≡ r.status_code)
          × IdentityUp)
        ⊎ (((check_identity network app.taifa_id_client
                (correlation_id_from_context context)
                r).status_code
              ≡ 503)
            × ¬ IdentityUp)
  unfolding check_identity
  identity_cases r = elim (Bool-cases (is_configured app.taifa_id_client)) [
    | inr h ↦ rw h (inl (refl, inl refl))
    | inl h ↦
        rw h
          (elim (Result-cases
            (ready network app.taifa_id_client (correlation_id_from_context context))) [
              | inl (e, k) ↦
                  rw k (inr (refl, λ up. elim up [ inl off ↦ cc | inr (x, up_now) ↦ cc ]))
              | inr (x, k) ↦ rw k (inl (refl, inr (x, refl)))
            ])
  ]

  readiness_cases :
      (((readiness driver network app context).status_code ≡ 200) × DatabaseUp × IdentityUp)
      ⊎ (((readiness driver network app context).status_code ≡ 503) × ¬ (DatabaseUp × IdentityUp))
  unfolding readiness
  readiness_cases = elim (identity_cases (check_database driver app.db_pool ready_so_far)) [
    | inr (h, down) ↦ inr (h, λ both. down both.1)
    | inl (h, up) ↦ elim (database_cases app.db_pool refl) [
      | inl (k, database) ↦ inl (h ∙ k, database, up)
      | inr (k, database) ↦ inr (h ∙ k, λ both. database both.0)
    ]
  ]

  readyz_status :
      (w : Writer)
      → w.sent ≡ none
      → status_of (readyz driver network app context w).sent
        ≡ (readiness driver network app context).status_code
  unfolding readyz
  readyz_status w new =
      ap status_of (write_json-sent (readiness driver network app context).status_code _ w new)

  -- For a response writer with nothing sent, /readyz sends 200 exactly if the database, where there
  -- is one, answers the ping and the identity service, where a client for it is configured, reports
  -- that it is ready, and 503 exactly if not.
  pub readyz_iff :
      (w : Writer)
      → w.sent ≡ none
      → ((status_of (readyz driver network app context w).sent ≡ 200) ↔ (DatabaseUp × IdentityUp))
        × ((status_of (readyz driver network app context w).sent ≡ 503)
            ↔ ¬ (DatabaseUp × IdentityUp))
  readyz_iff w new =
      let status = readyz_status w new in
      elim readiness_cases [
        | inl (h, database, identity) ↦ (
          (λ _. (database, identity), λ _. status ∙ h),
          (λ k. absurd (apart (sym (status ∙ h) ∙ k)), λ down. absurd (down (database, identity))),
        )
        | inr (h, down) ↦ (
          (λ k. absurd (apart (sym k ∙ status ∙ h)), λ up. absurd (down up)),
          (λ _. down, λ _. status ∙ h),
        )
      ]

-- An application that New returns for a DSN that is not empty has a pool that answered the ping,
-- and its policy repository and its exchange repository both use this pool.
pub new_app-wired :
    (driver : Driver) (cfg : Config) (app : App)
    → new_app driver cfg ≡ ok app
    → cfg.database.dsn ≢ ""
    → (pool : Pool) × (driver.ping_pool pool ≡ ok tt)
      × (app ≡ assemble cfg (some pool) (open_client cfg))
unfolding new_app open_database
new_app-wired driver cfg app h has =
    let test : (cfg.database.dsn == "") ≡ false = test_of_ne _ _ has in
    elim (Result-cases (open_pool driver (postgres_config cfg.database))) [
      | inl (e, k) ↦ ground arith
      | inr (pool, k) ↦
          (pool, open_pool-ok driver (postgres_config cfg.database) pool has k, ground arith)
    ]

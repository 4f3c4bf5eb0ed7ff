-- ===== src/Exchange/Repository/Laws.antt =====
-- About internal/exchange/repository.go, CreateDecisionWithAudit.
use taifa_exchange.Database.Session.{◌>>◌, Db, Session, call, Pool}
use taifa_exchange.Audit.Outbox.{insert, in_transaction, outbox_row}
use taifa_exchange.Database.Atomic.{call-ok, wrapping-ok, continue-ok, in_tx-ok, in_tx_atomic}
use taifa_exchange.Base.{
  arith, false, true, ◌∷◌, ◌≡◌, some, ◌∙◌, Option, ap, inl, inr, none, refl, subst, sym, ◌⊎◌, [],
}
use taifa_exchange.Database.Statements.{
  decision_exists, insert_decision_row, insert_outbox_row, outbox_exists, reference_ok,
}
use taifa_exchange.Database.Tables.{DecisionRow, OutboxRow, Tables, decision_row_ok}
use taifa_exchange.Outcome.{ok, Result}
use taifa_exchange.Audit.Event.{Event, with_defaults}
use taifa_exchange.Exchange.Model.{DecisionRecord}
use taifa_exchange.Exchange.Repository.{decision_row, insert_decision, create_decision_with_audit}
use taifa_exchange.Ids.{Draw}
use taifa_exchange.Text.{Unicode}
use taifa_exchange.Database.Quiet.{in_tx_quiet, call_quiet}

-- The tables with one more decision and one more event.
abbrev pub with_both : DecisionRow → OutboxRow → Tables → Tables
with_both d e t = record t { decisions = d ∷ t.decisions; outbox = e ∷ t.outbox }

-- The constraints that the two rows meet in the tables.
pub record Fits (d : DecisionRow) (e : OutboxRow) (t : Tables) : Type 0 where
  pub checks : decision_row_ok d ≡ true
  pub new_decision : decision_exists d.id t.decisions ≡ false
  pub known_policy : reference_ok d.matched_policy_id t.policies ≡ true
  pub new_event : outbox_exists e.id t.outbox ≡ false

insert_decision_row-ok :
    (d : DecisionRow) (t : Tables)
    → (insert_decision_row d t).0 ≡ ok tt
    → ((insert_decision_row d t).1 ≡ record t { decisions = d ∷ t.decisions })
      × (decision_row_ok d ≡ true)
      × (decision_exists d.id t.decisions ≡ false)
      × (reference_ok d.matched_policy_id t.policies ≡ true)
unfolding insert_decision_row
insert_decision_row-ok d t h = (ground arith, ground arith, ground arith, ground arith)

insert_outbox_row-ok :
    (e : OutboxRow) (t : Tables)
    → (insert_outbox_row e t).0 ≡ ok tt
    → ((insert_outbox_row e t).1 ≡ record t { outbox = e ∷ t.outbox })
      × (outbox_exists e.id t.outbox ≡ false)
unfolding insert_outbox_row
insert_outbox_row-ok e t h = (ground arith, ground arith)

module _ ⦃u : Unicode⦄ (d : Draw) (decision : DecisionRecord) (event : Event) where
  -- The rows that a decision and its event become.
  abbrev pub both_rows : Tables → Tables
  both_rows = with_both (decision_row decision) (outbox_row (with_defaults d event))

  abbrev pub BothFit : Tables → Type 0
  BothFit = Fits (decision_row decision) (outbox_row (with_defaults d event))

  insert_decision-ok :
      (s : Session)
      → (insert_decision (some in_transaction) decision s).0 ≡ ok tt
      → ((insert_decision (some in_transaction) decision s).1.tables
          ≡ record s.tables { decisions = decision_row decision ∷ s.tables.decisions })
        × (decision_row_ok (decision_row decision) ≡ true)
        × (decision_exists decision.id s.tables.decisions ≡ false)
        × (reference_ok (decision_row decision).matched_policy_id s.tables.policies ≡ true)
  unfolding insert_decision decision_row
  insert_decision-ok s h =
      let work = insert_decision_row (decision_row decision) in
      let done =
        call-ok work s tt
          (wrapping-ok "insert exchange authorization decision" (call work) s tt h) in
      let row = insert_decision_row-ok (decision_row decision) s.tables done.0 in
      (done.1 ∙ row.0, row.1, row.2, row.3)

  insert-ok :
      (s : Session)
      → (insert d (some in_transaction) event s).0 ≡ ok tt
      → ((insert d (some in_transaction) event s).1.tables
          ≡ record s.tables { outbox = outbox_row (with_defaults d event) ∷ s.tables.outbox })
        × (outbox_exists (outbox_row (with_defaults d event)).id s.tables.outbox ≡ false)
  unfolding insert
  insert-ok s h =
      let work = insert_outbox_row (outbox_row (with_defaults d event)) in
      let done = call-ok work s tt (wrapping-ok "insert audit outbox event" (call work) s tt h) in
      let row = insert_outbox_row-ok (outbox_row (with_defaults d event)) s.tables done.0 in
      (done.1 ∙ row.0, row.1)

  abbrev body : Db (Unit {0})
  body = insert_decision (some in_transaction) decision >> insert d (some in_transaction) event

  body-ok :
      (s : Session) (t : Tables)
      → s.tables ≡ t
      → (body s).0 ≡ ok tt
      → ((body s).1.tables ≡ both_rows t) × BothFit t
  body-ok s t same h =
      let first = insert_decision (some in_transaction) decision s in
      let second = insert d (some in_transaction) event first.1 in
      let (a, first_ok, run) =
        continue-ok first.0 (λ _. insert d (some in_transaction) event) first.1 tt h in
      let one = insert_decision-ok s first_ok in
      let two = insert-ok first.1 (ap (λ (x : Result (Unit {0}) × Session). x.0) (sym run) ∙ h) in
      let after : (body s).1.tables ≡ second.1.tables =
        ap (λ (x : Result (Unit {0}) × Session). x.1.tables) run in
      let outboxes : first.1.tables.outbox ≡ s.tables.outbox =
        ap (λ (x : Tables). x.outbox) one.0 in
      (
        after
            ∙ two.0
            ∙ ap
                (λ (x : Tables). record x {
                  outbox = outbox_row (with_defaults d event) ∷ x.outbox;
                })
                one.0
            ∙ ap both_rows same,
        subst BothFit same (record {
          checks = one.1;
          new_decision = unfold decision_row in one.2;
          known_policy = one.3;
          new_event = rw (← outboxes) two.1;
        }),
      )

  -- Where CreateDecisionWithAudit reports success, the rows of the decision and of the event were
  -- added, nothing else changed, and the two rows met the constraints.
  pub create-ok :
      (repository : Option (Option Pool)) (s : Session)
      → (create_decision_with_audit d repository decision event s).0 ≡ ok tt
      → ((create_decision_with_audit d repository decision event s).1.tables ≡ both_rows s.tables)
        × BothFit s.tables
  unfolding create_decision_with_audit
  create-ok none s h = cc
  create-ok (some none) s h = cc
  create-ok (some (some pool)) s h =
      let (ran, kept) = in_tx-ok body s (some pool) tt h in
      let done = body-ok ran.start s.tables ran.same_start ran.value in (kept ∙ done.0, done.1)

  -- Whatever CreateDecisionWithAudit reports and whichever calls fail, the tables are unchanged, or
  -- the rows of the decision and of the event were both added and met the constraints.
  pub create_atomic :
      (repository : Option (Option Pool)) (s : Session)
      → ((create_decision_with_audit d repository decision event s).1.tables ≡ s.tables)
        ⊎ (((create_decision_with_audit d repository decision event s).1.tables
              ≡ both_rows s.tables)
            × BothFit s.tables)
  unfolding create_decision_with_audit
  create_atomic none s = inl refl
  create_atomic (some none) s = inl refl
  create_atomic (some (some pool)) s = elim (in_tx_atomic body s (some pool)) [
    | inl h ↦ inl h
    | inr (a, ran, kept) ↦
        let done = body-ok ran.start s.tables ran.same_start ran.value in
        inr (kept ∙ done.0, done.1)
  ]

  insert_decision_quiet :
      (s : Session)
      → s.faults ≡ []
      → BothFit s.tables
      → insert_decision (some in_transaction) decision s ≡ (
        ok tt,
        record s {
          tables = record s.tables { decisions = decision_row decision ∷ s.tables.decisions };
        },
      )
  unfolding insert_decision insert_decision_row
  insert_decision_quiet s h fits =
      rw (call_quiet (insert_decision_row (decision_row decision)) s h) rw fits.checks rw
        fits.new_decision rw fits.known_policy refl

  insert_quiet :
      (s : Session)
      → s.faults ≡ []
      → outbox_exists (outbox_row (with_defaults d event)).id s.tables.outbox ≡ false
      → insert d (some in_transaction) event s ≡ (
        ok tt,
        record s {
          tables = record s.tables {
            outbox = outbox_row (with_defaults d event) ∷ s.tables.outbox;
          };
        },
      )
  unfolding insert insert_outbox_row
  insert_quiet s h new_event =
      rw (call_quiet (insert_outbox_row (outbox_row (with_defaults d event))) s h) rw new_event refl

  body_quiet :
      (s : Session)
      → s.faults ≡ []
      → BothFit s.tables
      → body s ≡ (ok tt, record s { tables = both_rows s.tables })
  body_quiet s h fits = rw (insert_decision_quiet s h fits) (insert_quiet _ h fits.new_event)

  -- CreateDecisionWithAudit reports success where its repository has a pool, no call fails and the
  -- two rows meet the constraints.
  pub create_total :
      (pool : Pool) (s : Session)
      → s.faults ≡ []
      → BothFit s.tables
      → (create_decision_with_audit d (some (some pool)) decision event s).0 ≡ ok tt
  unfolding create_decision_with_audit
  create_total pool s h fits =
      let run = body_quiet s h fits in
      (in_tx_quiet pool body s tt h (ap (λ (x : Result (Unit {0}) × Session). x.0) run)
        (ap (λ (x : Result (Unit {0}) × Session). x.1.faults) run ∙ h)).0

-- ===== src/System/Concurrent/Finishing.antt =====
-- About requests that are served at the same time: a call of Authorize that has come to its result
-- can still record it, whatever the others have done.
use taifa_exchange.Base.{
  All, Bool, In, List, Option, String, [], ◌++◌, ◌∷◌, ◌≡◌, false, map_All, some, subst, sym, true,
  All-at, All-remove,
}
use taifa_exchange.Database.Session.{Pool, Session}
use taifa_exchange.Database.Statements.{decision_exists, outbox_exists, reference_ok}
use taifa_exchange.Database.Tables.{PolicyRow, Tables, decision_row_ok}
use taifa_exchange.Exchange.Repository.{decision_row}
use taifa_exchange.Exchange.Service.{conclude, repository_of}
use taifa_exchange.Exchange.Service.Laws.{Recordable, recorded, conclude-ok}
use taifa_exchange.Exchange.Service.Total.{
  Explained-checks, Explained-id, Explained-reference, conclude_total, event_id,
}
use taifa_exchange.Ids.{new_audit_event_id, new_decision_id}
use taifa_exchange.Outcome.{ok}
use taifa_exchange.System.Concurrent.{
  Move, Moves, Pending, State, creates_event, idle, looks_up, moving, persists, seeds_policies,
  still, ExplainedBy,
}
use taifa_exchange.System.Concurrent.Interleaved.{Move-Grown, looks_up-ExplainedBy}
use taifa_exchange.System.Growth.{Grown}
use taifa_exchange.System.Integrity.{reference_ok-cons}
use taifa_exchange.Text.{Unicode}
use taifa_exchange.Audit.Outbox.{outbox_row}

reference_ok-append :
    (zs ps : List PolicyRow) (o : Option String)
    → reference_ok o ps ≡ true
    → reference_ok o (zs ++ ps) ≡ true
reference_ok-append [] ps o h = h
reference_ok-append (z ∷ zs) ps o h =
    reference_ok-cons z (zs ++ ps) o (reference_ok-append zs ps o h)

module _ ⦃u : Unicode⦄ where
  -- The row of a call's decision meets the constraints that are not about identifiers.
  record IsReady (t : Tables) (p : Pending) : Type 0 where
    pub checks : decision_row_ok (decision_row p.result.decision_record) ≡ true
    pub reference :
        reference_ok (decision_row p.result.decision_record).matched_policy_id t.policies ≡ true
    pub id : p.result.decision_record.id ≡ new_decision_id p.env.decision_draw

  ready : (t : Tables) (p : Pending) → ExplainedBy t p → IsReady t p
  ready t p why =
      let s : Session = record { tables = t; faults = [] } in
      record {
        checks = Explained-checks p.env p.service p.input s p.result why;
        reference = Explained-reference p.env p.service p.input s p.result why;
        id = Explained-id p.env p.service p.input s p.result why;
      }

  Grown-IsReady : (t t' : Tables) (p : Pending) → Grown t t' → IsReady t p → IsReady t' p
  Grown-IsReady t t' p grown h =
      let (zs, more) = grown.policies in
      record {
        checks = h.checks;
        reference =
            subst
              (λ (ps : List PolicyRow).
                reference_ok (decision_row p.result.decision_record).matched_policy_id ps ≡ true)
              (sym more) (reference_ok-append zs t.policies _ h.reference);
        id = h.id;
      }

  All-IsReady :
      (b : Bool) (x y : State)
      → Move b x y
      → All (IsReady x.tables) x.pending
      → All (IsReady y.tables) x.pending
  All-IsReady b x y move h =
      map_All (λ p. Grown-IsReady x.tables y.tables p (Move-Grown b x y move)) x.pending h

  Move-IsReady :
      (b : Bool) (x y : State)
      → Move b x y
      → All (IsReady y.tables) x.pending
      → All (IsReady y.tables) y.pending
  Move-IsReady b x y (looks_up p s seen came) h =
      (ready x.tables p (looks_up-ExplainedBy x.tables p s seen came), h)
  Move-IsReady b x y (persists before p after s place same) h =
      (All-remove (IsReady y.tables) before p after (subst (All (IsReady y.tables)) place h)).1
  Move-IsReady b x y (creates_event d repository event s same) h = h
  Move-IsReady b x y (seeds_policies draws policies seeder s on same) h = h

  Moves-IsReady :
      (b : Bool) (t : Tables) (x : State) → Moves b (idle t) x → All (IsReady x.tables) x.pending
  Moves-IsReady b t x still = tt
  Moves-IsReady b t x (moving {y} {z} moves move) =
      Move-IsReady b y z move (All-IsReady b y z move (Moves-IsReady b t y moves))

  -- However the lookups and the transactions of any number of requests, seedings and events were
  -- interleaved before: a call of Authorize that has come to its result returns it and records it
  -- with its audit event, where no call of the database fails, its repository has a pool, and the
  -- identifiers of its decision and of its event are not yet in the tables.
  pub pending_finishes :
      (b : Bool) (t : Tables) (x : State) (p : Pending) (pool : Pool) (s : Session)
      → Moves b (idle t) x
      → In p x.pending
      → s.tables ≡ x.tables
      → s.faults ≡ []
      → repository_of p.service ≡ some (some pool)
      → decision_exists (new_decision_id p.env.decision_draw) s.tables.decisions ≡ false
      → outbox_exists (new_audit_event_id p.env.event_draw) s.tables.outbox ≡ false
      → ((conclude p.env p.service p.result s).0 ≡ ok p.result)
        × ((conclude p.env p.service p.result s).1.tables ≡ recorded p.env p.result s.tables)
  unfolding decision_row outbox_row
  pending_finishes b t x p pool s moves under_way same quiet has new_decision new_event =
      let is_ready =
        subst (λ (t' : Tables). IsReady t' p) (sym same)
          (All-at (IsReady x.tables) x.pending p (Moves-IsReady b t x moves) under_way) in
      let fits : Recordable p.env p.result s.tables = record {
        checks = is_ready.checks;
        new_decision = rw is_ready.id new_decision;
        known_policy = is_ready.reference;
        new_event = rw (event_id p.env p.service p.input s p.result) new_event;
      } in
      let done = conclude_total p.env p.service p.input s pool p.result s has quiet fits in
      (done, (conclude-ok p.env p.service p.result p.result s done).1)

-- ===== src/Policy/Seed/Laws.antt =====
-- About internal/policy/seed.go, SeedCanonical.
use taifa_exchange.Database.Session.{Pool, Session, call, pure, wrapping}
use taifa_exchange.Audit.Outbox.{insert, outbox_row}
use taifa_exchange.Base.{
  All, Bool, List, Option, [], ◌∷◌, ◌≡◌, ◌∙◌, ap, false, none, refl, some, subst, sym, true, ◌+◌,
  inl, inr, ◌⊎◌,
}
use taifa_exchange.Database.Atomic.{continue-ok, in_tx-ok, in_tx_atomic}
use taifa_exchange.Database.Quiet.{in_tx_quiet}
use taifa_exchange.Database.Statements.{insert_outbox_row}
use taifa_exchange.Outcome.{Result, ok}
use taifa_exchange.Policy.Seed.{
  SeedPolicy, SeedSummary, insert_seed_policy, no_changes, policy_seeded_audit_event, record_seeded,
  seed_all, seed_policy, seed_roles, seed_with,
}
use taifa_exchange.Policy.Seed.Seeded.{
  Extends, Seeded, Seeded-Extends, Extends-refl, Extends-trans, insert_outbox_row-Extends,
  map_RoleSkipped,
}
use taifa_exchange.Text.{Unicode}
use taifa_exchange.Ids.{Draw}
use taifa_exchange.Audit.Event.{with_defaults}
use taifa_exchange.Policy.Seed.Steps.{
  after_call, insert_seed_policy-ok, insert_seed_policy_skipped, seed_capabilities-ok,
  seed_capabilities_skipped, seed_roles-ok, seed_roles_skipped,
}

module _ ⦃u : Unicode⦄ where
  record_seeded-ok :
      (d : Draw) (p : SeedPolicy) (b : Bool) (m x : SeedSummary) (s : Session)
      → (record_seeded d p b m s).0 ≡ ok x
      → Extends s.tables (record_seeded d p b m s).1.tables
  unfolding record_seeded insert
  record_seeded-ok d p false m x s h = Extends-refl s.tables
  record_seeded-ok d p true m x s h =
      let work = insert_outbox_row (outbox_row (with_defaults d (policy_seeded_audit_event d p))) in
      let first = wrapping "insert audit outbox event" (call work) s in
      let (v, inserted, run) =
        continue-ok first.0
          (λ _. pure (record m { policies = m.policies + 1; audit_events = m.audit_events + 1 }))
          first.1 x h in
      subst (λ (z : Result SeedSummary × Session). Extends s.tables z.1.tables) (sym run)
        (after_call (λ t. Extends s.tables t) _ work s v inserted
          (λ _. insert_outbox_row-Extends _ s.tables))

  seed_policy-ok :
      (d : Draw) (p : SeedPolicy) (m x : SeedSummary) (s : Session)
      → (seed_policy d p m s).0 ≡ ok x
      → Seeded (seed_policy d p m s).1.tables p × Extends s.tables (seed_policy d p m s).1.tables
  unfolding seed_policy
  seed_policy-ok d p m x s h =
      let first = insert_seed_policy p s in
      let (b, inserted, run1) = continue-ok first.0 _ first.1 x h in
      let h1 = ap (λ (z : Result SeedSummary × Session). z.0) (sym run1) ∙ h in
      let second = record_seeded d p b m first.1 in
      let (m2, recorded, run2) = continue-ok second.0 _ second.1 x h1 in
      let h2 = ap (λ (z : Result SeedSummary × Session). z.0) (sym run2) ∙ h1 in
      let third = seed_roles p.id p.required_roles m2 second.1 in
      let (m3, listed, run3) = continue-ok third.0 _ third.1 x h2 in
      let h3 = ap (λ (z : Result SeedSummary × Session). z.0) (sym run3) ∙ h2 in
      let (policy, e1) = insert_seed_policy-ok p s b inserted in
      let e2 = record_seeded-ok d p b m m2 first.1 recorded in
      let (roles, e3) = seed_roles-ok p p.required_roles m2 m3 second.1 listed in
      let (capabilities, e4) = seed_capabilities-ok p p.required_capabilities m3 x third.1 h3 in
      let later = Extends-trans _ _ _ e2 (Extends-trans _ _ _ e3 e4) in
      subst
        (λ (z : Result SeedSummary × Session). Seeded z.1.tables p × Extends s.tables z.1.tables)
        (sym (run1 ∙ run2 ∙ run3))
        (
          record {
            policy = (policy.0, later.policies _ policy.1);
            roles = map_RoleSkipped _ _ p p.required_roles e4 roles;
            capabilities = capabilities;
          },
          Extends-trans _ _ _ e1 later,
        )

  seed_all-ok :
      (draws : SeedPolicy → Draw) (ps : List SeedPolicy) (m x : SeedSummary) (s : Session)
      → (seed_all draws ps m s).0 ≡ ok x
      → All (Seeded (seed_all draws ps m s).1.tables) ps
        × Extends s.tables (seed_all draws ps m s).1.tables
  unfolding seed_all
  seed_all-ok draws [] m x s h = (tt, Extends-refl s.tables)
  seed_all-ok draws (p ∷ ps) m x s h =
      let first = seed_policy (draws p) p m s in
      let (m1, seeded, run) = continue-ok first.0 (seed_all draws ps) first.1 x h in
      let (one, grown) = seed_policy-ok (draws p) p m m1 s seeded in
      let (others, more) =
        seed_all-ok draws ps m1 x first.1
          (ap (λ (z : Result SeedSummary × Session). z.0) (sym run) ∙ h) in
      subst
        (λ (z : Result SeedSummary × Session).
          All (Seeded z.1.tables) (p ∷ ps) × Extends s.tables z.1.tables)
        (sym run) ((Seeded-Extends _ _ p more one, others), Extends-trans _ _ _ grown more)

  seed_policy_skipped :
      (d : Draw) (p : SeedPolicy) (m : SeedSummary) (s : Session)
      → s.faults ≡ []
      → Seeded s.tables p
      → seed_policy d p m s ≡ (ok m, s)
  unfolding seed_policy record_seeded
  seed_policy_skipped d p m s q h =
      rw (insert_seed_policy_skipped p s q h.policy) rw
        (seed_roles_skipped p p.required_roles m s q h.roles)
        (seed_capabilities_skipped p p.required_capabilities m s q h.capabilities)

  seed_all_skipped :
      (draws : SeedPolicy → Draw) (ps : List SeedPolicy) (m : SeedSummary) (s : Session)
      → s.faults ≡ []
      → All (Seeded s.tables) ps
      → seed_all draws ps m s ≡ (ok m, s)
  unfolding seed_all
  seed_all_skipped draws [] m s q h = refl
  seed_all_skipped draws (p ∷ ps) m s q h =
      rw (seed_policy_skipped (draws p) p m s q h.0) (seed_all_skipped draws ps m s q h.1)

  module _ (draws : SeedPolicy → Draw) (seeds : List SeedPolicy) where
    pub seed_with-Seeded :
        (repository : Option (Option Pool)) (s : Session) (x : SeedSummary)
        → (seed_with draws seeds repository s).0 ≡ ok x
        → All (Seeded (seed_with draws seeds repository s).1.tables) seeds
    unfolding seed_with
    seed_with-Seeded none s x h = cc
    seed_with-Seeded (some none) s x h = cc
    seed_with-Seeded (some (some pool)) s x h =
        let (ran, kept) = in_tx-ok (seed_all draws seeds no_changes) s (some pool) x h in
        subst (λ t. All (Seeded t) seeds) (sym kept)
          (seed_all-ok draws seeds no_changes x ran.start ran.value).0

    seed_with_skipped :
        (pool : Pool) (s : Session)
        → s.faults ≡ []
        → All (Seeded s.tables) seeds
        → ((seed_with draws seeds (some (some pool)) s).0 ≡ ok no_changes)
          × ((seed_with draws seeds (some (some pool)) s).1.tables ≡ s.tables)
    unfolding seed_with
    seed_with_skipped pool s q h =
        let run = seed_all_skipped draws seeds no_changes s q h in
        let value = ap (λ (z : Result SeedSummary × Session). z.0) run in
        let left = ap (λ (z : Result SeedSummary × Session). z.1) run in
        let done =
          in_tx_quiet pool (seed_all draws seeds no_changes) s no_changes q value
            (ap (λ (z : Session). z.faults) left ∙ q) in
        (done.0, done.1 ∙ ap (λ (z : Session). z.tables) left)

  -- After a seeding that reported success, a second one from the same tables in which no call fails
  -- reports that nothing was inserted and leaves the tables as they are.
  pub seed_again :
      (draws later : SeedPolicy → Draw) (seeds : List SeedPolicy)
      (repository : Option (Option Pool)) (s : Session) (x : SeedSummary)
      → (seed_with draws seeds repository s).0 ≡ ok x
      → (pool : Pool) (s' : Session) → s'.tables ≡ (seed_with draws seeds repository s).1.tables
      → s'.faults ≡ []
      → ((seed_with later seeds (some (some pool)) s').0 ≡ ok no_changes)
        × ((seed_with later seeds (some (some pool)) s').1.tables ≡ s'.tables)
  seed_again draws later seeds repository s x h pool s' same q =
      seed_with_skipped later seeds pool s' q (
        subst (λ t. All (Seeded t) seeds) (sym same)
          (seed_with-Seeded draws seeds repository s x h))

  -- Whatever a seeding reports and whichever calls fail, the tables are unchanged, or every policy
  -- of the list is seeded, with its roles and its capabilities.
  pub seed_atomic :
      (draws : SeedPolicy → Draw) (seeds : List SeedPolicy) (repository : Option (Option Pool))
      (s : Session)
      → ((seed_with draws seeds repository s).1.tables ≡ s.tables)
        ⊎ All (Seeded (seed_with draws seeds repository s).1.tables) seeds
  unfolding seed_with
  seed_atomic draws seeds none s = inl refl
  seed_atomic draws seeds (some none) s = inl refl
  seed_atomic draws seeds (some (some pool)) s =
      elim (in_tx_atomic (seed_all draws seeds no_changes) s (some pool)) [
        | inl h ↦ inl h
        | inr (a, ran, kept) ↦ inr (
            subst (λ t. All (Seeded t) seeds) (sym kept)
              (seed_all-ok draws seeds no_changes a ran.start ran.value).0)
      ]

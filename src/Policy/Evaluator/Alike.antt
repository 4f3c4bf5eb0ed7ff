-- ===== src/Policy/Evaluator/Alike.antt =====
-- About internal/policy/evaluator.go, Evaluate: what it does not depend on.
use taifa_exchange.Base.{
  List, Option, String, none, some, ◌≡◌, ◌↔◌, inl, inr, refl, some-injective, subst,
}
use taifa_exchange.Policy.Evaluator.{evaluate}
use taifa_exchange.Policy.Evaluator.Requirements.{AllHeld, AnyHeld}
use taifa_exchange.Policy.Evaluator.Verdict.{
  CapabilitiesMet, IsComplete, RoleMet, Verdict, denied, disabled, no_capability, no_method,
  no_operation, no_policy, no_role, no_route, no_target_system, permitted, unsupported,
}
use taifa_exchange.Policy.Evaluator.Verdict.Graph.{Verdict-answer, answer_of}
use taifa_exchange.Policy.Evaluator.Verdict.Proof.{evaluate-Verdict}
use taifa_exchange.Policy.Model.{EvaluationInput, Policy}
use taifa_exchange.Policy.Normalize.Laws.{IsListed}
use taifa_exchange.Text.{Unicode, normal, trim_space}

module _ ⦃u : Unicode⦄ where
  -- The same texts in the two lists, in their normal forms and but for blank ones: the order, the
  -- repetitions, the letter case and the white space around a text are free.
  abbrev pub SameListed : List String → List String → Type 0
  SameListed xs ys = (x : String) → IsListed x xs ↔ IsListed x ys

  SameListed-sym : (xs ys : List String) → SameListed xs ys → SameListed ys xs
  SameListed-sym xs ys h x = ((h x).1, (h x).0)

  AnyHeld-same :
      (held held' required required' : List String)
      → SameListed held held'
      → SameListed required required'
      → AnyHeld held required
      → AnyHeld held' required'
  AnyHeld-same held held' required required' h k (x, listed, i) =
      (x, (k x).0 listed, ((h x).0 (listed.0, i)).1)

  AllHeld-same :
      (held held' required required' : List String)
      → SameListed held held'
      → SameListed required required'
      → AllHeld held required
      → AllHeld held' required'
  AllHeld-same held held' required required' h k all x listed =
      ((h x).0 (listed.0, all x ((k x).1 listed))).1

  -- The same status, effect and requirements; the identifier and the description are free.
  pub record AlikePolicies (p q : Policy) : Type 0 where
    pub status : normal p.status ≡ normal q.status
    pub effect : normal p.effect ≡ normal q.effect
    pub roles : SameListed p.required_roles q.required_roles
    pub capabilities : SameListed p.required_capabilities q.required_capabilities

  abbrev pub BothAlike : Option Policy → Option Policy → Type 0
  BothAlike none none = Unit
  BothAlike (some p) (some q) = AlikePolicies p q
  BothAlike none (some q) = ⊥
  BothAlike (some p) none = ⊥

  -- The same question in another spelling.
  pub record Alike (i j : EvaluationInput) : Type 0 where
    pub target_system : normal i.target_system ≡ normal j.target_system
    pub method : normal i.method ≡ normal j.method
    pub route : trim_space i.route ≡ trim_space j.route
    pub operation : trim_space i.operation ≡ trim_space j.operation
    pub policies : BothAlike i.policy j.policy
    pub held_roles : SameListed i.actor_roles j.actor_roles
    pub held_capabilities : SameListed i.organization_capabilities j.organization_capabilities

  module _ (i j : EvaluationInput) (a : Alike i j) where
    IsComplete-alike : IsComplete i → IsComplete j
    IsComplete-alike c = record {
      target_system = rw (← a.target_system) c.target_system;
      method = rw (← a.method) c.method;
      route = rw (← a.route) c.route;
      operation = rw (← a.operation) c.operation;
    }

    alike_not_found : (o o' : Option Policy) → BothAlike o o' → o ≡ none → o' ≡ none
    alike_not_found none none h e = refl
    alike_not_found none (some q) h e = absurd h
    alike_not_found (some p) o' h e = cc

    alike_found :
        (o o' : Option Policy) (p : Policy)
        → BothAlike o o'
        → o ≡ some p
        → (q : Policy) × (o' ≡ some q) × AlikePolicies p q
    alike_found none o' p h e = cc
    alike_found (some x) none p h e = absurd h
    alike_found (some x) (some q) p h e =
        (q, refl, subst (λ (y : Policy). AlikePolicies y q) (some-injective _ _ e) h)

    module _ (p q : Policy) (k : AlikePolicies p q) where
      RoleMet-alike : RoleMet i p → RoleMet j q
      RoleMet-alike (inl n) = inl (λ x l. n x ((k.roles x).1 l))
      RoleMet-alike (inr h) = inr (AnyHeld-same _ _ _ _ a.held_roles k.roles h)

      RoleMet-alike_back : RoleMet j q → RoleMet i p
      RoleMet-alike_back (inl n) = inl (λ x l. n x ((k.roles x).0 l))
      RoleMet-alike_back (inr h) =
          inr
            (AnyHeld-same _ _ _ _ (SameListed-sym _ _ a.held_roles) (SameListed-sym _ _ k.roles) h)

      CapabilitiesMet-alike : CapabilitiesMet i p → CapabilitiesMet j q
      CapabilitiesMet-alike h = AllHeld-same _ _ _ _ a.held_capabilities k.capabilities h

      CapabilitiesMet-alike_back : CapabilitiesMet j q → CapabilitiesMet i p
      CapabilitiesMet-alike_back h =
          AllHeld-same _ _ _ _ (SameListed-sym _ _ a.held_capabilities)
            (SameListed-sym _ _ k.capabilities) h

    Verdict-alike : (d r : String) → Verdict i d r → Verdict j d r
    Verdict-alike d r (no_target_system h e f) = no_target_system (rw (← a.target_system) h) e f
    Verdict-alike d r (no_method x h e f) =
        no_method (rw (← a.target_system) x) (rw (← a.method) h) e f
    Verdict-alike d r (no_route x y h e f) =
        no_route (rw (← a.target_system) x) (rw (← a.method) y) (rw (← a.route) h) e f
    Verdict-alike d r (no_operation x y z h e f) =
        no_operation (rw (← a.target_system) x) (rw (← a.method) y) (rw (← a.route) z)
          (rw (← a.operation) h) e f
    Verdict-alike d r (no_policy c h e f) =
        no_policy (IsComplete-alike c) (alike_not_found i.policy j.policy a.policies h) e f
    Verdict-alike d r (disabled p c h s e f) =
        let (q, found, k) = alike_found i.policy j.policy p a.policies h in
        disabled q (IsComplete-alike c) found (rw (← k.status) s) e f
    Verdict-alike d r (denied p c h s x e f) =
        let (q, found, k) = alike_found i.policy j.policy p a.policies h in
        denied q (IsComplete-alike c) found (rw (← k.status) s) (rw (← k.effect) x) e f
    Verdict-alike d r (unsupported p c h s x y e f) =
        let (q, found, k) = alike_found i.policy j.policy p a.policies h in
        unsupported q (IsComplete-alike c) found (rw (← k.status) s) (rw (← k.effect) x)
          (rw (← k.effect) y) e f
    Verdict-alike d r (no_role p c h s x n e f) =
        let (q, found, k) = alike_found i.policy j.policy p a.policies h in
        no_role q (IsComplete-alike c) found (rw (← k.status) s) (rw (← k.effect) x)
          (λ m. n (RoleMet-alike_back p q k m)) e f
    Verdict-alike d r (no_capability p c h s x m n e f) =
        let (q, found, k) = alike_found i.policy j.policy p a.policies h in
        no_capability q (IsComplete-alike c) found (rw (← k.status) s) (rw (← k.effect) x)
          (RoleMet-alike p q k m) (λ l. n (CapabilitiesMet-alike_back p q k l)) e f
    Verdict-alike d r (permitted p l e f) =
        let (q, found, k) = alike_found i.policy j.policy p a.policies l.found in
        permitted q
          (record {
            complete = IsComplete-alike l.complete;
            found = found;
            active = rw (← k.status) l.active;
            allows = rw (← k.effect) l.allows;
            role = RoleMet-alike p q k l.role;
            capabilities = CapabilitiesMet-alike p q k l.capabilities;
          })
          e f

    -- Evaluate gives the same decision and the same reason for two questions whose fields, roles
    -- and capabilities, and whose policies' status, effect and requirements, are the same in their
    -- normal forms: the order and the repetitions of roles and capabilities, blank ones, letter
    -- case and white space make no difference.
    pub evaluate_alike : answer_of (evaluate i) ≡ answer_of (evaluate j)
    evaluate_alike =
        Verdict-answer j (evaluate i).decision (evaluate i).deny_reason
          (Verdict-alike _ _ (evaluate-Verdict i))

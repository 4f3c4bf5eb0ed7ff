-- ===== src/System/Lookup.antt =====
-- About the policy of a route over time: once there is one, it is never replaced.
use taifa_exchange.Base.{
  List, Option, String, [], ◌∷◌, ◌++◌, ◌≡◌, ◌∙◌, arith, false, true, some, sym, subst, eq_iff, ◌==◌,
  ◌&&◌, Bool, Bool-cases, inl, inr,
}
use taifa_exchange.Database.Statements.{find_policy_row, policy_conflict, same_route}
use taifa_exchange.Database.Tables.{PolicyRow, Tables}
use taifa_exchange.System.{Reachable, Steps}
use taifa_exchange.System.Stable.{Steps-keeps}
use taifa_exchange.System.Growth.{Steps-Grown}
use taifa_exchange.System.Integrity.{Sound, Sound-Stable, PoliciesOk, Reachable-Sound}
use taifa_exchange.Text.{Unicode}

true-false : ¬ (true ≡ false)
true-false h = cc

-- Two texts that equal a third.
same_text : (a b t : String) → (a == t) ≡ true → (b == t) ≡ true → (a == b) ≡ true
same_text a b t h k = (eq_iff a b).1 ((eq_iff a t).0 h ∙ sym ((eq_iff b t).0 k))

and-true : (a b : Bool) → (a && b) ≡ true → (a ≡ true) × (b ≡ true)
and-true a b h = ground arith

module _ (target method route operation : String) where
  abbrev found : List PolicyRow → Option PolicyRow
  found = find_policy_row target method route operation

  abbrev matches : PolicyRow → Bool
  matches r =
      r.target_system == target
      && r.method == method
      && r.route_pattern == route
      && r.operation == operation

  -- Two rows of the route that is looked for.
  matches-same_route :
      (p q : PolicyRow) → matches p ≡ true → matches q ≡ true → same_route p q ≡ true
  matches-same_route p q h k = ground (
    arith,
    same_text p.target_system q.target_system target,
    same_text p.method q.method method,
    same_text p.route_pattern q.route_pattern route,
    same_text p.operation q.operation operation,
  )

  -- A row of the route conflicts with the one that is found.
  found-conflict :
      (q r : PolicyRow) (rs : List PolicyRow)
      → found rs ≡ some r
      → matches q ≡ true
      → policy_conflict q rs ≡ true
  unfolding find_policy_row policy_conflict
  found-conflict q r [] h k = cc
  found-conflict q r (p ∷ rs) h k = elim (Bool-cases (matches p)) [
    | inl m ↦ ground (arith, matches-same_route p q m k)
    | inr m ↦ ground (arith, found-conflict q r rs (ground arith) k)
  ]

  found-append :
      (zs rs : List PolicyRow) (r : PolicyRow)
      → PoliciesOk (zs ++ rs)
      → found rs ≡ some r
      → found (zs ++ rs) ≡ some r
  unfolding find_policy_row
  found-append [] rs r sound h = h
  found-append (z ∷ zs) rs r sound h =
      let later = found-append zs rs r sound.2 h in
      elim (Bool-cases (matches z)) [
        | inl k ↦ absurd (true-false (sym (found-conflict z r (zs ++ rs) later k) ∙ sound.1))
        | inr k ↦ rw k later
      ]

  -- In the tables that the program reaches, the policy row that is stored for a route is the same
  -- one after any further operations with any failing calls.
  pub find_policy_row-Steps :
      ⦃u : Unicode⦄ (t t' : Tables) (r : PolicyRow)
      → Steps t t'
      → Reachable t
      → found t.policies ≡ some r
      → found t'.policies ≡ some r
  find_policy_row-Steps t t' r steps reached h =
      let (zs, same) = (Steps-Grown t t' steps).policies in
      let sound = Steps-keeps Sound Sound-Stable steps (Reachable-Sound t reached) in
      subst (λ (ps : List PolicyRow). found ps ≡ some r) (sym same)
        (found-append zs t.policies r (subst PoliciesOk same sound.policies) h)

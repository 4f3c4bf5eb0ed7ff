-- ===== src/System/Integrity.antt =====
-- About the constraints of migrations/ over time: keys, foreign keys and CHECK constraints.
use taifa_exchange.Base.{
  List, String, [], ◌∷◌, ◌≡◌, arith, contains, false, true, Bool-cases, inl, inr, refl, Option,
  none, some,
}
use taifa_exchange.Database.Statements.{
  capability_conflict, decision_exists, insert_capability, insert_outbox_row, insert_policy,
  insert_role, outbox_exists, policy_conflict, policy_exists, reference_ok, role_conflict,
}
use taifa_exchange.Database.Tables.{
  CapabilityRow, DecisionRow, OutboxRow, PolicyRow, RoleRow, Tables, capability_names,
  decision_row_ok, policy_row_ok, role_names,
}
use taifa_exchange.Exchange.Repository.{decision_row}
use taifa_exchange.System.{Reachable}
use taifa_exchange.System.Stable.{Stable, Steps-keeps}
use taifa_exchange.Text.{Unicode}

-- Every policy meets the CHECK constraints, and differs from those before it in its key and its route.
abbrev pub PoliciesOk : List PolicyRow → Type 0
PoliciesOk [] = Unit
PoliciesOk (r ∷ rs) = (policy_row_ok r ≡ true) × (policy_conflict r rs ≡ false) × PoliciesOk rs

-- Every role names a policy of the table `ps`.
abbrev pub RolesOk : List PolicyRow → List RoleRow → Type 0
RolesOk ps [] = Unit
RolesOk ps (r ∷ rs) =
    (contains role_names r.role ≡ true)
    × (role_conflict r rs ≡ false)
    × (policy_exists r.policy_id ps ≡ true)
    × RolesOk ps rs

abbrev pub CapabilitiesOk : List PolicyRow → List CapabilityRow → Type 0
CapabilitiesOk ps [] = Unit
CapabilitiesOk ps (r ∷ rs) =
    (contains capability_names r.capability ≡ true)
    × (capability_conflict r rs ≡ false)
    × (policy_exists r.policy_id ps ≡ true)
    × CapabilitiesOk ps rs

-- Every decision names no policy, or one of the table.
abbrev pub DecisionsOk : List PolicyRow → List DecisionRow → Type 0
DecisionsOk ps [] = Unit
DecisionsOk ps (r ∷ rs) =
    (decision_row_ok r ≡ true)
    × (decision_exists r.id rs ≡ false)
    × (reference_ok r.matched_policy_id ps ≡ true)
    × DecisionsOk ps rs

abbrev pub OutboxOk : List OutboxRow → Type 0
OutboxOk [] = Unit
OutboxOk (r ∷ rs) = (outbox_exists r.id rs ≡ false) × OutboxOk rs

pub record Sound (t : Tables) : Type 0 where
  pub policies : PoliciesOk t.policies
  pub roles : RolesOk t.policies t.roles
  pub capabilities : CapabilitiesOk t.policies t.capabilities
  pub decisions : DecisionsOk t.policies t.decisions
  pub outbox : OutboxOk t.outbox

-- A new policy takes no reference away.
module _ (p : PolicyRow) (ps : List PolicyRow) where
  RolesOk-cons : (rs : List RoleRow) → RolesOk ps rs → RolesOk (p ∷ ps) rs
  unfolding policy_exists
  RolesOk-cons [] h = tt
  RolesOk-cons (r ∷ rs) h = (h.0, h.1, ground arith, RolesOk-cons rs h.3)

  CapabilitiesOk-cons :
      (rs : List CapabilityRow) → CapabilitiesOk ps rs → CapabilitiesOk (p ∷ ps) rs
  unfolding policy_exists
  CapabilitiesOk-cons [] h = tt
  CapabilitiesOk-cons (r ∷ rs) h = (h.0, h.1, ground arith, CapabilitiesOk-cons rs h.3)

  pub reference_ok-cons :
      (o : Option String) → reference_ok o ps ≡ true → reference_ok o (p ∷ ps) ≡ true
  unfolding policy_exists
  reference_ok-cons none h = refl
  reference_ok-cons (some id) h = ground arith

  DecisionsOk-cons : (rs : List DecisionRow) → DecisionsOk ps rs → DecisionsOk (p ∷ ps) rs
  DecisionsOk-cons [] h = tt
  DecisionsOk-cons (r ∷ rs) h =
      (h.0, h.1, reference_ok-cons r.matched_policy_id h.2, DecisionsOk-cons rs h.3)

insert_policy-Sound : (r : PolicyRow) (t : Tables) → Sound t → Sound (insert_policy r t).1
unfolding insert_policy
insert_policy-Sound r t h = elim (Bool-cases (policy_row_ok r)) [
  | inr bad ↦ rw bad h
  | inl good ↦ elim (Bool-cases (policy_conflict r t.policies)) [
    | inl c ↦ rw (good, c) h
    | inr c ↦
        rw (good, c)
          (record {
            policies = (good, c, h.policies);
            roles = RolesOk-cons r t.policies t.roles h.roles;
            capabilities = CapabilitiesOk-cons r t.policies t.capabilities h.capabilities;
            decisions = DecisionsOk-cons r t.policies t.decisions h.decisions;
            outbox = h.outbox;
          })
  ]
]

insert_role-Sound : (r : RoleRow) (t : Tables) → Sound t → Sound (insert_role r t).1
unfolding insert_role
insert_role-Sound r t h = ground arith

insert_capability-Sound :
    (r : CapabilityRow) (t : Tables) → Sound t → Sound (insert_capability r t).1
unfolding insert_capability
insert_capability-Sound r t h = ground arith

insert_outbox_row-Sound : (r : OutboxRow) (t : Tables) → Sound t → Sound (insert_outbox_row r t).1
unfolding insert_outbox_row
insert_outbox_row-Sound r t h = ground arith

module _ ⦃u : Unicode⦄ where
  pub Sound-Stable : Stable Sound
  unfolding decision_row
  Sound-Stable = record {
    statements = record {
      policy = insert_policy-Sound;
      role = insert_role-Sound;
      capability = insert_capability-Sound;
      outbox = insert_outbox_row-Sound;
    };
    record_both = λ env result t fits h. record {
      policies = h.policies;
      roles = h.roles;
      capabilities = h.capabilities;
      decisions = (fits.checks, fits.new_decision, fits.known_policy, h.decisions);
      outbox = (fits.new_event, h.outbox);
    };
  }

  -- All tables that the program reaches from the empty ones, through any sequence of operations
  -- with any failing calls, meet the constraints: keys are distinct, references are to rows that
  -- are there, and every policy and decision meets its CHECK constraints.
  pub Reachable-Sound : (t : Tables) → Reachable t → Sound t
  Reachable-Sound t reached =
      Steps-keeps Sound Sound-Stable reached
        (record { policies = tt; roles = tt; capabilities = tt; decisions = tt; outbox = tt })

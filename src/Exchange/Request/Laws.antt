-- ===== src/Exchange/Request/Laws.antt =====
-- About internal/exchange/service.go, validateRequestForAuthorization.
use taifa_exchange.Base.{
  Bool, String, Bool-cases, ap, if◌then◌else◌, not, In, ◌≡◌, ◌≢◌, ◌↔◌, ◌⊎◌, contains, contains_iff,
  false, inl, inr, true, eq_iff, refl, ne_of_test, test_of_ne, ◌==◌, iff_trans,
}
use taifa_exchange.Exchange.Model.{
  AuthorizeRequest, is_known_method, is_known_target_system, known_methods, known_target_systems,
  missing_token, normalize_method_for_decision, normalize_target_system_for_decision,
}
use taifa_exchange.Exchange.Request.{
  Refusal, accepted, bad_request, validate_request_for_authorization,
}
use taifa_exchange.Text.{Unicode, normal, trim_space}

module _ ⦃u : Unicode⦄ where
  not_unknown_system :
      (x : String) → contains known_target_systems x ≡ true → (x == "UNKNOWN") ≡ false
  unfolding contains
  not_unknown_system x h = test_of_ne x "UNKNOWN" (λ e. cc)

  not_unknown_method : (x : String) → contains known_methods x ≡ true → (x == "UNKNOWN") ≡ false
  unfolding contains
  not_unknown_method x h = test_of_ne x "UNKNOWN" (λ e. cc)

  known_test :
      (b : Bool) (y : String)
      → (b ≡ true → (y == "UNKNOWN") ≡ false)
      → (not ((if b then y else "UNKNOWN") == "UNKNOWN") ≡ true) ↔ (b ≡ true)
  known_test true y h = (λ k. refl, λ k. rw (h refl) refl)
  known_test false y h = (λ k. cc, λ k. cc)

  known_system_test :
      (x : String)
      → (is_known_target_system x ≡ true) ↔ (contains known_target_systems (normal x) ≡ true)
  unfolding is_known_target_system normalize_target_system_for_decision
  known_system_test x = known_test _ (normal x) (not_unknown_system (normal x))

  known_method_test :
      (x : String) → (is_known_method x ≡ true) ↔ (contains known_methods (normal x) ≡ true)
  unfolding is_known_method normalize_method_for_decision
  known_method_test x = known_test _ (normal x) (not_unknown_method (normal x))

  -- A target system is known exactly if its normal form is one of the six names.
  pub is_known_target_system_iff :
      (x : String) → (is_known_target_system x ≡ true) ↔ In (normal x) known_target_systems
  is_known_target_system_iff x = iff_trans (known_system_test x) (contains_iff _ _)

  pub is_known_method_iff : (x : String) → (is_known_method x ≡ true) ↔ In (normal x) known_methods
  is_known_method_iff x = iff_trans (known_method_test x) (contains_iff _ _)

  -- What the validation asks for.
  pub record IsValid (r : AuthorizeRequest) (bearer : String) : Type 0 where
    pub has_token : trim_space bearer ≢ ""
    pub organization_id : trim_space r.organization_id ≢ ""
    pub target_system : trim_space r.target_system ≢ ""
    pub known_target_system : is_known_target_system r.target_system ≡ true
    pub method : trim_space r.method ≢ ""
    pub known_method : is_known_method r.method ≡ true
    pub route : trim_space r.route ≢ ""
    pub operation : trim_space r.operation ≢ ""

  -- How a request is answered.
  abbrev pub Answer : AuthorizeRequest → String → Refusal → Type 0
  Answer r bearer x =
      ((x ≡ accepted) × IsValid r bearer)
      ⊎ (((x.status_code ≡ 401) × (x.deny_reason ≡ missing_token) × (trim_space bearer ≡ ""))
          ⊎ ((x.status_code ≡ 400)
              × (x.deny_reason ≢ "")
              × (trim_space bearer ≢ "")
              × (¬ IsValid r bearer)))

  refused :
      (r : AuthorizeRequest) (bearer reason : String)
      → (reason == "") ≡ false
      → (trim_space bearer == "") ≡ false
      → ¬ IsValid r bearer
      → Answer r bearer (bad_request reason)
  refused r bearer reason n t v = inr (inr (refl, ne_of_test _ _ n, ne_of_test _ _ t, v))

  -- A test for a blank text that succeeds.
  blank : (s t : String) → (s == t) ≡ true → s ≢ t → ⊥
  blank s t h n = n ((eq_iff _ _).0 h)

  validate-Answer :
      (r : AuthorizeRequest) (bearer : String)
      → Answer r bearer (validate_request_for_authorization r bearer)
  unfolding validate_request_for_authorization
  validate-Answer r bearer = elim (Bool-cases (trim_space bearer == "")) [
    | inl a ↦ rw a (inr (inl (refl, refl, (eq_iff _ _).0 a)))
    | inr a ↦ rw a (elim (Bool-cases (trim_space r.organization_id == "")) [
      | inl b ↦ rw b (refused r bearer _ refl a (λ v. blank _ _ b v.organization_id))
      | inr b ↦ rw b (elim (Bool-cases (trim_space r.target_system == "")) [
        | inl c ↦ rw c (refused r bearer _ refl a (λ v. blank _ _ c v.target_system))
        | inr c ↦ rw c (elim (Bool-cases (is_known_target_system r.target_system)) [
          | inr d ↦ rw d (refused r bearer _ refl a (λ v. let k = v.known_target_system in cc))
          | inl d ↦ rw d (elim (Bool-cases (trim_space r.method == "")) [
            | inl e ↦ rw e (refused r bearer _ refl a (λ v. blank _ _ e v.method))
            | inr e ↦ rw e (elim (Bool-cases (is_known_method r.method)) [
              | inr f ↦ rw f (refused r bearer _ refl a (λ v. let k = v.known_method in cc))
              | inl f ↦ rw f (elim (Bool-cases (trim_space r.route == "")) [
                | inl g ↦ rw g (refused r bearer _ refl a (λ v. blank _ _ g v.route))
                | inr g ↦ rw g (elim (Bool-cases (trim_space r.operation == "")) [
                  | inl h ↦ rw h (refused r bearer _ refl a (λ v. blank _ _ h v.operation))
                  | inr h ↦ rw h (
                      inl (
                        refl,
                        record {
                          has_token = ne_of_test _ _ a;
                          organization_id = ne_of_test _ _ b;
                          target_system = ne_of_test _ _ c;
                          known_target_system = d;
                          method = ne_of_test _ _ e;
                          known_method = f;
                          route = ne_of_test _ _ g;
                          operation = ne_of_test _ _ h;
                        },
                      ))
                ])
              ])
            ])
          ])
        ])
      ])
    ])
  ]

  answer_status :
      (r : AuthorizeRequest) (bearer : String) (x : Refusal)
      → Answer r bearer x
      → x.deny_reason ≢ ""
      → (x.status_code ≡ 401) ⊎ (x.status_code ≡ 400)
  answer_status r bearer x (inl (e, v)) n = absurd (n (ap (λ (y : Refusal). y.deny_reason) e))
  answer_status r bearer x (inr (inl (e, _, _))) n = inl e
  answer_status r bearer x (inr (inr (e, _, _, _))) n = inr e

  pub validate_status :
      (r : AuthorizeRequest) (bearer : String)
      → (validate_request_for_authorization r bearer).deny_reason ≢ ""
      → ((validate_request_for_authorization r bearer).status_code ≡ 401)
        ⊎ ((validate_request_for_authorization r bearer).status_code ≡ 400)
  validate_status r bearer n = answer_status r bearer _ (validate-Answer r bearer) n

  IsValid-of :
      (r : AuthorizeRequest) (bearer : String) (x : Refusal)
      → Answer r bearer x
      → (x.deny_reason ≡ "") ↔ IsValid r bearer
  IsValid-of r bearer x (inl (e, v)) = (λ k. v, λ k. ap (λ (y : Refusal). y.deny_reason) e)
  IsValid-of r bearer x (inr (inl (e, f, g))) = (λ k. cc, λ v. absurd (v.has_token g))
  IsValid-of r bearer x (inr (inr (e, f, g, n))) = (λ k. absurd (f k), λ v. absurd (n v))

  -- The validation gives no reason for a denial exactly if the token and the five fields of the
  -- request are not blank and the target system and the method are known.
  pub validate-IsValid_iff :
      (r : AuthorizeRequest) (bearer : String)
      → ((validate_request_for_authorization r bearer).deny_reason ≡ "") ↔ IsValid r bearer
  validate-IsValid_iff r bearer = IsValid-of r bearer _ (validate-Answer r bearer)

-- ===== src/Policy/Evaluator/Requirements.antt =====
-- About internal/policy/evaluator.go, hasAnyRequiredRole and missingRequiredCapabilities.
use taifa_exchange.Policy.Evaluator.{
  any_role_loop, has_any_required_role, missing_loop, missing_required_capabilities, Unicode, List,
  String, is_nil, ◌∷◌, normalize_string_set, [], normal,
}
use taifa_exchange.Base.{
  In, arith, contains_iff, eq_iff, map, true, ◌↔◌, ◌≡◌, ◌⊎◌, Bool-cases, In-append, contains,
  if◌then◌else◌, inl, inr, is_nil_of_empty, refl, ◌++◌, ◌==◌, not-In-is_nil, not-In_of_contains,
}
use taifa_exchange.Policy.Normalize.Laws.{
  normalize_string_set_iff, IsListed, map_of_AllNormal, normalize_string_slice-AllNormal,
  normalize_string_slice_iff,
}
use taifa_exchange.Policy.Normalize.{normalize_string_slice}

module _ ⦃u : Unicode⦄ where
  -- A text that is not blank and stands in both lists, up to white space and letter case.
  abbrev pub AnyHeld : List String → List String → Type 0
  AnyHeld held required = (x : String) × IsListed x required × In x (map normal held)

  -- Each required text that is not blank is held, up to white space and letter case.
  abbrev pub AllHeld : List String → List String → Type 0
  AllHeld held required = (x : String) → IsListed x required → In x (map normal held)

  any_role_loop_sound :
      (held roles : List String)
      → any_role_loop (normalize_string_set held) roles ≡ true
      → AnyHeld held roles
  unfolding any_role_loop
  any_role_loop_sound held [] h = cc
  any_role_loop_sound held (r ∷ rs) h =
      elim (Bool-cases (any_role_loop (normalize_string_set held) rs)) [
        | inl later ↦
            let (x, listed, k) = any_role_loop_sound held rs later in
            (x, (listed.0, inr listed.1), k)
        | inr none_later ↦ (
          normal r,
          ground (
            arith,
            eq_iff (normal r) "",
            contains_iff (normalize_string_set held) (normal r),
            normalize_string_set_iff held (normal r),
          ),
          ground (
            arith,
            eq_iff (normal r) "",
            contains_iff (normalize_string_set held) (normal r),
            normalize_string_set_iff held (normal r),
          ),
        )
      ]

  any_role_loop_complete :
      (held roles : List String) (x : String)
      → IsListed x roles
      → In x (map normal held)
      → any_role_loop (normalize_string_set held) roles ≡ true
  unfolding any_role_loop
  any_role_loop_complete held [] x h k = absurd h.1
  any_role_loop_complete held (r ∷ rs) x h k = ground (
    arith,
    eq_iff (normal r) "",
    contains_iff (normalize_string_set held) (normal r),
    normalize_string_set_iff held (normal r),
    any_role_loop_complete held rs x,
  )

  -- The test for roles succeeds exactly if the list of required roles is empty or one of them that
  -- is not blank is held, in their normal forms.
  pub has_any_required_role_iff :
      (held roles : List String)
      → (has_any_required_role held roles ≡ true) ↔ ((roles ≡ []) ⊎ AnyHeld held roles)
  unfolding has_any_required_role
  has_any_required_role_iff held [] = (λ h. inl refl, λ h. refl)
  has_any_required_role_iff held (r ∷ rs) = (
    λ h. inr (any_role_loop_sound held (r ∷ rs) h),
    λ h. elim h [
      | inl e ↦ cc
      | inr (x, listed, k) ↦ any_role_loop_complete held (r ∷ rs) x listed k
    ],
  )

  missing_loop_sound :
      (set missing cs : List String) (x : String)
      → In x (missing_loop set missing cs)
      → In x missing ⊎ (IsListed x cs × (¬ In x set))
  unfolding missing_loop
  missing_loop_sound set missing [] x h = inl h
  missing_loop_sound set missing (c ∷ cs) x h = ground (
    arith,
    eq_iff (normal c) "",
    contains_iff set (normal c),
    In-append missing (normal c) x,
    missing_loop_sound set
        (if normal c == ""
          then missing
          else if contains set (normal c)
          then missing
          else missing ++ normal c ∷ [])
        cs x h,
  )

  missing_loop_complete :
      (set missing cs : List String) (x : String)
      → In x missing ⊎ (IsListed x cs × (¬ In x set))
      → In x (missing_loop set missing cs)
  unfolding missing_loop
  missing_loop_complete set missing [] x h = ground arith
  missing_loop_complete set missing (c ∷ cs) x h =
      missing_loop_complete set
        (if normal c == ""
          then missing
          else if contains set (normal c)
          then missing
          else missing ++ normal c ∷ [])
        cs x
        (ground (
          arith,
          eq_iff (normal c) "",
          contains_iff set (normal c),
          In-append missing (normal c) x,
        ))

  -- A text is among the missing capabilities exactly if it is the normal form of a required one,
  -- not empty, and of none that the organization has.
  pub missing_required_capabilities_iff :
      (held cs : List String) (x : String)
      → In x (missing_required_capabilities held cs) ↔ (IsListed x cs × (¬ In x (map normal held)))
  unfolding missing_required_capabilities
  missing_required_capabilities_iff held [] x = ground arith
  missing_required_capabilities_iff held (c ∷ cs) x = ground (
    arith,
    normalize_string_set_iff held x,
    missing_loop_sound (normalize_string_set held) [] (c ∷ cs) x,
    missing_loop_complete (normalize_string_set held) [] (c ∷ cs) x,
  )

  -- Nothing is missing exactly when everything is held.
  pub none_missing_iff :
      (held cs : List String)
      → (is_nil (missing_required_capabilities held cs) ≡ true) ↔ AllHeld held cs
  none_missing_iff held cs = (
    λ h x listed. elim (Bool-cases (contains (map normal held) x)) [
      | inl k ↦ (contains_iff _ x).0 k
      | inr k ↦ absurd (
          not-In-is_nil _ x h
            ((missing_required_capabilities_iff held cs x).1 (listed, not-In_of_contains _ x k)))
    ],
    λ h. is_nil_of_empty _ (λ x m.
        let (listed, n) = (missing_required_capabilities_iff held cs x).0 m in n (h x listed)),
  )

  -- The texts that a list requires do not change when the list is normalised.
  IsListed-normalize :
      (vs : List String) (x : String) → IsListed x (normalize_string_slice vs) ↔ IsListed x vs
  IsListed-normalize vs x = (
    λ h. (normalize_string_slice_iff vs x).0 (
        rw (map_of_AllNormal (normalize_string_slice vs) (normalize_string_slice-AllNormal vs)) at
          h.1),
    λ h. (
      h.0,
      rw (map_of_AllNormal (normalize_string_slice vs) (normalize_string_slice-AllNormal vs))
          ((normalize_string_slice_iff vs x).1 h),
    ),
  )

  pub AllHeld-normalize :
      (held required : List String)
      → AllHeld (normalize_string_slice held) (normalize_string_slice required)
        ↔ AllHeld held required
  AllHeld-normalize held required = (
    λ h x l. ((IsListed-normalize held x).0 (l.0, h x ((IsListed-normalize required x).1 l))).1,
    λ h x l. ((IsListed-normalize held x).1 (l.0, h x ((IsListed-normalize required x).0 l))).1,
  )

  pub AnyHeld-normalize :
      (held required : List String)
      → AnyHeld (normalize_string_slice held) (normalize_string_slice required)
        ↔ AnyHeld held required
  AnyHeld-normalize held required = (
    λ (x, l, k).
        (x, (IsListed-normalize required x).0 l, ((IsListed-normalize held x).0 (l.0, k)).1),
    λ (x, l, k).
        (x, (IsListed-normalize required x).1 l, ((IsListed-normalize held x).1 (l.0, k)).1),
  )

  -- No role is required exactly when the normalised list is empty.
  pub no_requirement_iff :
      (required : List String)
      → (is_nil (normalize_string_slice required) ≡ true) ↔ ((x : String) → ¬ IsListed x required)
  no_requirement_iff required = (
    λ h x l. not-In-is_nil _ x h ((normalize_string_slice_iff required x).1 l),
    λ h. is_nil_of_empty _ (λ x m. h x ((normalize_string_slice_iff required x).0 m)),
  )
